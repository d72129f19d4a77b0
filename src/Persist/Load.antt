-- ===== src/Persist/Load.antt =====
-- What LoadState reads of what SaveState has written.
use scale_cluster_agent.Persist.{
  Payload, Files, run_ops, Outcomes, save_state, restored, load_state, decode_text, no_payload,
}
use scale_cluster_agent.Persist.Crash.{save_state-OldOrNew, save_state-main}
use scale_cluster_agent.Prelude.{ℕ, ◌≡◌, ◌⊎◌, inl, inr, Bool, true, false, some, Text, take, ◌∙◌}

module _ (decode : Text → Payload → Payload × Bool) where
  load-good :
      (b : Bool) (f : Files) (text : Text) (p : Payload)
      → decode_text decode text no_payload ≡ (p, true)
      → f.main ≡ some text
      → load_state decode true b f ≡ restored p
  unfolding load_state
  load-good b f text p d e = rw (e, d)

  -- After a save that returns no error, of a text that is not empty and decodes to a payload, a load
  -- of the state file, which can be read, restores this payload.
  pub load_state-save_state :
      (w : Outcomes) (b : Bool) (text : Text) (p : Payload) (f : Files)
      → decode_text decode text no_payload ≡ (p, true)
      → (save_state w text f).1 ≡ true
      → load_state decode true b (run_ops (save_state w text f).0 f) ≡ restored p
  load_state-save_state w b text p f d ok =
      load-good b (run_ops (save_state w text f).0 f) text p d (save_state-main w text f ok)

  -- With a state file that decodes to a payload and a new text that decodes to another, both not
  -- empty: after a crash at any point of a save, whatever fails in it, a load of the state file, which
  -- can be read, restores the old payload or the new one.
  pub load_state-crash :
      (w : Outcomes) (b : Bool) (old text : Text) (p q : Payload) (f : Files) (n : ℕ)
      → f.main ≡ some old
      → decode_text decode old no_payload ≡ (p, true)
      → decode_text decode text no_payload ≡ (q, true)
      → (load_state decode true b (run_ops (take n (save_state w text f).0) f) ≡ restored p)
        ⊎ (load_state decode true b (run_ops (take n (save_state w text f).0) f) ≡ restored q)
  load_state-crash w b old text p q f n e dp dq =
      let g = run_ops (take n (save_state w text f).0) f in
      elim (save_state-OldOrNew w text f n) [
        | inl same ↦ inl (load-good b g old p dp (same ∙ e))
        | inr new ↦ inr (load-good b g text q dq new)
      ]

  -- Where the state file can be read but does not decode, and the backup can be read and decodes,
  -- after whatever the first attempt has left in the payload, a load restores the backup's payload.
  pub load_state-backup :
      (f : Files) (text bak : Text) (p q : Payload)
      → f.main ≡ some text
      → f.bak ≡ some bak
      → decode_text decode text no_payload ≡ (p, false)
      → decode_text decode bak p ≡ (q, true)
      → load_state decode true true f ≡ restored q
  unfolding load_state
  load_state-backup f text bak p q e eb dp dq = rw (e, eb, dp, dq)
