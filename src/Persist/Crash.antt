-- ===== src/Persist/Crash.antt =====
-- SaveState replaces the state file as a whole, or leaves it as it is.
use scale_cluster_agent.Persist.{
  Files, Op, create_temp, write_temp, write_bak, rename, remove_temp, run_ops, Outcomes, backup_ops,
  save_state,
}
use scale_cluster_agent.Prelude.{
  ℕ, zero, suc, ◌≡◌, ◌⊎◌, inl, inr, refl, Bool, true, false, List, [], ◌∷◌, Option, none, some,
  Text, take, not, if_both, if◌then◌else◌, arith,
}

-- The state file is the old one or the whole new text, after each operation that was done.
abbrev pub OldOrNew : Option Text → Text → Files → Type 0
OldOrNew old text f = (f.main ≡ old) ⊎ (f.main ≡ some text)

-- Operations that do not rename leave the state file alone, and write only this text before a rename.
abbrev IsQuiet : List Op → Type 0
IsQuiet [] = Unit
IsQuiet (rename ∷ os) = ⊥
IsQuiet (_ ∷ os) = IsQuiet os

-- The first operations of a save, with the state file's old contents, keep it.
main-quiet : (os : List Op) (n : ℕ) (f : Files) → IsQuiet os → (run_ops (take n os) f).main ≡ f.main
main-quiet os zero f h = refl
main-quiet [] (suc n) f h = refl
main-quiet (create_temp ∷ os) (suc n) f h = main-quiet os n _ h
main-quiet (write_temp t ∷ os) (suc n) f h = main-quiet os n _ h
main-quiet (write_bak t ∷ os) (suc n) f h = main-quiet os n _ h
main-quiet (remove_temp ∷ os) (suc n) f h = main-quiet os n _ h
main-quiet (rename ∷ os) (suc n) f h = absurd h

-- The operations of a save that succeeds, with no backup or with one.
abbrev plain : Text → List Op
plain text = create_temp ∷ write_temp text ∷ rename ∷ remove_temp ∷ []

abbrev backed_up : Text → Text → List Op
backed_up text old = create_temp ∷ write_temp text ∷ write_bak old ∷ rename ∷ remove_temp ∷ []

plain-OldOrNew :
    (text : Text) (n : ℕ) (f : Files) → OldOrNew f.main text (run_ops (take n (plain text)) f)
plain-OldOrNew text zero f = inl refl
plain-OldOrNew text (suc zero) f = inl refl
plain-OldOrNew text (suc (suc zero)) f = inl refl
plain-OldOrNew text (suc (suc (suc zero))) f = inr refl
plain-OldOrNew text (suc (suc (suc (suc zero)))) f = inr refl
plain-OldOrNew text (suc (suc (suc (suc (suc n))))) f = inr refl

backed_up-OldOrNew :
    (text old : Text) (n : ℕ) (f : Files)
    → OldOrNew f.main text (run_ops (take n (backed_up text old)) f)
backed_up-OldOrNew text old zero f = inl refl
backed_up-OldOrNew text old (suc zero) f = inl refl
backed_up-OldOrNew text old (suc (suc zero)) f = inl refl
backed_up-OldOrNew text old (suc (suc (suc zero))) f = inl refl
backed_up-OldOrNew text old (suc (suc (suc (suc zero)))) f = inr refl
backed_up-OldOrNew text old (suc (suc (suc (suc (suc zero))))) f = inr refl
backed_up-OldOrNew text old (suc (suc (suc (suc (suc (suc n)))))) f = inr refl

-- What a save may do: quiet operations and an error, or the whole sequence and none.
abbrev Saves : Text → Files → List Op × Bool → Type 0
Saves text f (ops, result) =
    (IsQuiet ops × (result ≡ false))
    ⊎ ((ops ≡ plain text) × (result ≡ true))
    ⊎ ((old : Text) × (ops ≡ backed_up text old) × (result ≡ true))

backup_cases :
    (w : Outcomes) (o : Option Text)
    → (backup_ops w o ≡ []) ⊎ ((old : Text) × (backup_ops w o ≡ write_bak old ∷ []))
unfolding backup_ops
backup_cases w none = inl refl
backup_cases w (some []) = inl refl
backup_cases w (some (c ∷ s)) =
    if_both (λ ops. (ops ≡ []) ⊎ ((old : Text) × (ops ≡ write_bak old ∷ []))) w.read_ok
      (inr (if w.bak_ok then c ∷ s else w.torn, ground arith)) (inl refl)

save_state-Saves : (w : Outcomes) (text : Text) (f : Files) → Saves text f (save_state w text f)
unfolding save_state
save_state-Saves w text f =
    let P : List Op × Bool → Type 0 = Saves text f in
    if_both P (not w.path_ok) (inl (tt, refl)) (
      if_both P (not w.marshal_ok) (inl (tt, refl)) (
        if_both P (not w.temp_ok) (inl (tt, refl)) (
          if_both P (not w.write_ok) (inl (tt, refl)) (
            if_both P (not w.sync_ok) (inl (tt, refl)) (
              if_both P (not w.close_ok) (inl (tt, refl)) (elim (backup_cases w f.main) [
                | inl e ↦
                    rw e (if_both P (not w.rename_ok) (inl (tt, refl)) (inr (inl (refl, refl))))
                | inr (old, e) ↦
                    rw e
                      (if_both P (not w.rename_ok) (inl (tt, refl)) (inr (inr (old, refl, refl))))
              ]))))))

-- However far a save comes before a crash, and whatever fails on the way, the state file then is the
-- old one or the whole new text.
pub save_state-OldOrNew :
    (w : Outcomes) (text : Text) (f : Files) (n : ℕ)
    → OldOrNew f.main text (run_ops (take n (save_state w text f).0) f)
save_state-OldOrNew w text f n = elim (save_state-Saves w text f) [
  | inl (quiet, result) ↦ inl (main-quiet (save_state w text f).0 n f quiet)
  | inr (inl (e, result)) ↦ rw e (plain-OldOrNew text n f)
  | inr (inr (old, e, result)) ↦ rw e (backed_up-OldOrNew text old n f)
]

-- A save that returns no error has replaced the state file by the new text.
pub save_state-main :
    (w : Outcomes) (text : Text) (f : Files)
    → (save_state w text f).1 ≡ true
    → (run_ops (save_state w text f).0 f).main ≡ some text
save_state-main w text f ok = elim (save_state-Saves w text f) [
  | inl (quiet, result) ↦ cc (result, ok)
  | inr (inl (e, result)) ↦ rw e
  | inr (inr (old, e, result)) ↦ rw e
]
