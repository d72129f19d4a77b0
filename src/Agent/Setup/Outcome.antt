-- ===== src/Agent/Setup/Outcome.antt =====
-- What a setup comes to.
use scale_cluster_agent.Agent.Setup.{
  Effect, status, connect, Calls, backing, failed, check_and_connect, populate_and_check,
  apply_and_check, run_complete_cluster_setup,
}
use scale_cluster_agent.Prelude.{
  ◌≡◌, inl, inr, refl, Bool, true, false, not, ◌&&◌, List, [], ◌∷◌, ◌++◌, Text, text_eq, codes,
  ◌==◌, ap, sym, All, Bool-cases, if_both, if◌then◌else◌,
}

-- The backing is there, and each call that is not only logged succeeds.
abbrev pub succeeds : Calls → Bool
succeeds w =
    w.is_stored
    && ((if w.multi_tenant then w.namespace_ok && w.proxy_ok else w.kwok_ok)
        && w.yaml_ok
        && (w.apply_ok && (w.account_ok && w.api_ok)))

-- A status from which a restart sets the cluster up again.
abbrev pub IsUnfinished : Text → Type 0
IsUnfinished s = ((s == codes "ready") ≡ false) × ((s == codes "failed") ≡ false)

-- A call that is not the last: a status set by it is unfinished, and it does not connect.
abbrev pub IsWorking : Effect → Type 0
IsWorking (status s) = IsUnfinished s
IsWorking connect = ⊥
IsWorking _ = Unit

abbrev pub last_calls : Bool → List Effect
last_calls true = status (codes "ready") ∷ connect ∷ []
last_calls false = failed

-- Calls that end as a setup has to: unfinished until the end, then ready and connected with this
-- success, or failed without it.
abbrev pub EndsWell : Bool → List Effect → Type 0
EndsWell success es = (xs : List Effect) × All IsWorking xs × (es ≡ xs ++ last_calls success)

EndsWell-last : (success : Bool) → EndsWell success (last_calls success)
EndsWell-last success = ([], tt, refl)

EndsWell-cons :
    (success : Bool) (e : Effect) (es : List Effect)
    → IsWorking e
    → EndsWell success es
    → EndsWell success (e ∷ es)
EndsWell-cons success e es h (xs, hs, p) = (e ∷ xs, (h, hs), ap (λ ys. e ∷ ys) p)

EndsWell-append :
    (success : Bool) (ys es : List Effect)
    → All IsWorking ys
    → EndsWell success es
    → EndsWell success (ys ++ es)
EndsWell-append success [] es h g = g
EndsWell-append success (y ∷ ys) es h g =
    EndsWell-cons success y (ys ++ es) h.0 (EndsWell-append success ys es h.1 g)

-- A stage: with the call that it depends on, the rest, else the failure.
EndsWell-if :
    (b success : Bool) (es : List Effect)
    → EndsWell success es
    → EndsWell (b && success) (if b then es else failed)
EndsWell-if true success es h = h
EndsWell-if false success es h = EndsWell-last false

module _ (w : Calls) where
  tested-EndsWell : EndsWell w.api_ok (if w.api_ok then last_calls true else failed)
  tested-EndsWell = elim (Bool-cases w.api_ok) [
    | inl e ↦ rw e (EndsWell-last true)
    | inr e ↦ rw e (EndsWell-last false)
  ]

  check_and_connect-EndsWell : EndsWell (w.account_ok && w.api_ok) (check_and_connect w)
  unfolding check_and_connect text_eq
  check_and_connect-EndsWell =
      EndsWell-cons _ _ _ (refl, refl)
        (EndsWell-cons _ _ _ tt (
          EndsWell-if w.account_ok w.api_ok _
            (EndsWell-cons _ _ _ (refl, refl) (EndsWell-cons _ _ _ tt tested-EndsWell))))

  populate_and_check-EndsWell : EndsWell (w.account_ok && w.api_ok) (populate_and_check w)
  unfolding populate_and_check text_eq
  populate_and_check-EndsWell =
      if_both (EndsWell (w.account_ok && w.api_ok)) (w.multi_tenant && not w.only_in_main)
        (EndsWell-cons _ _ _ (refl, refl) (EndsWell-cons _ _ _ tt check_and_connect-EndsWell))
        check_and_connect-EndsWell

  apply_and_check-EndsWell : EndsWell (w.apply_ok && (w.account_ok && w.api_ok)) (apply_and_check w)
  unfolding apply_and_check text_eq
  apply_and_check-EndsWell =
      EndsWell-cons _ _ _ (refl, refl)
        (EndsWell-cons _ _ _ tt
          (EndsWell-if w.apply_ok (w.account_ok && w.api_ok) _ populate_and_check-EndsWell))

  -- The goroutine for the backing.
  backing-good :
      All IsWorking (backing w).0
      × ((backing w).1 ≡ (if w.multi_tenant then w.namespace_ok && w.proxy_ok else w.kwok_ok))
  unfolding backing
  backing-good = elim (Bool-cases w.multi_tenant) [
    | inl e ↦ elim (Bool-cases w.namespace_ok) [
      | inl f ↦ rw (e, f, backing) ((tt, (tt, (tt, tt))), refl)
      | inr f ↦ rw (e, f, backing) ((tt, tt), refl)
    ]
    | inr e ↦ rw (e, backing) ((tt, tt), refl)
  ]

  -- A setup sets unfinished statuses until its last calls; these set "ready" and connect, if the
  -- cluster is still in the map and each call that is not only logged succeeds, and set "failed"
  -- otherwise.
  pub run_complete_cluster_setup-EndsWell : EndsWell (succeeds w) (run_complete_cluster_setup w)
  unfolding run_complete_cluster_setup text_eq
  run_complete_cluster_setup-EndsWell =
      EndsWell-cons _ _ _ (refl, refl)
        (EndsWell-if w.is_stored _ _ (
          EndsWell-cons _ _ _ (refl, refl)
            (EndsWell-append _ (backing w).0 _ backing-good.0 (
              EndsWell-cons _ _ _ tt (
                rw (sym backing-good.1)
                  (EndsWell-if ((backing w).1 && w.yaml_ok) _ _ apply_and_check-EndsWell))))))
