-- ===== src/Agent/Setup/Resume.antt =====
-- What a restart makes of a setup that was cut off.
use scale_cluster_agent.Types.{ClusterInfo}
use scale_cluster_agent.Agent.{template}
use scale_cluster_agent.Agent.Setup.{
  Effect, status, ensure_namespace, kube_context, start_proxy, create_kwok, get_yaml, apply_yaml,
  populate, await_account, test_api, connect, Calls, run_complete_cluster_setup, after_one,
  status_after, Resumed, reconnect, set_up_again, is_passed_over, reconnects, set_ups, resume,
}
use scale_cluster_agent.Agent.Setup.Outcome.{
  succeeds, IsUnfinished, IsWorking, last_calls, run_complete_cluster_setup-EndsWell,
}
use scale_cluster_agent.Prelude.{
  ℕ, zero, suc, ◌≤◌, ◌<◌, length, ◌≡◌, ◌≢◌, ◌⊎◌, inl, inr, refl, Bool, true, false, not, ◌&&◌, ◌||◌,
  List, [], ◌∷◌, ◌++◌, Text, text_eq, nat_eq, codes, ◌==◌, take, All, Bool-cases, if◌then◌else◌,
  arith,
}

after_one-IsUnfinished :
    (s : Text) (e : Effect) → IsUnfinished s → IsWorking e → IsUnfinished (after_one s e)
after_one-IsUnfinished s (status t) h k = k
after_one-IsUnfinished s connect h k = absurd k
after_one-IsUnfinished s ensure_namespace h k = h
after_one-IsUnfinished s kube_context h k = h
after_one-IsUnfinished s start_proxy h k = h
after_one-IsUnfinished s create_kwok h k = h
after_one-IsUnfinished s get_yaml h k = h
after_one-IsUnfinished s apply_yaml h k = h
after_one-IsUnfinished s populate h k = h
after_one-IsUnfinished s await_account h k = h
after_one-IsUnfinished s test_api h k = h

abbrev pub final : Bool → Text
final true = codes "ready"
final false = codes "failed"

-- The status is unfinished, or the one that the outcome calls for.
status_after-last :
    (s : Text) (success : Bool) (n : ℕ)
    → IsUnfinished s
    → IsUnfinished (status_after s (take n (last_calls success)))
      ⊎ (status_after s (take n (last_calls success)) ≡ final success)
status_after-last s success zero h = inl h
status_after-last s true (suc zero) h = inr refl
status_after-last s true (suc (suc zero)) h = inr refl
status_after-last s true (suc (suc (suc n))) h = inr refl
status_after-last s false (suc zero) h = inr refl
status_after-last s false (suc (suc n)) h = inr refl

pub status_after-cut :
    (s : Text) (xs : List Effect) (success : Bool) (n : ℕ)
    → IsUnfinished s
    → All IsWorking xs
    → IsUnfinished (status_after s (take n (xs ++ last_calls success)))
      ⊎ (status_after s (take n (xs ++ last_calls success)) ≡ final success)
status_after-cut s [] success n h hs = status_after-last s success n h
status_after-cut s (x ∷ xs) success zero h hs = inl h
status_after-cut s (x ∷ xs) success (suc n) h hs =
    status_after-cut (after_one s x) xs success n (after_one-IsUnfinished s x h hs.0) hs.1

pub status_after-whole :
    (s : Text) (xs : List Effect) (success : Bool)
    → status_after s (xs ++ last_calls success) ≡ final success
status_after-whole s [] true = refl
status_after-whole s [] false = refl
status_after-whole s (x ∷ xs) success = status_after-whole (after_one s x) xs success

-- What a restart starts for a cluster with such a status.
abbrev pub Resumes : Bool → List Resumed → Type 0
Resumes success rs =
    (rs ≡ set_up_again ∷ [])
    ⊎ ((rs ≡ reconnect ∷ []) × (success ≡ true))
    ⊎ ((rs ≡ []) × (success ≡ false))

resume-guard :
    (name : Text) (ci : ClusterInfo)
    → name ≢ template
    → ci.cluster_id ≢ []
    → is_passed_over name ci ≡ false
resume-guard name ci t i = ground arith

-- A restart, by the three tests of the status.
resume-tests :
    (name : Text) (ci : ClusterInfo) (is_ready is_failed is_blank : Bool)
    → name ≢ template
    → ci.cluster_id ≢ []
    → (ci.status == codes "ready") ≡ is_ready
    → (ci.status == codes "failed") ≡ is_failed
    → (ci.status == []) ≡ is_blank
    → resume name ci
      ≡ (if is_ready then reconnect ∷ [] else [])
        ++ (if is_blank || (not is_ready && not is_failed) then set_up_again ∷ [] else [])
unfolding resume reconnects set_ups
resume-tests name ci is_ready is_failed is_blank t i r f b =
    rw (resume, reconnects, set_ups, resume-guard name ci t i, r, f, b)

pub resume-unfinished :
    (name : Text) (ci : ClusterInfo)
    → name ≢ template
    → ci.cluster_id ≢ []
    → IsUnfinished ci.status
    → resume name ci ≡ set_up_again ∷ []
resume-unfinished name ci t i (r, f) = elim (Bool-cases (ci.status == [])) [
  | inl b ↦ resume-tests name ci false false true t i r f b
  | inr b ↦ resume-tests name ci false false false t i r f b
]

-- The three tests of a final status.
final-tests :
    (s : Text) (success : Bool)
    → s ≡ final success
    → ((s == codes "ready") ≡ success) × ((s == codes "failed") ≡ not success) × ((s == []) ≡ false)
unfolding text_eq
final-tests s true e = rw e (refl, refl, refl)
final-tests s false e = rw e (refl, refl, refl)

pub resume-final :
    (name : Text) (ci : ClusterInfo) (success : Bool)
    → name ≢ template
    → ci.cluster_id ≢ []
    → ci.status ≡ final success
    → Resumes success (resume name ci)
resume-final name ci true t i e =
    let (r, f, b) = final-tests ci.status true e in
    inr (inl (resume-tests name ci true false false t i r f b, refl))
resume-final name ci false t i e =
    let (r, f, b) = final-tests ci.status false e in
    inr (inr (resume-tests name ci false true false t i r f b, refl))

-- Up to the final status, a cut leaves an unfinished one; from it on, the final one.
cut-before :
    (s : Text) (xs ys : List Effect) (n : ℕ)
    → IsUnfinished s
    → All IsWorking xs
    → n ≤ length xs
    → IsUnfinished (status_after s (take n (xs ++ ys)))
cut-before s [] ys n h hs le = let e : n ≡ 0 = omega arith in rw e h
cut-before s (x ∷ xs) ys zero h hs le = h
cut-before s (x ∷ xs) ys (suc n) h hs le =
    cut-before (after_one s x) xs ys n (after_one-IsUnfinished s x h hs.0) hs.1 (omega arith)

final-after :
    (s : Text) (success : Bool) (n : ℕ)
    → status_after s (take (suc n) (last_calls success)) ≡ final success
final-after s true zero = refl
final-after s true (suc zero) = refl
final-after s true (suc (suc n)) = refl
final-after s false zero = refl
final-after s false (suc n) = refl

cut-after :
    (s : Text) (xs : List Effect) (success : Bool) (n : ℕ)
    → length xs < n
    → status_after s (take n (xs ++ last_calls success)) ≡ final success
cut-after s xs success zero le = absurd (omega arith)
cut-after s [] success (suc n) le = final-after s success n
cut-after s (x ∷ xs) success (suc n) le = cut-after (after_one s x) xs success n (omega arith)

pub resume-final_exact :
    (name : Text) (ci : ClusterInfo) (success : Bool)
    → name ≢ template
    → ci.cluster_id ≢ []
    → ci.status ≡ final success
    → resume name ci ≡ (if success then reconnect ∷ [] else [])
resume-final_exact name ci true t i e =
    let (r, f, b) = final-tests ci.status true e in resume-tests name ci true false false t i r f b
resume-final_exact name ci false t i e =
    let (r, f, b) = final-tests ci.status false e in resume-tests name ci false true false t i r f b

-- A setup of a new cluster that has an ID and is not the template, cut off after any of its calls, the
-- state file holding the last status: the calls are some that set no final status, and then those of
-- its end. A restart begins the whole setup again exactly if it was cut off among the first; otherwise
-- it reconnects after a success, and leaves a failed cluster alone.
pub resume-cut :
    (w : Calls) (name : Text) (ci : ClusterInfo) (n : ℕ)
    → name ≢ template
    → ci.cluster_id ≢ []
    → (xs : List Effect) × (run_complete_cluster_setup w ≡ xs ++ last_calls (succeeds w))
      × All IsWorking xs
      × (n ≤ length xs
          → resume name
              (record ci { status = status_after [] (take n (run_complete_cluster_setup w)) })
            ≡ set_up_again ∷ [])
      × (length xs < n
          → resume name
              (record ci { status = status_after [] (take n (run_complete_cluster_setup w)) })
            ≡ (if succeeds w then reconnect ∷ [] else []))
unfolding text_eq
resume-cut w name ci n t i =
    let (xs, hs, e) = run_complete_cluster_setup-EndsWell w in
    (
      xs,
      e,
      hs,
      λ le. rw e (
          resume-unfinished name _ t i
            (cut-before [] xs (last_calls (succeeds w)) n (refl, refl) hs le)),
      λ le. rw e (resume-final_exact name _ (succeeds w) t i (cut-after [] xs (succeeds w) n le)),
    )
