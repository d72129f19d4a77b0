-- ===== src/Lifecycle/Config.antt =====
-- callConfigClientForCluster and startPlanMonitor of main.go.
use scale_cluster_agent.Prelude.{
  ℕ, zero, suc, ◌+◌, ◌<◌, ◌≤◌, ◌≡◌, ◌≢◌, ◌⊎◌, inl, inr, ap, ◌∙◌, Bool, true, Option, none, some,
  nat_eq, ◌==◌, Bool-cases, Option-cases, if◌then◌else◌, arith,
}

-- What the call comes to, with the number of requests that are sent.
pub data Answered : Type 0 where
  not_sent : Answered
  answered : ℕ → ℕ → Answered
  exhausted : ℕ → Answered

-- The attempts that are left: `status` has the status of the response to each request, and none
-- where Do fails.
unfoldable pub config_attempts : (ℕ → Option ℕ) → ℕ → ℕ → Answered
config_attempts status zero sent = exhausted sent
config_attempts status (suc n) sent =
    let rest = config_attempts status n (suc sent) in
    elim (status (suc sent)) [
      | none ↦ rest
      | some code ↦ if code == 404 then rest else answered (suc sent) code
    ]

-- callConfigClientForCluster, with whether the parameters, their JSON and the request are made.
unfoldable pub call_config_client_for_cluster : Bool → Bool → Bool → (ℕ → Option ℕ) → Answered
unfolding config_attempts
call_config_client_for_cluster params_ok marshal_ok request_ok status =
    if params_ok
    then if marshal_ok
      then if request_ok then config_attempts status 6 0 else not_sent
      else not_sent
    else not_sent

-- No response, or the status 404: the request is repeated.
abbrev pub IsRetried : Option ℕ → Type 0
IsRetried r = (r ≡ none) ⊎ (r ≡ some 404)

-- The outcome of n attempts after those that were sent before.
abbrev Follows : (ℕ → Option ℕ) → ℕ → ℕ → Answered → Type 0
Follows status n sent not_sent = ⊥
Follows status n sent (answered m code) =
    (sent < m)
    × (m ≤ sent + n)
    × (status m ≡ some code)
    × (code ≢ 404)
    × ((i : ℕ) → sent < i → i < m → IsRetried (status i))
Follows status n sent (exhausted m) =
    (m ≡ sent + n) × ((i : ℕ) → sent < i → i ≤ m → IsRetried (status i))

decide_next : (sent i : ℕ) → sent < i → (i ≡ suc sent) ⊎ (suc sent < i)
decide_next sent i h = omega arith

Follows-retried :
    (status : ℕ → Option ℕ) (n sent : ℕ) (x : Answered)
    → IsRetried (status (suc sent))
    → Follows status n (suc sent) x
    → Follows status (suc n) sent x
Follows-retried status n sent not_sent r h = h
Follows-retried status n sent (answered m code) r (lt, le, s, ne, before) = (
  omega arith,
  omega arith,
  s,
  ne,
  λ i a b. elim (decide_next sent i a) [ inl e ↦ rw e r | inr k ↦ before i k b ],
)
Follows-retried status n sent (exhausted m) r (e, before) =
    (omega arith, λ i a b. elim (decide_next sent i a) [ inl k ↦ rw k r | inr k ↦ before i k b ])

config_attempts-Follows :
    (status : ℕ → Option ℕ) (n sent : ℕ) → Follows status n sent (config_attempts status n sent)
unfolding config_attempts
config_attempts-Follows status zero sent = (omega arith, λ i a b. absurd (omega arith))
config_attempts-Follows status (suc n) sent =
    let ih = config_attempts-Follows status n (suc sent) in
    elim (Option-cases (status (suc sent))) [
      | inl e ↦ rw (config_attempts, e) (Follows-retried status n sent _ (inl e) ih)
      | inr (code, e) ↦ elim (Bool-cases (code == 404)) [
        | inl f ↦
            let same : code ≡ 404 = ground arith in
            rw (config_attempts, e, f) (Follows-retried status n sent _ (inr (e ∙ ap some same)) ih)
        | inr f ↦
            rw (config_attempts, e, f)
              (omega arith, omega arith, e, ground arith, λ i a b. absurd (omega arith))
      ]
    ]

-- What a call comes to: no request, for want of the parameters or of the request; or the first
-- response whose status is not 404, after requests that had none or 404; or six such requests.
abbrev pub ComesTo : (ℕ → Option ℕ) → Answered → Type 0
ComesTo status not_sent = Unit
ComesTo status (answered m code) =
    (0 < m)
    × (m ≤ 6)
    × (status m ≡ some code)
    × (code ≢ 404)
    × ((i : ℕ) → 0 < i → i < m → IsRetried (status i))
ComesTo status (exhausted m) = (m ≡ 6) × ((i : ℕ) → 0 < i → i ≤ m → IsRetried (status i))

Follows-ComesTo : (status : ℕ → Option ℕ) (x : Answered) → Follows status 6 0 x → ComesTo status x
Follows-ComesTo status not_sent h = absurd h
Follows-ComesTo status (answered m code) h = h
Follows-ComesTo status (exhausted m) h = h

-- A call of ConfigClient whose request can be made sends it, at most six times, and ends with the first
-- response that has a status other than 404, or else after six requests without one.
pub call_config_client_for_cluster-ComesTo :
    (status : ℕ → Option ℕ)
    → ComesTo status (call_config_client_for_cluster true true true status)
      × (call_config_client_for_cluster true true true status ≢ not_sent)
unfolding call_config_client_for_cluster
call_config_client_for_cluster-ComesTo status =
    let h = config_attempts-Follows status 6 0 in
    (Follows-ComesTo status _ h, λ e. absurd (rw e at h))
