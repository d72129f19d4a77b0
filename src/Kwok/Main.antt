-- ===== src/Kwok/Main.antt =====
-- EnsureMainCluster, isHTTPOnPort and ApplyPostReadyTuning of kwok_integration.go.
use scale_cluster_agent.Strings.{contains_text, to_lower}
use scale_cluster_agent.Kwok.Manager.{Manager, get_cluster}
use scale_cluster_agent.Prelude.Int.{ℤ}
use scale_cluster_agent.Prelude.{
  ◌≡◌, ◌↔◌, ◌⊎◌, inl, inr, refl, Bool, true, false, ◌&&◌, List, [], ◌∷◌, ◌++◌, Option, none, some,
  Text, codes, Bool-cases, if◌then◌else◌, arith,
}

-- kwokctl, os.RemoveAll of the cluster's directory, and killSchedulerAndController. `create_main` has
-- the port, and whether there is an audit policy.
pub data MainCommand : Type 0 where
  create_main : Text → ℤ → Bool → MainCommand
  start_main stop_main delete_main remove_all kill : Text → MainCommand

-- isHTTPOnPort: the text of the error of the request, if it fails
unfoldable pub is_http_on_port : Option Text → Bool
unfolding contains_text to_lower
is_http_on_port none = false
is_http_on_port (some error) =
    if contains_text (to_lower error) (codes "http response to https client") then true else false

pub data Created : Type 0 where
  succeeded timed_out failed : Created

pub data MainError : Type 0 where
  create_timed_out create_failed not_ready still_http : MainError

-- What is met: whether the directory is there, the requests to the port before and after, whether the
-- home directory and the audit policy are found, how the creation ends, and whether the new cluster
-- becomes ready. The start of a cluster that is there, and its readiness, are only logged.
pub record MainAnswers : Type 0 where
  pub exists : Bool
  pub before : Option Text
  pub home_ok : Bool
  pub policy_found : Bool
  pub created : Created
  pub ready : Bool
  pub after : Option Text

-- From the creation on
unfoldable pub verify_created : MainAnswers → Option MainError
unfolding is_http_on_port
verify_created w =
    let last = if is_http_on_port w.after then some still_http else none in
    elim w.created [
      | timed_out ↦ some create_timed_out
      | failed ↦ some create_failed
      | succeeded ↦ if w.ready then last else some not_ready
    ]

-- EnsureMainCluster: the commands, and the error, if any; without one it returns the path of the
-- kubeconfig.
unfoldable pub ensure_main_cluster :
    Manager → MainAnswers → Text → ℤ → List MainCommand × Option MainError
unfolding verify_created
ensure_main_cluster m w name port =
    let creation = create_main name port (m.audit_enabled && w.home_ok && w.policy_found) ∷ [] in
    let cleared = stop_main name ∷ delete_main name ∷ remove_all name ∷ creation in
    if w.exists
    then if is_http_on_port w.before
      then (start_main name ∷ cleared, verify_created w)
      else (start_main name ∷ [], none)
    else (creation, verify_created w)

-- ApplyPostReadyTuning, with whether kwok.yaml could be changed and the cluster started again
unfoldable pub apply_post_ready_tuning : Manager → Bool → Bool → Text → List MainCommand
apply_post_ready_tuning m modified started cluster_id = elim (get_cluster m cluster_id) [
  | none ↦ []
  | some c ↦
      if modified
      then stop_main c.name ∷ start_main c.name ∷ (if started then kill c.name ∷ [] else [])
      else []
]

-- A cluster that is there and speaks HTTPS is only started; in any other case one is created, where
-- one that speaks HTTP is deleted first, and what is wrong with the new one is the error.
abbrev pub Ensures : Manager → MainAnswers → Text → ℤ → List MainCommand → Option MainError → Type 0
Ensures m w name port commands error =
    ((w.exists ≡ true)
      × (is_http_on_port w.before ≡ false)
      × (commands ≡ start_main name ∷ [])
      × (error ≡ none))
    ⊎ (((w.exists ≡ false) ⊎ (is_http_on_port w.before ≡ true))
        × (commands
            ≡ (if w.exists
                then start_main name ∷ stop_main name ∷ delete_main name ∷ remove_all name ∷ []
                else [])
              ++ (create_main name port (m.audit_enabled && w.home_ok && w.policy_found) ∷ []))
        × ((error ≡ none)
            ↔ ((w.created ≡ succeeded) × (w.ready ≡ true) × (is_http_on_port w.after ≡ false))))

verify_created-none :
    (w : MainAnswers)
    → (verify_created w ≡ none)
      ↔ ((w.created ≡ succeeded) × (w.ready ≡ true) × (is_http_on_port w.after ≡ false))
unfolding verify_created
verify_created-none w = grind arith

-- EnsureMainCluster only starts a cluster that is there and does not answer HTTPS requests with HTTP;
-- in any other case it creates one, after it has deleted one that answers with HTTP, and returns no
-- error exactly if the creation succeeds, the new cluster becomes ready and does not answer with HTTP.
pub ensure_main_cluster-Ensures :
    (m : Manager) (w : MainAnswers) (name : Text) (port : ℤ)
    → Ensures m w name port
        (ensure_main_cluster m w name port).0
        (ensure_main_cluster m w name port).1
unfolding ensure_main_cluster
ensure_main_cluster-Ensures m w name port = elim (Bool-cases w.exists) [
  | inr e ↦ rw (ensure_main_cluster, e) (inr (inl refl, refl, verify_created-none w))
  | inl e ↦ elim (Bool-cases (is_http_on_port w.before)) [
    | inl h ↦ rw (ensure_main_cluster, e, h) (inr (inr refl, refl, verify_created-none w))
    | inr h ↦ rw (ensure_main_cluster, e, h) (inl (refl, refl, refl, refl))
  ]
]
