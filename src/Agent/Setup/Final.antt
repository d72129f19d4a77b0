-- ===== src/Agent/Setup/Final.antt =====
-- What a setup that came to its end leaves of its cluster.
use scale_cluster_agent.Types.{ClusterInfo}
use scale_cluster_agent.Agent.{Agent, template, set_status}
use scale_cluster_agent.Agent.Separate.{save-kept, with_object, set_status-clusters}
use scale_cluster_agent.Agent.Template.{populate_template-clusters, populate_template-object}
use scale_cluster_agent.Agent.Setup.{
  Effect, status, ensure_namespace, kube_context, start_proxy, create_kwok, get_yaml, apply_yaml,
  populate, await_account, test_api, connect, Calls, run_complete_cluster_setup, after_one,
  status_after, run_one, run_setup,
}
use scale_cluster_agent.Agent.Setup.Outcome.{succeeds, run_complete_cluster_setup-EndsWell}
use scale_cluster_agent.Agent.Setup.Resume.{final, status_after-whole}
use scale_cluster_agent.Population.Calls.{Manifest}
use scale_cluster_agent.Prelude.Dict.{lookup, lookup-insert_self}
use scale_cluster_agent.Prelude.{
  ℕ, ◌≡◌, ◌≢◌, refl, ◌∙◌, Bool, true, false, List, [], ◌∷◌, some, Text, text_eq, nat_eq, ap,
}

set_status-object :
    (p : ℕ) (t : Text) (saves : Bool) (a : Agent) (ci : ClusterInfo)
    → lookup p a.objects ≡ some ci
    → lookup p (set_status p t saves a).objects ≡ some (record ci { status = t })
unfolding set_status
set_status-object p t saves a ci h =
    let b = with_object p (record ci { status = t }) a in
    rw (
      set_status,
      h,
      (save-kept saves b).0,
      lookup-insert_self p (record ci { status = t }) a.objects,
    )

module _ (applies : Manifest → Bool) (cluster : Text) (p : ℕ) where
  run_one-clusters :
      (e : Effect) (saves : Bool) (a : Agent)
      → (run_one applies cluster p e saves a).clusters ≡ a.clusters
  run_one-clusters (status t) saves a = set_status-clusters p t saves a
  run_one-clusters populate saves a = populate_template-clusters applies true false cluster a
  run_one-clusters connect saves a = refl
  run_one-clusters ensure_namespace saves a = refl
  run_one-clusters kube_context saves a = refl
  run_one-clusters start_proxy saves a = refl
  run_one-clusters create_kwok saves a = refl
  run_one-clusters get_yaml saves a = refl
  run_one-clusters apply_yaml saves a = refl
  run_one-clusters await_account saves a = refl
  run_one-clusters test_api saves a = refl

  run_one-object :
      (e : Effect) (saves : Bool) (a : Agent) (ci : ClusterInfo)
      → lookup template a.clusters ≢ some p
      → lookup p a.objects ≡ some ci
      → lookup p (run_one applies cluster p e saves a).objects
        ≡ some (record ci { status = after_one ci.status e })
  run_one-object (status t) saves a ci d h = set_status-object p t saves a ci h
  run_one-object populate saves a ci d h =
      populate_template-object applies true false cluster a p d ∙ h
  run_one-object connect saves a ci d h = h
  run_one-object ensure_namespace saves a ci d h = h
  run_one-object kube_context saves a ci d h = h
  run_one-object start_proxy saves a ci d h = h
  run_one-object create_kwok saves a ci d h = h
  run_one-object get_yaml saves a ci d h = h
  run_one-object apply_yaml saves a ci d h = h
  run_one-object await_account saves a ci d h = h
  run_one-object test_api saves a ci d h = h

  run_setup-object :
      (es : List Effect) (saves : Bool) (a : Agent) (ci : ClusterInfo)
      → lookup template a.clusters ≢ some p
      → lookup p a.objects ≡ some ci
      → lookup p (run_setup applies cluster p es saves a).objects
        ≡ some (record ci { status = status_after ci.status es })
  run_setup-object [] saves a ci d h = h
  run_setup-object (e ∷ es) saves a ci d h =
      run_setup-object es saves (run_one applies cluster p e saves a)
        (record ci { status = after_one ci.status e }) (rw (run_one-clusters e saves a) d)
        (run_one-object e saves a ci d h)

-- A setup of an object that is not the template's, once through all its calls, leaves it at "ready" or
-- "failed", "ready" exactly if its cluster was in the map and each call that is not only logged
-- succeeded, and changes nothing else of the object.
pub run_setup-final :
    (applies : Manifest → Bool) (cluster : Text) (w : Calls) (p : ℕ) (saves : Bool) (a : Agent)
    (ci : ClusterInfo)
    → lookup template a.clusters ≢ some p
    → lookup p a.objects ≡ some ci
    → lookup p (run_setup applies cluster p (run_complete_cluster_setup w) saves a).objects
      ≡ some (record ci { status = final (succeeds w) })
run_setup-final applies cluster w p saves a ci d h =
    let (xs, hs, e) = run_complete_cluster_setup-EndsWell w in
    let es = run_complete_cluster_setup w in
    let last : status_after ci.status es ≡ final (succeeds w) =
      rw e (status_after-whole ci.status xs (succeeds w)) in
    run_setup-object applies cluster p es saves a ci d h
    ∙ ap (λ s. some (record ci { status = s })) last
