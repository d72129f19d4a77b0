-- ===== src/Agent/Setup.antt =====
-- runCompleteClusterSetup, and what main does with the clusters of the state file at a start. A setup
-- is the sequence of its calls; a change of status is followed by SaveState. Two goroutines prepare
-- the backing and fetch the YAML at the same time, and the setup waits for both: their calls stand
-- here one after the other, behind the status that is set while they run.
pub mod Outcome
pub mod Resume
pub mod Final
pub mod Progress
use scale_cluster_agent.Types.{ClusterInfo}
use scale_cluster_agent.Agent.{Agent, template, set_status}
use scale_cluster_agent.Agent.Template.{populate_template}
use scale_cluster_agent.Population.Calls.{Manifest}
use scale_cluster_agent.Prelude.{
  ℕ, Bool, true, false, not, ◌&&◌, ◌||◌, List, [], ◌∷◌, ◌++◌, Text, text_eq, codes, ◌==◌,
  if◌then◌else◌,
}

pub data Effect : Type 0 where
  status : Text → Effect
  ensure_namespace kube_context start_proxy create_kwok : Effect
  get_yaml apply_yaml populate await_account test_api connect : Effect

-- config.MultiTenant and config.ResourceOnlyInMainCluster, whether the cluster is still in the map,
-- and which of the calls succeed. The kubectl context and the population of the tenant may fail: that
-- is only logged.
pub record Calls : Type 0 where
  pub multi_tenant : Bool
  pub only_in_main : Bool
  pub is_stored : Bool
  pub namespace_ok : Bool
  pub proxy_ok : Bool
  pub kwok_ok : Bool
  pub yaml_ok : Bool
  pub apply_ok : Bool
  pub account_ok : Bool
  pub api_ok : Bool

-- The goroutine for the backing: its calls, and whether kwokErr stays nil
unfoldable pub backing : Calls → List Effect × Bool
backing w =
    if w.multi_tenant
    then if w.namespace_ok
      then (ensure_namespace ∷ kube_context ∷ start_proxy ∷ [], w.proxy_ok)
      else (ensure_namespace ∷ [], false)
    else (create_kwok ∷ [], w.kwok_ok)

abbrev pub failed : List Effect
failed = status (codes "failed") ∷ []

-- Steps 3, 4 and 5
unfoldable pub check_and_connect : Calls → List Effect
check_and_connect w =
    let rest = if w.api_ok then status (codes "ready") ∷ connect ∷ [] else failed in
    let tested = status (codes "testing_api") ∷ test_api ∷ rest in
    status (codes "waiting_service_account")
    ∷ await_account
    ∷ (if w.account_ok then tested else failed)

-- Step 2b
unfoldable pub populate_and_check : Calls → List Effect
unfolding check_and_connect
populate_and_check w =
    if w.multi_tenant && not w.only_in_main
    then status (codes "populating_template") ∷ populate ∷ check_and_connect w
    else check_and_connect w

-- Step 2
unfoldable pub apply_and_check : Calls → List Effect
unfolding populate_and_check
apply_and_check w =
    status (codes "applying_yaml")
    ∷ apply_yaml
    ∷ (if w.apply_ok then populate_and_check w else failed)

-- runCompleteClusterSetup
unfoldable pub run_complete_cluster_setup : Calls → List Effect
unfolding backing apply_and_check
run_complete_cluster_setup w =
    let (backed, good) = backing w in
    let rest = if good && w.yaml_ok then apply_and_check w else failed in
    status (codes "creating_backing")
    ∷ (if w.is_stored
        then status (codes "getting_yaml") ∷ (backed ++ (get_yaml ∷ rest))
        else failed)

-- The status after a call, and after several.
abbrev pub after_one : Text → Effect → Text
after_one s (status t) = t
after_one s _ = s

abbrev pub status_after : Text → List Effect → Text
status_after s [] = s
status_after s (e ∷ es) = status_after (after_one s e) es

-- The calls of a setup of the object that p points to, as far as they concern the agent's clusters: a
-- change of status, and the population of the tenant `cluster`, which `populate` is only with
-- config.MultiTenant and without config.ResourceOnlyInMainCluster. `applies` are the manifests that
-- kubectl accepts.
abbrev pub run_one : (Manifest → Bool) → Text → ℕ → Effect → Bool → Agent → Agent
run_one applies cluster p (status t) saves a = set_status p t saves a
run_one applies cluster p populate saves a = populate_template applies true false cluster a
run_one applies cluster p _ saves a = a

abbrev pub run_setup : (Manifest → Bool) → Text → ℕ → List Effect → Bool → Agent → Agent
run_setup applies cluster p [] saves a = a
run_setup applies cluster p (e ∷ es) saves a =
    run_setup applies cluster p es saves (run_one applies cluster p e saves a)

pub data Resumed : Type 0 where
  reconnect set_up_again : Resumed

-- name == "template" || ci.ClusterID == "": main passes over such a cluster.
abbrev pub is_passed_over : Text → ClusterInfo → Bool
is_passed_over name ci = name == template || ci.cluster_id == []

-- The first loop of main over the restored clusters.
unfoldable pub reconnects : Text → ClusterInfo → List Resumed
reconnects name ci =
    if is_passed_over name ci
    then []
    else (if ci.status == codes "ready" then reconnect ∷ [] else [])

-- The last loop of main over the restored clusters.
unfoldable pub set_ups : Text → ClusterInfo → List Resumed
set_ups name ci =
    let is_ready = ci.status == codes "ready" in
    let is_failed = ci.status == codes "failed" in
    if is_passed_over name ci
    then []
    else (if ci.status == [] || (not is_ready && not is_failed) then set_up_again ∷ [] else [])

-- What main starts for a restored cluster in these loops: a connection or the whole setup.
unfoldable pub resume : Text → ClusterInfo → List Resumed
unfolding reconnects set_ups
resume name ci = reconnects name ci ++ set_ups name ci
