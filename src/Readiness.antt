-- ===== src/Readiness.antt =====
-- waitForServiceAccountReady, testCriticalAPIEndpoints and the two functions waitForClusterReady, of
-- main.go and kwok_integration.go. A wait is over when its timer is; what each tick of the ticker
-- meets until then is a list.
pub mod Laws
pub mod Account
use scale_cluster_agent.Types.{ClusterInfo, KwokCluster}
use scale_cluster_agent.Strings.{itoa}
use scale_cluster_agent.Strings.Trim.{itoa_int}
use scale_cluster_agent.Tenant.{tenant_namespace, tenant_sa_name}
use scale_cluster_agent.Agent.{Agent}
use scale_cluster_agent.Lifecycle.Params.{get_kwok_cluster_by_id}
use scale_cluster_agent.Proxy.{
  Proxies, World, StartError, Started, skipped, started, failed, start_proxy_for_cluster,
}
use scale_cluster_agent.Prelude.Dict.{Dict, lookup}
use scale_cluster_agent.Prelude.Results.{Result, ok, err}
use scale_cluster_agent.Prelude.{
  ℕ, zero, suc, Bool, true, false, ◌&&◌, not, List, [], ◌∷◌, ◌++◌, Option, none, some, Text,
  text_eq, nat_eq, codes, ◌==◌, if◌then◌else◌,
}

pub data WaitError : Type 0 where
  no_kwok_cluster timeout : WaitError

-- The loop over the ticks
abbrev pub any_tick : List Bool → Bool
any_tick [] = false
any_tick (done ∷ ticks) = if done then true else any_tick ticks

-- The namespace and the name of the service account
abbrev pub service_account_of : Bool → Text → Text × Text
service_account_of multi_tenant cluster_id =
    if multi_tenant
    then (tenant_namespace cluster_id, tenant_sa_name cluster_id)
    else (codes "cattle-system", codes "cattle")

-- waitForServiceAccountReady; `ticks` says when kubectl finds an account.
unfoldable pub wait_for_service_account_ready :
    Bool → Dict Text KwokCluster → (Text × Text → List Bool) → Text → Result WaitError (Text × Text)
unfolding get_kwok_cluster_by_id tenant_namespace tenant_sa_name
wait_for_service_account_ready multi_tenant clusters ticks cluster_id =
    let account = service_account_of multi_tenant cluster_id in
    let waited = if any_tick (ticks account) then ok account else err timeout in
    if multi_tenant then waited else elim (get_kwok_cluster_by_id cluster_id clusters) [
      | none ↦ err no_kwok_cluster
      | some c ↦ waited
    ]

-- What a tick of the agent's waitForClusterReady meets: the status of the response, if any, and the
-- state in its body, if that can be read. Nothing calls this function.
abbrev pub is_ready_state : Option ℕ → Option Text → Bool
is_ready_state none state = false
is_ready_state (some status) none = false
is_ready_state (some status) (some state) =
    status == 200 && not (state == codes "waiting") && not (state == codes "initializing")

-- waitForClusterReady of the agent, and that of the manager, whose ticks are runs of kubectl
unfoldable pub wait_for_rancher_cluster : List (Option ℕ × Option Text) → Bool
wait_for_rancher_cluster [] = false
wait_for_rancher_cluster ((status, state) ∷ ticks) =
    let rest = wait_for_rancher_cluster ticks in if is_ready_state status state then true else rest

abbrev pub wait_for_cluster_ready : List Bool → Bool
wait_for_cluster_ready = any_tick

pub data ApiError : Type 0 where
  unknown_name not_started no_port no_cluster unreachable : ApiError

-- The search for the cluster's name; Go goes over the map in some order.
unfoldable pub name_of_id : Dict ℕ ClusterInfo → Dict Text ℕ → Text → Text
name_of_id objects [] cluster_id = []
name_of_id objects ((name, p) ∷ d) cluster_id =
    let rest = name_of_id objects d cluster_id in
    elim (lookup p objects) [
      | none ↦ rest
      | some ci ↦ if ci.cluster_id == cluster_id then name else rest
    ]

-- port, ok := a.proxyPorts[clusterID], and whether it can be used
abbrev pub known_port : Option ℕ → Option ℕ
known_port none = none
known_port (some zero) = none
known_port (some (suc n)) = some (suc n)

-- The port after an attempt to start the proxy
abbrev pub port_after : Text → Proxies × Started → Result ApiError ℕ
port_after id (p, failed e) = err not_started
port_after id (p, skipped) = elim (known_port (lookup id p.ports)) [
  | none ↦ err no_port
  | some n ↦ ok n
]
port_after id (p, started port) = elim (known_port (lookup id p.ports)) [
  | none ↦ err no_port
  | some n ↦ ok n
]

-- The port of the cluster's proxy, which is started if it has none.
unfoldable pub proxy_port : World → Text → Agent → Proxies → Proxies × Result ApiError ℕ
unfolding name_of_id start_proxy_for_cluster
proxy_port w id a p = elim (known_port (lookup id p.ports)) [
  | some n ↦ (p, ok n)
  | none ↦
      let tried = start_proxy_for_cluster w true id 0 p in
      if name_of_id a.objects a.clusters id == []
      then (p, err unknown_name)
      else (tried.0, port_after id tried)
]

-- The answer of the endpoint: any response is good enough.
abbrev pub test_at : Bool → Text → Result ApiError Text
test_at answers url = if answers then ok url else err unreachable

abbrev pub at_port : Bool → Result ApiError ℕ → Result ApiError Text
at_port answers (err e) = err e
at_port answers (ok port) = test_at answers (codes "http://127.0.0.1:" ++ itoa port)

-- testCriticalAPIEndpoints, with the URL that is tested
unfoldable pub test_critical_api_endpoints :
    World → Bool → Bool → Text → Agent → Proxies → Proxies × Result ApiError Text
unfolding proxy_port get_kwok_cluster_by_id
test_critical_api_endpoints w multi_tenant answers id a p =
    let (p', r) = proxy_port w id a p in
    let own = elim (get_kwok_cluster_by_id id a.kwok.clusters) as (λ _. Result ApiError Text) [
      | none ↦ err no_cluster
      | some c ↦ test_at answers (codes "https://127.0.0.1:" ++ itoa_int c.port)
    ] in
    if multi_tenant then (p', at_port answers r) else (p, own)
