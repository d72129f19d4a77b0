-- ===== src/Lifecycle/Steps.antt =====
-- waitForClusterActiveAndConnect of main.go, as the sequence of what it starts.
use scale_cluster_agent.Types.{KwokCluster}
use scale_cluster_agent.Connect.{Connections}
use scale_cluster_agent.Lifecycle.Params.{get_kwok_cluster_by_id}
use scale_cluster_agent.Lifecycle.Tunnel.{TunnelCalls, start_cluster_agent_tunnel}
use scale_cluster_agent.Prelude.Dict.{Dict}
use scale_cluster_agent.Prelude.{
  ℕ, Bool, true, false, List, [], ◌∷◌, Option, none, some, Text, text_eq, ◌==◌, if◌then◌else◌,
}

-- What goes on in goroutines once the function has returned.
pub data Activity : Type 0 where
  config_client : Text → Activity
  rancher_run : Activity
  plan_monitor : Text → Activity

-- Whether the search finds the KWOK cluster
abbrev pub is_found : Option KwokCluster → Bool
is_found none = false
is_found (some c) = true

-- What it starts with the registration token, which is empty where Rancher has none
abbrev pub with_token : Option Text → List Activity
with_token none = rancher_run ∷ []
with_token (some token) =
    config_client token ∷ rancher_run ∷ (if token == [] then [] else plan_monitor token ∷ [])

-- Whether the service account becomes ready and Rancher's URL can be read are answers, like those of
-- the tunnel, whose `kwok_found` is the search for the KWOK cluster in the manager's map.
unfoldable pub wait_for_cluster_active_and_connect :
    Bool
    → TunnelCalls
    → Option Text
    → Dict Text KwokCluster
    → ℕ
    → Text
    → Text
    → Connections
    → Connections × List Activity
unfolding start_cluster_agent_tunnel get_kwok_cluster_by_id
wait_for_cluster_active_and_connect account_ok w token clusters now name cluster_id c =
    let found = is_found (get_kwok_cluster_by_id cluster_id clusters) in
    let c' = (start_cluster_agent_tunnel (record w { kwok_found = found }) now name c).0 in
    if account_ok
    then (c', if w.url_ok then (if found then with_token token else []) else [])
    else (c, [])
