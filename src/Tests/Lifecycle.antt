-- ===== src/Tests/Lifecycle.antt =====
-- Tests of a cluster's lifecycle after its connection: main.go.
use scale_cluster_agent.Connect.{Connections, is_throttled}
use scale_cluster_agent.Lifecycle.Params.{Codec, get_cluster_params}
use scale_cluster_agent.Lifecycle.Tunnel.{
  TunnelCalls, opened, check_tunnel, start_cluster_agent_tunnel, TunnelRound, allow_tunnel,
  local_dialer,
}
use scale_cluster_agent.Lifecycle.Marks.{start_cluster_agent_tunnel-twice}
use scale_cluster_agent.Lifecycle.Dial.{loopback, get_cluster_params-local_dialer}
use scale_cluster_agent.Lifecycle.Config.{
  ComesTo, call_config_client_for_cluster, not_sent, call_config_client_for_cluster-ComesTo,
}
use scale_cluster_agent.Types.{KwokCluster}
use scale_cluster_agent.Strings.{has_prefix}
use scale_cluster_agent.Strings.Trim.{itoa_int}
use scale_cluster_agent.Prelude.Dict.{Dict, lookup}
use scale_cluster_agent.Prelude.Int.{pos}
use scale_cluster_agent.Prelude.{
  ◌≡◌, ◌≢◌, refl, true, false, [], ◌∷◌, none, some, Text, text_eq, codes, arith,
}

abbrev nothing : Connections
nothing = record { last_attempt = []; active = [] }

abbrev a_name : Text
a_name = codes "a"

abbrev tunnel : TunnelCalls
tunnel = record {
  multi_tenant = true;
  kwok_found = false;
  account_token = some (codes "t");
  rancher_token = some (codes "registration");
  url_ok = true;
  address = some (codes "127.0.0.1:8050");
}

start_cluster_agent_tunnel-twice_example :
    (start_cluster_agent_tunnel tunnel 105 a_name
      (start_cluster_agent_tunnel tunnel 100 a_name nothing).0).1
    ≡ opened (codes "registration") (codes "127.0.0.1:8050")
unfolding start_cluster_agent_tunnel check_tunnel is_throttled lookup text_eq
start_cluster_agent_tunnel-twice_example =
    start_cluster_agent_tunnel-twice tunnel tunnel 100 105 a_name nothing
      (start_cluster_agent_tunnel tunnel 100 a_name nothing).0 (codes "registration")
      (codes "127.0.0.1:8050") (codes "registration") (codes "127.0.0.1:8050") (omega arith) refl
      refl refl refl

abbrev round : TunnelRound
round = record { shut_down = false; connects = true }

abbrev codec : Codec
codec = record { host = λ s. some s; encode = λ s. s }

abbrev kwok : Dict Text KwokCluster
kwok =
    (
      codes "c-1",
      record {
        name = codes "rancher-c-1-8001";
        cluster_id = codes "c-1";
        port = pos 8001;
        kubeconfig = [];
        status = [];
        created_at = 0;
        config = none;
      },
    )
    ∷ []

get_cluster_params-local_dialer_example :
    has_prefix (local_dialer (codes "tcp") (codes "not-used:80")) loopback ≡ true
unfolding get_cluster_params allow_tunnel text_eq itoa_int
get_cluster_params-local_dialer_example =
    get_cluster_params-local_dialer codec (some (codes "ca", codes "t")) none (codes "c-1") kwok
      (record { address = codes "127.0.0.1:8001"; token = codes "t"; ca_cert = codes "ca" })
      (codes "tcp") (codes "not-used:80") refl refl

call_config_client_for_cluster-ComesTo_example :
    ComesTo (λ i. some 200) (call_config_client_for_cluster true true true (λ i. some 200))
    × (call_config_client_for_cluster true true true (λ i. some 200) ≢ not_sent)
call_config_client_for_cluster-ComesTo_example =
    call_config_client_for_cluster-ComesTo (λ i. some 200)
