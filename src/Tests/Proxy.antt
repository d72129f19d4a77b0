-- ===== src/Tests/Proxy.antt =====
-- Tests of the proxies' ports: main.go.
use scale_cluster_agent.Proxy.{
  Proxies, next_reservable_port, World, started, start_proxy_for_cluster, stop_proxy_for_cluster,
  server_exited, choose_port, launch_chosen, ensure_namespace_on_main,
}
use scale_cluster_agent.Proxy.Invariant.{IsOwned}
use scale_cluster_agent.Proxy.Steps.{here, next, start_step, Reach-IsOwned, stop-start-exit}
use scale_cluster_agent.Prelude.Dict.{lookup, insert, erase}
use scale_cluster_agent.Prelude.{
  ◌≡◌, refl, true, false, not, [], none, some, Text, text_eq, nat_eq, codes, ◌==◌,
}

abbrev pub no_proxies : Proxies
no_proxies = record {
  ports = [];
  servers = [];
  cmds = [];
  next_port = 8440;
  reserved = [];
  has_main_url = false;
}

abbrev pub a_id : Text
a_id = codes "c-a"

abbrev b_id : Text
b_id = codes "c-b"

-- Port 8440 is taken by something else.
abbrev pub world : World
world = record {
  free = λ port. not (port == 8440);
  namespace = record { exists_already = true; create_failure = none };
  url_ok = true;
}

abbrev with_a : Proxies
with_a = (start_proxy_for_cluster world true a_id 0 no_proxies).0

first_start : (start_proxy_for_cluster world true a_id 0 no_proxies).1 ≡ started 8441
unfolding start_proxy_for_cluster lookup ensure_namespace_on_main launch_chosen choose_port
    next_reservable_port nat_eq
first_start = refl

Reach-IsOwned_example : IsOwned (start_proxy_for_cluster world true b_id 8441 with_a).0
Reach-IsOwned_example = Reach-IsOwned no_proxies _ refl (
    next (next here (start_step world true a_id 0 no_proxies))
      (start_step world true b_id 8441 with_a))

stop-start-exit_example :
    let again =
      (start_proxy_for_cluster world true a_id 0 (stop_proxy_for_cluster a_id with_a)).0 in
    (lookup a_id again.servers ≡ some 8442)
    × (lookup a_id again.ports ≡ some 8442)
    × (lookup a_id (server_exited a_id 8441 again).servers ≡ none)
    × (lookup a_id (server_exited a_id 8441 again).ports ≡ none)
unfolding lookup start_proxy_for_cluster ensure_namespace_on_main launch_chosen choose_port
    next_reservable_port nat_eq insert text_eq stop_proxy_for_cluster erase
stop-start-exit_example = stop-start-exit world a_id 0 8441 8442 with_a refl refl
