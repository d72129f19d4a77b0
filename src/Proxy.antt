-- ===== src/Proxy.antt =====
-- main.go: the local ports of the API proxies, one proxy for each logical cluster. The outside world
-- says which ports are free, and what kubectl and url.Parse answer; a port is a natural number, since
-- the code treats a negative one as it treats 0. Each function is one step: it runs to its end while
-- the mutex is held or no other code touches its maps.
pub mod Reserve
pub mod Invariant
pub mod Steps
use scale_cluster_agent.Strings.{contains_text, to_lower}
use scale_cluster_agent.Prelude.Dict.{Dict, lookup, insert, erase}
use scale_cluster_agent.Prelude.{
  ℕ, zero, suc, ◌+◌, Bool, true, false, not, ◌&&◌, ◌||◌, [], Option, none, some, Text, text_eq,
  nat_eq, codes, ltb, if◌then◌else◌,
}

-- The fields of ScaleAgent for the proxies. A server is known by its port, and a legacy command by
-- whether its process is there.
pub record Proxies : Type 0 where
  pub ports : Dict Text ℕ
  pub servers : Dict Text ℕ
  pub cmds : Dict Text Bool
  pub next_port : ℕ
  pub reserved : Dict ℕ Bool
  pub has_main_url : Bool

-- a.reservedProxyPorts[port]
abbrev pub is_reserved : Proxies → ℕ → Bool
is_reserved p port = elim (lookup port p.reserved) [ none ↦ false | some b ↦ b ]

-- reserveProxyPort
unfoldable pub reserve_proxy_port : ℕ → Proxies → Proxies × Bool
reserve_proxy_port port p =
    if is_reserved p port
    then (p, false)
    else (record p { reserved = insert port true p.reserved }, true)

-- releaseProxyPort
unfoldable pub release_proxy_port : ℕ → Proxies → Proxies
release_proxy_port port p = record p { reserved = erase port p.reserved }

-- findFreePort, with the rounds that are left; `none` is the error
pub find_free_port : (ℕ → Bool) → ℕ → ℕ → Option ℕ
find_free_port free zero port = none
find_free_port free (suc n) port =
    let rest = find_free_port free n (port + 1) in if free port then some port else rest

-- The loop of nextReservablePort, with the rounds that are left
pub reservable_loop : (ℕ → Bool) → ℕ → ℕ → Proxies → Proxies × Option ℕ
unfolding reserve_proxy_port
reservable_loop free zero port p = (p, none)
reservable_loop free (suc n) port p =
    let rest = reservable_loop free n (port + 1) p in
    if free port
    then (let (p', done) = reserve_proxy_port port p in if done then (p', some port) else rest)
    else rest

abbrev pub attempts : ℕ
attempts = 2000

-- nextReservablePort
unfoldable pub next_reservable_port : (ℕ → Bool) → ℕ → Proxies → Proxies × Option ℕ
unfolding reservable_loop
next_reservable_port free start p = reservable_loop free attempts start p

-- What ensureNamespaceOnMain meets: whether `kubectl get ns` succeeds, and the output of a failing
-- `kubectl create ns`.
pub record NamespaceAnswers : Type 0 where
  pub exists_already : Bool
  pub create_failure : Option Text

-- ensureNamespaceOnMain: whether it returns no error
unfoldable pub ensure_namespace_on_main : Bool → NamespaceAnswers → Bool
ensure_namespace_on_main multi_tenant w =
    not multi_tenant || w.exists_already || elim w.create_failure [
      | none ↦ true
      | some out ↦ contains_text (to_lower out) (codes "already exists")
    ]

pub record World : Type 0 where
  pub free : ℕ → Bool
  pub namespace : NamespaceAnswers
  pub url_ok : Bool

pub data StartError : Type 0 where
  namespace_failed no_port bad_url : StartError

pub data Started : Type 0 where
  skipped : Started
  started : ℕ → Started
  failed : StartError → Started

-- The port that is asked for, if it is free and not reserved, else the next one.
unfoldable pub choose_port : (ℕ → Bool) → ℕ → Proxies → Proxies × Option ℕ
unfolding reserve_proxy_port
choose_port free desired p =
    let other = next_reservable_port free p.next_port p in
    if ltb 0 desired && free desired
    then (let (p', done) = reserve_proxy_port desired p in
        if done then (p', some desired) else other)
    else other

-- The rest of startProxyForCluster once a port is reserved.
pub launch : World → Text → ℕ → Proxies → Proxies × Started
launch w id port p =
    let p' = record p { next_port = port + 1 } in
    if p.has_main_url || w.url_ok
    then (
      record p' {
        has_main_url = true;
        servers = insert id port p.servers;
        ports = insert id port p.ports;
      },
      started port,
    )
    else (p', failed bad_url)

unfoldable pub launch_chosen : World → Text → Proxies × Option ℕ → Proxies × Started
unfolding launch
launch_chosen w id (p, none) = (p, failed no_port)
launch_chosen w id (p, some port) = launch w id port p

-- startProxyForCluster
unfoldable pub start_proxy_for_cluster : World → Bool → Text → ℕ → Proxies → Proxies × Started
start_proxy_for_cluster w multi_tenant id desired p =
    if not multi_tenant then (p, skipped) else elim (lookup id p.servers) [
      | some port ↦ (p, skipped)
      | none ↦ elim (lookup id p.cmds) [
        | some running ↦ (p, skipped)
        | none ↦
            if ensure_namespace_on_main multi_tenant w.namespace
            then launch_chosen w id (choose_port w.free desired p)
            else (p, failed namespace_failed)
      ]
    ]

-- The end of the goroutine that startProxyForCluster starts, when its server stops serving.
unfoldable pub server_exited : Text → ℕ → Proxies → Proxies
unfolding release_proxy_port
server_exited id port p =
    let p' = release_proxy_port port (record p { servers = erase id p.servers }) in
    record p' { ports = erase id p.ports }

-- The legacy command of stopProxyForCluster.
stop_cmd : Text → Proxies → Proxies
stop_cmd id p = elim (lookup id p.cmds) [ some true ↦ record p { cmds = erase id p.cmds } | _ ↦ p ]

-- The port of stopProxyForCluster.
stop_port : Text → Proxies → Proxies
unfolding release_proxy_port
stop_port id p = elim (lookup id p.ports) [
  | some port ↦ release_proxy_port port (record p { ports = erase id p.ports })
  | none ↦ p
]

-- stopProxyForCluster
unfoldable pub stop_proxy_for_cluster : Text → Proxies → Proxies
unfolding stop_cmd stop_port
stop_proxy_for_cluster id p =
    let p' = stop_cmd id p in stop_port id (record p' { servers = erase id p'.servers })
