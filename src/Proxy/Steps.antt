-- ===== src/Proxy/Steps.antt =====
-- The proxies over time: starts, and servers that stop serving. The program has no call of
-- stopProxyForCluster; what such a call would lead to is the last theorem.
use scale_cluster_agent.Prelude.Dict.{lookup, lookup-erase, lookup-nil}
use scale_cluster_agent.Proxy.{
  Proxies, World, Started, started, start_proxy_for_cluster, server_exited, stop_proxy_for_cluster,
}
use scale_cluster_agent.Proxy.Invariant.{
  IsOwned, Adds, Starts, start_proxy_for_cluster-Starts, start_proxy_for_cluster-IsOwned,
}
use scale_cluster_agent.Prelude.{
  ℕ, ◌≡◌, subst, Bool, true, [], none, some, Text, text_eq, nat_eq, arith,
}

-- The end of a registered server keeps the invariant.
pub server_exited-IsOwned :
    (id : Text) (port : ℕ) (p : Proxies)
    → lookup id p.servers ≡ some port
    → IsOwned p
    → IsOwned (server_exited id port p)
unfolding server_exited
server_exited-IsOwned id port p here v = record {
  recorded = λ j q h.
      ground (arith, lookup-erase j id p.servers, lookup-erase j id p.ports, v.recorded j q);
  is_held = λ j q h. ground (
    arith,
    lookup-erase j id p.servers,
    lookup-erase q port p.reserved,
    v.is_held j q,
    v.distinct j id q,
  );
  distinct = λ i j q hi hj.
      ground (arith, lookup-erase i id p.servers, lookup-erase j id p.servers, v.distinct i j q);
}

-- A call of startProxyForCluster, or the end of the goroutine of a registered server.
pub data Step : Proxies → Proxies → Type 0 where
  start_step :
      (w : World) (multi_tenant : Bool) (id : Text) (desired : ℕ) (p : Proxies)
      → Step p (start_proxy_for_cluster w multi_tenant id desired p).0
  exit_step :
      (id : Text) (port : ℕ) (p : Proxies)
      → lookup id p.servers ≡ some port
      → Step p (server_exited id port p)

pub data Reach (s : Proxies) : Proxies → Type 0 where
  here : Reach s s
  next : {t u : Proxies} → Reach s t → Step t u → Reach s u

Step-IsOwned : {t u : Proxies} → Step t u → IsOwned t → IsOwned u
Step-IsOwned (start_step w multi_tenant id desired p) v =
    start_proxy_for_cluster-IsOwned w multi_tenant id desired p v
Step-IsOwned (exit_step id port p h) v = server_exited-IsOwned id port p h v

no_servers-IsOwned : (p : Proxies) → p.servers ≡ [] → IsOwned p
no_servers-IsOwned p e = record {
  recorded = λ j q h. absurd (none_there j h);
  is_held = λ j q h. absurd (none_there j h);
  distinct = λ i j q hi hj. absurd (none_there i hi);
}
  where
    none_there : (j : Text) {q : ℕ} → lookup j p.servers ≡ some q → ⊥
    none_there j h = cc (rw e at h, lookup-nil {V = ℕ} j)

-- From a start with no servers, whatever ports were loaded, and through any sequence of starts and
-- ends of servers, no two clusters' servers share a port, and each server's port is recorded for its
-- cluster and reserved.
pub Reach-IsOwned : (p q : Proxies) → p.servers ≡ [] → Reach p q → IsOwned q
Reach-IsOwned p q e here = no_servers-IsOwned p e
Reach-IsOwned p q e (next {t} r st) = Step-IsOwned st (Reach-IsOwned p t e r)

exit-lookup :
    (id : Text) (port : ℕ) (p : Proxies)
    → (lookup id (server_exited id port p).servers ≡ none)
      × (lookup id (server_exited id port p).ports ≡ none)
unfolding server_exited
exit-lookup id port p =
    (ground (arith, lookup-erase id id p.servers), ground (arith, lookup-erase id id p.ports))

started-lookup :
    (p : Proxies) (id : Text) (p' : Proxies) (s : Started) (port : ℕ)
    → Starts p id p' s
    → s ≡ started port
    → (lookup id p'.servers ≡ some port) × (lookup id p'.ports ≡ some port)
started-lookup p id p' s port h e =
    let a : Adds p id p' port = subst (λ x. Starts p id p' x) e h in
    (ground (arith, a.servers_now id), ground (arith, a.ports_now id))

-- If a cluster's proxy is stopped and started again before the goroutine of the first server ends,
-- that end takes the record of the second server and of its port away, although it serves.
pub stop-start-exit :
    (w : World) (id : Text) (desired old new : ℕ) (p : Proxies)
    → lookup id p.servers ≡ some old
    → (start_proxy_for_cluster w true id desired (stop_proxy_for_cluster id p)).1 ≡ started new
    → let again = (start_proxy_for_cluster w true id desired (stop_proxy_for_cluster id p)).0 in
      (lookup id again.servers ≡ some new)
      × (lookup id again.ports ≡ some new)
      × (lookup id (server_exited id old again).servers ≡ none)
      × (lookup id (server_exited id old again).ports ≡ none)
stop-start-exit w id desired old new p first e =
    let stopped = stop_proxy_for_cluster id p in
    let again = (start_proxy_for_cluster w true id desired stopped).0 in
    let (s, r) =
      started-lookup stopped id again _ new
        (start_proxy_for_cluster-Starts w true id desired stopped) e in
    let (s', r') = exit-lookup id old again in (s, r, s', r')
