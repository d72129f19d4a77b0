-- ===== src/Readiness/Laws.antt =====
-- Which URL testCriticalAPIEndpoints tests for a tenant.
use scale_cluster_agent.Strings.{itoa}
use scale_cluster_agent.Agent.{Agent}
use scale_cluster_agent.Proxy.{
  Proxies, World, Started, skipped, started, failed, start_proxy_for_cluster,
}
use scale_cluster_agent.Proxy.Invariant.{
  IsOwned, Starts, start_proxy_for_cluster-Starts, start_proxy_for_cluster-IsOwned,
}
use scale_cluster_agent.Readiness.{
  ApiError, name_of_id, known_port, port_after, proxy_port, at_port, test_critical_api_endpoints,
}
use scale_cluster_agent.Prelude.Dict.{lookup}
use scale_cluster_agent.Prelude.Results.{Result, ok, err}
use scale_cluster_agent.Prelude.{
  ℕ, zero, suc, ◌≡◌, ◌≢◌, ◌⊎◌, inl, inr, refl, Bool, true, false, [], ◌++◌, Option, none, some,
  Text, text_eq, codes, ◌==◌, Bool-cases, Option-cases, arith,
}

-- A port that is found is recorded, is not 0, and was recorded before or has a new server.
abbrev pub Reaches : Proxies → Text → Proxies → Result ApiError ℕ → Type 0
Reaches p id p' (err e) = Unit
Reaches p id p' (ok port) =
    (port ≢ 0)
    × (lookup id p'.ports ≡ some port)
    × ((lookup id p.ports ≡ some port) ⊎ (lookup id p'.servers ≡ some port))

known_port-some : (o : Option ℕ) (n : ℕ) → known_port o ≡ some n → (n ≢ 0) × (o ≡ some n)
known_port-some none n h = absurd (cc h)
known_port-some (some zero) n h = absurd (cc h)
known_port-some (some (suc k)) n h = ground arith

port_after-Reaches :
    (p : Proxies) (id : Text) (p' : Proxies) (s : Started)
    → known_port (lookup id p.ports) ≡ none
    → Starts p id p' s
    → Reaches p id p' (port_after id (p', s))
port_after-Reaches p id p' (failed e) k h = tt
port_after-Reaches p id p' skipped k h = rw (h, port_after, k) tt
port_after-Reaches p id p' (started port) k h =
    elim (Option-cases (known_port (lookup id p'.ports))) [
      | inl e ↦ rw (port_after, e) tt
      | inr (n, e) ↦
          let (ne, now) = known_port-some (lookup id p'.ports) n e in
          let ports = h.ports_now id in
          let servers = h.servers_now id in rw (port_after, e) (ne, now, inr (ground arith))
    ]

proxy_port-Reaches :
    (w : World) (id : Text) (a : Agent) (p : Proxies)
    → IsOwned p
    → IsOwned (proxy_port w id a p).0 × Reaches p id (proxy_port w id a p).0 (proxy_port w id a p).1
unfolding proxy_port
proxy_port-Reaches w id a p v = elim (Option-cases (known_port (lookup id p.ports))) [
  | inr (n, e) ↦
      let (ne, now) = known_port-some (lookup id p.ports) n e in
      rw (proxy_port, e) (v, (ne, now, inl now))
  | inl e ↦ elim (Bool-cases (name_of_id a.objects a.clusters id == [])) [
    | inl f ↦ rw (proxy_port, e, f) (v, tt)
    | inr f ↦
        let tried = start_proxy_for_cluster w true id 0 p in
        rw (proxy_port, e, f)
          (
            start_proxy_for_cluster-IsOwned w true id 0 p v,
            port_after-Reaches p id tried.0 tried.1 e
                (start_proxy_for_cluster-Starts w true id 0 p),
          )
  ]
]

-- A URL that was tested is that of a port of the cluster.
abbrev pub IsTested : Proxies → Text → Proxies → Result ApiError Text → Type 0
IsTested p id p' (err e) = Unit
IsTested p id p' (ok url) =
    (port : ℕ) × (url ≡ codes "http://127.0.0.1:" ++ itoa port) × Reaches p id p' (ok port)

at_port-IsTested :
    (answers : Bool) (p : Proxies) (id : Text) (p' : Proxies) (r : Result ApiError ℕ)
    → Reaches p id p' r
    → IsTested p id p' (at_port answers r)
at_port-IsTested answers p id p' (err e) h = tt
at_port-IsTested true p id p' (ok port) h = (port, refl, h)
at_port-IsTested false p id p' (ok port) h = tt

-- With multi-tenancy, where each server of a proxy has a recorded and reserved port of its own: this
-- is still so after the test of a tenant's API, and a test that succeeds was of the URL of the port
-- that is then recorded for the tenant, which is not 0, and which was recorded before or is that of
-- the tenant's server.
pub test_critical_api_endpoints-IsTested :
    (w : World) (answers : Bool) (id : Text) (a : Agent) (p : Proxies)
    → IsOwned p
    → IsOwned (test_critical_api_endpoints w true answers id a p).0
      × IsTested p id
          (test_critical_api_endpoints w true answers id a p).0
          (test_critical_api_endpoints w true answers id a p).1
unfolding test_critical_api_endpoints
test_critical_api_endpoints-IsTested w answers id a p v =
    let (owned, reached) = proxy_port-Reaches w id a p v in
    (owned, at_port-IsTested answers p id (proxy_port w id a p).0 (proxy_port w id a p).1 reached)
