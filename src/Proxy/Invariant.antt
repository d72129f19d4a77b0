-- ===== src/Proxy/Invariant.antt =====
-- Every server has a port of its own, which is recorded and reserved.
use scale_cluster_agent.Prelude.Dict.{lookup, insert, lookup-insert}
use scale_cluster_agent.Proxy.{
  Proxies, is_reserved, next_reservable_port, attempts, choose_port, World, launch, launch_chosen,
  namespace_failed, Started, skipped, started, failed, start_proxy_for_cluster, reserve_proxy_port,
}
use scale_cluster_agent.Proxy.Reserve.{
  Reserves, reserve-Reserves, Searched, next_reservable_port-first,
}
use scale_cluster_agent.Prelude.{
  ℕ, ◌≡◌, ◌⊎◌, inl, inr, refl, ap, ◌∙◌, ◌+◌, ◌||◌, Bool, true, false, Option, none, some, Text,
  text_eq, nat_eq, Bool-cases, if◌then◌else◌, ◌==◌, arith,
}

pub record IsOwned (p : Proxies) : Type 0 where
  pub recorded :
      (id : Text) (port : ℕ) → lookup id p.servers ≡ some port → lookup id p.ports ≡ some port
  pub is_held : (id : Text) (port : ℕ) → lookup id p.servers ≡ some port → is_reserved p port ≡ true
  pub distinct :
      (i j : Text) (port : ℕ)
      → lookup i p.servers ≡ some port
      → lookup j p.servers ≡ some port
      → i ≡ j

-- A choice reserves the port that it returns, or changes nothing.
abbrev Chooses : Proxies → Proxies → Option ℕ → Type 0
Chooses p p' none = p' ≡ p
Chooses p p' (some r) = Reserves p r p'

Searched-Chooses :
    (free : ℕ → Bool) (p : Proxies) (n port : ℕ) (p' : Proxies) (o : Option ℕ)
    → Searched free p n port p' o
    → Chooses p p' o
Searched-Chooses free p n port p' none h = h.0
Searched-Chooses free p n port p' (some r) (k, lt, at, is_free, before, reserved) = reserved

next-Chooses :
    (free : ℕ → Bool) (start : ℕ) (p : Proxies)
    → Chooses p (next_reservable_port free start p).0 (next_reservable_port free start p).1
next-Chooses free start p =
    Searched-Chooses free p attempts start _ _ (next_reservable_port-first free start p)

choose_port_cases :
    (free : ℕ → Bool) (desired : ℕ) (p : Proxies)
    → ((is_reserved p desired ≡ false)
        × (choose_port free desired p ≡ ((reserve_proxy_port desired p).0, some desired)))
      ⊎ (choose_port free desired p ≡ next_reservable_port free p.next_port p)
unfolding choose_port
choose_port_cases free desired p = ground arith

choose_port-Chooses :
    (free : ℕ → Bool) (desired : ℕ) (p : Proxies)
    → Chooses p (choose_port free desired p).0 (choose_port free desired p).1
choose_port-Chooses free desired p = elim (choose_port_cases free desired p) [
  | inl (h, e) ↦ rw e (reserve-Reserves desired p h)
  | inr e ↦ rw e (next-Chooses free p.next_port p)
]

-- What a call of startProxyForCluster does to the servers: nothing, or it adds one for an ID that
-- had none, on a port that was not reserved and now is, and records the port.
pub record Adds (p : Proxies) (id : Text) (p' : Proxies) (port : ℕ) : Type 0 where
  pub was_absent : lookup id p.servers ≡ none
  pub was_free : is_reserved p port ≡ false
  pub held_now : (q : ℕ) → is_reserved p' q ≡ (if port == q then true else is_reserved p q)
  pub servers_now :
      (j : Text) → lookup j p'.servers ≡ (if id == j then some port else lookup j p.servers)
  pub ports_now : (j : Text) → lookup j p'.ports ≡ (if id == j then some port else lookup j p.ports)

abbrev pub Starts : Proxies → Text → Proxies → Started → Type 0
Starts p id p' (started port) = Adds p id p' port
Starts p id p' skipped = p' ≡ p
Starts p id p' (failed e) =
    (p'.servers ≡ p.servers)
    × (p'.ports ≡ p.ports)
    × ((q : ℕ) → is_reserved p q ≡ true → is_reserved p' q ≡ true)

launch-Adds :
    (w : World) (id : Text) (p p' : Proxies) (port : ℕ)
    → lookup id p.servers ≡ none
    → Reserves p port p'
    → Adds p id
        (record p' {
          next_port = port + 1;
          has_main_url = true;
          servers = insert id port p'.servers;
          ports = insert id port p'.ports;
        })
        port
launch-Adds w id p p' port new h =
    let same_servers : p'.servers ≡ p.servers = ap (λ (x : Proxies). x.servers) h.rest in
    let same_ports : p'.ports ≡ p.ports = ap (λ (x : Proxies). x.ports) h.rest in
    record {
      was_absent = new;
      was_free = h.was_free;
      held_now = h.only;
      servers_now = λ j. rw same_servers (lookup-insert j id port p.servers);
      ports_now = λ j. rw same_ports (lookup-insert j id port p.ports);
    }

launch-Starts :
    (w : World) (id : Text) (p p' : Proxies) (port : ℕ)
    → lookup id p.servers ≡ none
    → Reserves p port p'
    → Starts p id (launch w id port p').0 (launch w id port p').1
unfolding launch
launch-Starts w id p p' port new h = elim (Bool-cases (p'.has_main_url || w.url_ok)) [
  | inl t ↦ rw (t, launch) (launch-Adds w id p p' port new h)
  | inr f ↦
      rw (f, launch)
        (
          ap (λ (x : Proxies). x.servers) h.rest,
          ap (λ (x : Proxies). x.ports) h.rest,
          λ q t. h.only q ∙ rw t (ground arith),
        )
]

launch_chosen-Starts :
    (w : World) (id : Text) (p p' : Proxies) (o : Option ℕ)
    → lookup id p.servers ≡ none
    → Chooses p p' o
    → Starts p id (launch_chosen w id (p', o)).0 (launch_chosen w id (p', o)).1
unfolding launch_chosen
launch_chosen-Starts w id p p' none new h = rw h (refl, refl, λ q t. t)
launch_chosen-Starts w id p p' (some port) new h = launch-Starts w id p p' port new h

start_cases :
    (w : World) (multi_tenant : Bool) (id : Text) (desired : ℕ) (p : Proxies)
    → (start_proxy_for_cluster w multi_tenant id desired p ≡ (p, skipped))
      ⊎ (start_proxy_for_cluster w multi_tenant id desired p ≡ (p, failed namespace_failed))
      ⊎ ((lookup id p.servers ≡ none)
          × (start_proxy_for_cluster w multi_tenant id desired p
              ≡ launch_chosen w id (choose_port w.free desired p)))
unfolding start_proxy_for_cluster
start_cases w multi_tenant id desired p = ground arith

-- A start is skipped, or fails with the servers and their ports as they were and no reservation
-- lost, or adds exactly one server, for an ID that had none, on a port that was not reserved.
pub start_proxy_for_cluster-Starts :
    (w : World) (multi_tenant : Bool) (id : Text) (desired : ℕ) (p : Proxies)
    → Starts p id
        (start_proxy_for_cluster w multi_tenant id desired p).0
        (start_proxy_for_cluster w multi_tenant id desired p).1
start_proxy_for_cluster-Starts w multi_tenant id desired p =
    elim (start_cases w multi_tenant id desired p) [
      | inl e ↦ rw e
      | inr (inl e) ↦ rw e (refl, refl, λ q t. t)
      | inr (inr (new, e)) ↦ rw e (
          launch_chosen-Starts w id p (choose_port w.free desired p).0
            (choose_port w.free desired p).1 new (choose_port-Chooses w.free desired p))
    ]

Adds-IsOwned :
    (p : Proxies) (id : Text) (p' : Proxies) (port : ℕ) → IsOwned p → Adds p id p' port → IsOwned p'
Adds-IsOwned p id p' port v a = record {
  recorded = λ j q h. ground (arith, a.servers_now j, a.ports_now j, v.recorded j q);
  is_held = λ j q h. ground (arith, a.servers_now j, a.held_now q, v.is_held j q);
  distinct = λ i j q hi hj. ground (
    arith,
    a.servers_now i,
    a.servers_now j,
    v.distinct i j q,
    v.is_held i q,
    v.is_held j q,
    a.was_free,
  );
}

Starts-IsOwned :
    (p : Proxies) (id : Text) (p' : Proxies) (s : Started)
    → IsOwned p
    → Starts p id p' s
    → IsOwned p'
Starts-IsOwned p id p' (started port) v h = Adds-IsOwned p id p' port v h
Starts-IsOwned p id p' skipped v h = rw h v
Starts-IsOwned p id p' (failed e) v h = record {
  recorded = λ j q s. rw h.1 (v.recorded j q (rw h.0 at s));
  is_held = λ j q s. h.2 q (v.is_held j q (rw h.0 at s));
  distinct = λ i j q si sj. v.distinct i j q (rw h.0 at si) (rw h.0 at sj);
}

-- The invariant holds after a call of startProxyForCluster, whatever it comes to, if it held before.
pub start_proxy_for_cluster-IsOwned :
    (w : World) (multi_tenant : Bool) (id : Text) (desired : ℕ) (p : Proxies)
    → IsOwned p
    → IsOwned (start_proxy_for_cluster w multi_tenant id desired p).0
start_proxy_for_cluster-IsOwned w multi_tenant id desired p v =
    Starts-IsOwned p id _ (start_proxy_for_cluster w multi_tenant id desired p).1 v
      (start_proxy_for_cluster-Starts w multi_tenant id desired p)
