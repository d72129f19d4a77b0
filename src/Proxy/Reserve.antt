-- ===== src/Proxy/Reserve.antt =====
-- The reservation of ports.
use scale_cluster_agent.Prelude.Dict.{lookup-insert, lookup-erase}
use scale_cluster_agent.Proxy.{
  Proxies, is_reserved, reserve_proxy_port, release_proxy_port, reservable_loop, attempts,
  next_reservable_port,
}
use scale_cluster_agent.Prelude.{
  ℕ, zero, suc, ◌+◌, ◌<◌, ◌≡◌, ◌≢◌, inl, inr, refl, ◌∙◌, Bool, true, false, not, ◌&&◌, Option, none,
  some, nat_eq, Bool-cases, if◌then◌else◌, ◌==◌, arith,
}

-- The port is reserved, was not, and no other reservation has changed.
pub record Reserves (p : Proxies) (port : ℕ) (p' : Proxies) : Type 0 where
  pub was_free : is_reserved p port ≡ false
  pub only : (q : ℕ) → is_reserved p' q ≡ (if port == q then true else is_reserved p q)
  pub rest : p' ≡ record p { reserved = p'.reserved }

pub reserve-Reserves :
    (port : ℕ) (p : Proxies)
    → is_reserved p port ≡ false
    → Reserves p port (reserve_proxy_port port p).0
unfolding reserve_proxy_port
reserve-Reserves port p h = record {
  was_free = h;
  only = λ q. rw h (ground (arith, lookup-insert q port true p.reserved));
  rest = rw h;
}

abbrev pub available : (ℕ → Bool) → Proxies → ℕ → Bool
available free p port = free port && not (is_reserved p port)

-- None of the ports port, port + 1, … of so many rounds is free and unreserved.
abbrev pub NoneAvailable : (ℕ → Bool) → Proxies → ℕ → ℕ → Type 0
NoneAvailable free p zero port = Unit
NoneAvailable free p (suc n) port =
    (available free p port ≡ false) × NoneAvailable free p n (port + 1)

-- The port is the first available one of the rounds, and it is now reserved.
abbrev pub TakesFirst : (ℕ → Bool) → Proxies → ℕ → ℕ → Proxies → ℕ → Type 0
TakesFirst free p n port p' r =
    (k : ℕ) × (k < n)
    × (r ≡ port + k)
    × (free r ≡ true)
    × NoneAvailable free p k port
    × Reserves p r p'

abbrev pub Searched : (ℕ → Bool) → Proxies → ℕ → ℕ → Proxies → Option ℕ → Type 0
Searched free p n port p' none = (p' ≡ p) × NoneAvailable free p n port
Searched free p n port p' (some r) = TakesFirst free p n port p' r

loop-available :
    (free : ℕ → Bool) (n port : ℕ) (p : Proxies)
    → available free p port ≡ true
    → reservable_loop free (suc n) port p ≡ ((reserve_proxy_port port p).0, some port)
unfolding reservable_loop
loop-available free n port p h = ground arith

loop-taken :
    (free : ℕ → Bool) (n port : ℕ) (p : Proxies)
    → available free p port ≡ false
    → reservable_loop free (suc n) port p ≡ reservable_loop free n (port + 1) p
unfolding reservable_loop
loop-taken free n port p h = ground arith

Searched-suc :
    (free : ℕ → Bool) (p : Proxies) (n port : ℕ) (p' : Proxies) (o : Option ℕ)
    → available free p port ≡ false
    → Searched free p n (port + 1) p' o
    → Searched free p (suc n) port p' o
Searched-suc free p n port p' none taken h = (h.0, (taken, h.1))
Searched-suc free p n port p' (some r) taken (k, lt, at, is_free, before, reserved) =
    (suc k, omega arith, omega arith, is_free, (taken, before), reserved)

reservable_loop-Searched :
    (free : ℕ → Bool) (n port : ℕ) (p : Proxies)
    → Searched free p n port (reservable_loop free n port p).0 (reservable_loop free n port p).1
reservable_loop-Searched free zero port p = unfold reservable_loop in (refl, tt)
reservable_loop-Searched free (suc n) port p = elim (Bool-cases (available free p port)) [
  | inl open_port ↦
      rw (loop-available free n port p open_port)
        (0, omega arith, omega arith, ground arith, tt, reserve-Reserves port p (ground arith))
  | inr taken ↦
      rw (loop-taken free n port p taken)
        (Searched-suc free p n port _ _ taken (reservable_loop-Searched free n (port + 1) p))
]

-- nextReservablePort reserves and returns the first port from the start on that is free and not
-- reserved; only if there is none among 2000 it fails, and then it reserves nothing.
pub next_reservable_port-first :
    (free : ℕ → Bool) (start : ℕ) (p : Proxies)
    → Searched free p attempts start
        (next_reservable_port free start p).0
        (next_reservable_port free start p).1
unfolding next_reservable_port
next_reservable_port-first free start p = reservable_loop-Searched free attempts start p

reserved-reserve :
    (port : ℕ) (p : Proxies) (q : ℕ)
    → is_reserved (reserve_proxy_port port p).0 q ≡ (if port == q then true else is_reserved p q)
unfolding reserve_proxy_port
reserved-reserve port p q = ground (arith, lookup-insert q port true p.reserved)

pub reserved-release :
    (port : ℕ) (p : Proxies) (q : ℕ)
    → is_reserved (release_proxy_port port p) q ≡ (if port == q then false else is_reserved p q)
unfolding release_proxy_port
reserved-release port p q = ground (arith, lookup-erase q port p.reserved)

reserve-result : (port : ℕ) (p : Proxies) → (reserve_proxy_port port p).1 ≡ not (is_reserved p port)
unfolding reserve_proxy_port
reserve-result port p = ground arith

-- A reservation succeeds exactly if the port is not reserved. Then the port is refused until it is
-- released, and once released it can be reserved again; no other port is concerned.
pub reserve_proxy_port-exclusive :
    (port : ℕ) (p : Proxies)
    → let p' = (reserve_proxy_port port p).0 in
      ((reserve_proxy_port port p).1 ≡ not (is_reserved p port))
      × ((reserve_proxy_port port p').1 ≡ false)
      × ((reserve_proxy_port port (release_proxy_port port p')).1 ≡ true)
      × ((q : ℕ) → q ≢ port → is_reserved (release_proxy_port port p') q ≡ is_reserved p q)
reserve_proxy_port-exclusive port p =
    let p' = (reserve_proxy_port port p).0 in
    let taken : is_reserved p' port ≡ true = ground (arith, reserved-reserve port p port) in
    let freed : is_reserved (release_proxy_port port p') port ≡ false =
      ground (arith, reserved-release port p' port) in
    (
      reserve-result port p,
      reserve-result port p' ∙ rw taken,
      reserve-result port (release_proxy_port port p') ∙ rw freed,
      λ q ne. ground (arith, reserved-release port p' q, reserved-reserve port p q),
    )
