-- ===== src/Connect/RealAgent.antt =====
-- connectClusterToRancherWithRealAgentLogic of main.go, which nothing calls: the marks of connections,
-- and the loop of its goroutine with the attempts that onConnect counts.
use scale_cluster_agent.Connect.{Connections, is_connected, give_up, on_connect, next_backoff}
use scale_cluster_agent.Prelude.Dict.{lookup, insert, lookup-erase}
use scale_cluster_agent.Prelude.{
  ℕ, suc, ◌+◌, ◌≡◌, refl, ◌∙◌, Bool, true, false, not, ◌&&◌, ◌||◌, List, [], ◌∷◌, none, Text,
  text_eq, ==_self, leb, if◌then◌else◌,
}

-- What is checked before the goroutine: the KWOK cluster, where there is one for each cluster, the
-- token, the URL, the parameters and their JSON, the cluster's data and its address.
pub record RealChecks : Type 0 where
  pub kwok_found : Bool
  pub token_ok : Bool
  pub url_ok : Bool
  pub params_ok : Bool
  pub marshal_ok : Bool
  pub data_ok : Bool
  pub address_ok : Bool

-- What becomes of the marks before the goroutine, and whether it is started.
unfoldable pub real_begin : RealChecks → Bool → Text → Connections → Connections × Bool
real_begin w multi_tenant name c =
    let marked = record c { active = insert name false c.active } in
    let ready =
      (multi_tenant || w.kwok_found)
      && w.token_ok
      && w.url_ok
      && w.params_ok
      && w.marshal_ok
      && w.data_ok
      && w.address_ok in
    if is_connected name c
    then (c, false)
    else if ready
    then (marked, true)
    else (give_up name marked, false)

-- What a round of the loop meets: whether onConnect is called, whether the client ends without an error,
-- and whether the agent is being shut down.
pub record RealRound : Type 0 where
  pub connects : Bool
  pub ends_well : Bool
  pub shut_down : Bool

pub data RealNext : Type 0 where
  failed stopped : RealNext
  -- the attempts that were counted, and the wait
  again : ℕ → ℕ → RealNext

-- One round with the attempts that were counted
unfoldable pub real_round : RealRound → Text → ℕ → ℕ → Connections → Connections × RealNext
unfolding next_backoff
real_round r name attempts backoff c =
    let c' = on_connect r.connects name c in
    let attempts' = if r.connects then attempts + 1 else attempts in
    if leb 3 attempts
    then (give_up name c, failed)
    else if not r.ends_well
    then (give_up name c', failed)
    else if r.shut_down
    then (c', stopped)
    else (c', again attempts' (next_backoff backoff))

-- The goroutine, with what its rounds meet; after the last of them it still runs.
unfoldable pub real_loop : List RealRound → Text → ℕ → ℕ → Connections → Connections × RealNext
unfolding real_round
real_loop [] name attempts backoff c = (c, again attempts backoff)
real_loop (r ∷ rs) name attempts backoff c =
    let (c', next) = real_round r name attempts backoff c in
    elim next [
      | failed ↦ (c', failed)
      | stopped ↦ (c', stopped)
      | again attempts' wait ↦ real_loop rs name attempts' wait c'
    ]

-- The session of a round that connects or does not, and ends without an error.
abbrev pub session : Bool → RealRound
session connects = record { connects = connects; ends_well = true; shut_down = false }

abbrev repeat : ℕ → List RealRound
repeat ℕ.zero = []
repeat (suc n) = session false ∷ repeat n

real_loop-idle :
    (n backoff : ℕ) (name : Text) (c : Connections)
    → (wait : ℕ) × (real_loop (repeat n) name 0 backoff c ≡ (c, again 0 wait))
unfolding real_loop
real_loop-idle ℕ.zero backoff name c = (backoff, refl)
real_loop-idle (suc n) backoff name c = real_loop-idle n (next_backoff backoff) name c

-- The limit of three attempts counts the connections that succeed: the round that follows three sessions
-- that connected and ended without an error marks the cluster as failed and ends the loop, whatever it
-- meets; and however many rounds do not connect, but end without an error, the loop goes on and no
-- attempt is counted.
pub real_loop-attempts :
    (name : Text) (c : Connections) (r : RealRound) (rs : List RealRound) (n : ℕ)
    → ((real_loop (session true ∷ session true ∷ session true ∷ r ∷ rs) name 0 1 c).1 ≡ failed)
      × (lookup name
            (real_loop (session true ∷ session true ∷ session true ∷ r ∷ rs) name 0 1 c).0.active
          ≡ none)
      × ((wait : ℕ) × (real_loop (repeat n) name 0 1 c ≡ (c, again 0 wait)))
unfolding real_loop
real_loop-attempts name c r rs n =
    (refl, lookup-erase name name _ ∙ rw (==_self name) refl, real_loop-idle n 1 name c)
