-- ===== src/Connect.antt =====
-- connectClusterToRancher of main.go: the throttle, the marks of connections, and the loop of one
-- cluster's goroutine. Times and waits are in seconds; remotedialer is an argument, by whether its
-- client calls onConnect and how it ends.
pub mod Laws
pub mod RealAgent
use scale_cluster_agent.Types.{KwokCluster}
use scale_cluster_agent.Prelude.Dict.{Dict, lookup, insert, erase}
use scale_cluster_agent.Prelude.{
  ℕ, ◌+◌, ◌-◌, ◌*◌, Bool, true, false, not, ◌&&◌, ◌||◌, List, [], ◌∷◌, Option, none, some, Text,
  text_eq, codes, ltb, ◌==◌, if◌then◌else◌,
}

-- lastConnectAttempt and activeConnections
pub record Connections : Type 0 where
  pub last_attempt : Dict Text ℕ
  pub active : Dict Text Bool

pub data Begun : Type 0 where
  throttled duplicate begun : Begun

-- time.Since(last) < 5*time.Second; a cluster without an attempt has the zero time
unfoldable pub is_throttled : ℕ → Option ℕ → Bool
is_throttled now none = false
is_throttled now (some last) = ltb (now - last) 5

abbrev pub is_connected : Text → Connections → Bool
is_connected name c = elim (lookup name c.active) [ none ↦ false | some b ↦ b ]

-- The first two critical sections.
unfoldable pub begin : ℕ → Text → Connections → Connections × Begun
unfolding is_throttled
begin now name c =
    let noted = record c { last_attempt = insert name now c.last_attempt } in
    if is_throttled now (lookup name c.last_attempt)
    then (c, throttled)
    else if is_connected name c
    then (noted, duplicate)
    else (record noted { active = insert name false c.active }, begun)

-- delete(a.activeConnections, clusterName)
abbrev pub give_up : Text → Connections → Connections
give_up name c = record c { active = erase name c.active }

-- The search for the KWOK cluster.
unfoldable pub has_kwok : Text → Dict Text KwokCluster → Bool
has_kwok cluster_id [] = false
has_kwok cluster_id ((id, c) ∷ d) =
    let rest = has_kwok cluster_id d in if c.cluster_id == cluster_id then true else rest

-- What is checked before the goroutine: the KWOK cluster, where there is one for each cluster, and the
-- URL of Rancher. Whether to go on.
unfoldable pub prepare : Bool → Bool → Bool → Text → Connections → Connections × Bool
prepare multi_tenant kwok_found url_ok name c =
    if not multi_tenant && not kwok_found
    then (give_up name c, false)
    else if not url_ok
    then (give_up name c, false)
    else (c, true)

-- What one round of the loop meets: whether the token, the parameters, their JSON, the cluster's data
-- and its address are there, whether onConnect is called and the client ends without an error, and
-- whether the agent is being shut down.
pub record Round : Type 0 where
  pub token_ok : Bool
  pub params_ok : Bool
  pub marshal_ok : Bool
  pub data_ok : Bool
  pub address_ok : Bool
  pub connects : Bool
  pub ends_well : Bool
  pub shut_down : Bool
  pub now : ℕ

pub data Next : Type 0 where
  gave_up stopped : Next
  again : ℕ → Next

-- onConnect, as far as it concerns the marks.
abbrev pub on_connect : Bool → Text → Connections → Connections
on_connect connects name c = if connects then record c { active = insert name true c.active } else c

-- backoff *= 2, below 30 seconds
unfoldable pub next_backoff : ℕ → ℕ
next_backoff backoff = if ltb backoff 30 then backoff * 2 else backoff

-- One round; `again` has the wait before the next one.
unfoldable pub connect_round : Round → Text → ℕ → Connections → Connections × Next
unfolding next_backoff
connect_round r name backoff c =
    let c' = on_connect r.connects name c in
    if not (r.token_ok && r.params_ok && r.marshal_ok && r.data_ok && r.address_ok)
    then (give_up name c, gave_up)
    else if not r.ends_well
    then (give_up name c', gave_up)
    else if r.shut_down
    then (c', stopped)
    else (
      record c' { last_attempt = insert name r.now c'.last_attempt },
      again (next_backoff backoff),
    )

-- The goroutine, with what its rounds meet; after the last of them it still runs.
unfoldable pub connect_loop : List Round → Text → ℕ → Connections → Connections × Next
connect_loop [] name backoff c = (c, again backoff)
connect_loop (r ∷ rs) name backoff c =
    let (c', next) = connect_round r name backoff c in
    elim next [
      | gave_up ↦ (c', gave_up)
      | stopped ↦ (c', stopped)
      | again wait ↦ connect_loop rs name wait c'
    ]

-- allowFunc
unfoldable pub allow_dial : Text → Text → Text → Bool
allow_dial local_api proto address =
    if not (proto == codes "tcp")
    then false
    else address == local_api || address == codes "not-used:80"
