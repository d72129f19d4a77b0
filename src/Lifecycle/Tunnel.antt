-- ===== src/Lifecycle/Tunnel.antt =====
-- startClusterAgentTunnel of main.go. lastCAConnectAttempt and clusterAgentSessions are maps like
-- lastConnectAttempt and activeConnections of the first connection, and its record holds them here.
use scale_cluster_agent.Connect.{
  Connections, throttled, duplicate, begun, begin, give_up, Next, stopped, again, on_connect,
  next_backoff,
}
use scale_cluster_agent.Strings.{has_prefix}
use scale_cluster_agent.Strings.Trim.{trim_space}
use scale_cluster_agent.Prelude.{
  ℕ, Bool, false, not, ◌&&◌, ◌||◌, List, [], ◌∷◌, Option, none, some, Text, text_eq, codes, ◌==◌,
  if◌then◌else◌,
}

-- What the attempt meets: config.MultiTenant, whether the KWOK cluster is found, the token of the
-- service account, the registration token, whether Rancher's URL can be read, and the address in the
-- parameters of the cluster.
pub record TunnelCalls : Type 0 where
  pub multi_tenant : Bool
  pub kwok_found : Bool
  pub account_token : Option Text
  pub rancher_token : Option Text
  pub url_ok : Bool
  pub address : Option Text

pub data TunnelError : Type 0 where
  no_kwok_cluster no_account_token empty_account_token no_rancher_token bad_url no_params :
      TunnelError

-- `skipped` is a nil error without a tunnel; `opened` has the token and the address for the goroutine.
pub data Attempt : Type 0 where
  skipped : Attempt
  refused : TunnelError → Attempt
  opened : Text → Text → Attempt

-- What is checked once the attempt is noted.
unfoldable pub check_tunnel : TunnelCalls → Attempt
unfolding trim_space
check_tunnel w =
    let opening : Text → Attempt =
      λ token. elim w.address [ none ↦ refused no_params | some a ↦ opened token a ] in
    let registered : Attempt = elim w.rancher_token [
      | none ↦ refused no_rancher_token
      | some token ↦ if w.url_ok then opening token else refused bad_url
    ] in
    let with_account : Attempt = elim w.account_token [
      | none ↦ refused no_account_token
      | some t ↦ if trim_space t == [] then refused empty_account_token else registered
    ] in
    if w.kwok_found || w.multi_tenant then with_account else refused no_kwok_cluster

-- The mark of a refused attempt is deleted.
abbrev pub settle : Text → Connections → Attempt → Connections × Attempt
settle name c (refused e) = (give_up name c, refused e)
settle name c skipped = (c, skipped)
settle name c (opened t a) = (c, opened t a)

-- startClusterAgentTunnel, up to its goroutine
unfoldable pub start_cluster_agent_tunnel :
    TunnelCalls → ℕ → Text → Connections → Connections × Attempt
unfolding begin check_tunnel
start_cluster_agent_tunnel w now name c =
    let (c', b) = begin now name c in
    elim b [
      | throttled ↦ (c', skipped)
      | duplicate ↦ (c', skipped)
      | begun ↦ settle name c' (check_tunnel w)
    ]

-- A round of the goroutine: whether the agent is being shut down when it begins, and whether the
-- client calls onConnect. An error of the client is only logged.
pub record TunnelRound : Type 0 where
  pub shut_down : Bool
  pub connects : Bool

-- The goroutine, with what its rounds meet.
unfoldable pub tunnel_loop : List TunnelRound → Text → ℕ → Connections → Connections × Next
unfolding next_backoff
tunnel_loop [] name backoff c = (c, again backoff)
tunnel_loop (r ∷ rs) name backoff c =
    let rest = tunnel_loop rs name (next_backoff backoff) (on_connect r.connects name c) in
    if r.shut_down then (c, stopped) else rest

-- allowFunc
unfoldable pub allow_tunnel : Text → Text → Text → Bool
allow_tunnel local_api proto address =
    if not (proto == codes "tcp")
    then false
    else address == local_api
      || address == codes "not-used:80"
      || address == codes "127.0.0.1:6080"
      || has_prefix address (codes "127.0.0.1:")

-- localDialer: the address that it dials
unfoldable pub local_dialer : Text → Text → Text
local_dialer network address =
    if network == codes "tcp" && address == codes "not-used:80"
    then codes "127.0.0.1:6080"
    else address
