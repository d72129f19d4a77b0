-- ===== src/Lifecycle/Marks.antt =====
-- What an attempt at the second tunnel leaves of the marks, and where the tunnel leads.
use scale_cluster_agent.Connect.{
  Connections, throttled, duplicate, begun, is_throttled, is_connected, begin, Next, stopped, again,
  on_connect, next_backoff,
}
use scale_cluster_agent.Connect.Laws.{
  SameOthers, give_up-lookup, IsWait, next_backoff-IsWait, SameOthers-on_connect,
}
use scale_cluster_agent.Lifecycle.Tunnel.{
  TunnelCalls, Attempt, skipped, refused, opened, check_tunnel, settle, start_cluster_agent_tunnel,
  TunnelRound, tunnel_loop,
}
use scale_cluster_agent.Prelude.Dict.{
  lookup, insert, lookup-insert, lookup-insert_self, lookup-erase,
}
use scale_cluster_agent.Prelude.{
  ℕ, ◌+◌, ◌≤◌, ◌≡◌, ◌⊎◌, inl, inr, refl, ap, ◌∙◌, Bool, true, false, ◌||◌, List, [], ◌∷◌, none,
  some, Text, text_eq, All, Bool-cases, if◌then◌else◌, arith,
}

-- The marks after an attempt that was noted.
abbrev pub marked : ℕ → Text → Connections → Connections
marked now name c = record c {
  last_attempt = insert name now c.last_attempt;
  active = insert name false c.active;
}

-- The three ways an attempt goes.
begin-cases :
    (now : ℕ) (name : Text) (c : Connections)
    → ((is_throttled now (lookup name c.last_attempt) ≡ true) × (begin now name c ≡ (c, throttled)))
      ⊎ ((is_throttled now (lookup name c.last_attempt) ≡ false)
          × (is_connected name c ≡ true)
          × (begin now name c
              ≡ (record c { last_attempt = insert name now c.last_attempt }, duplicate)))
      ⊎ ((is_throttled now (lookup name c.last_attempt) ≡ false)
          × (is_connected name c ≡ false)
          × (begin now name c ≡ (marked now name c, begun)))
unfolding begin
begin-cases now name c = elim (Bool-cases (is_throttled now (lookup name c.last_attempt))) [
  | inl e ↦ inl (e, rw (begin, e))
  | inr e ↦ elim (Bool-cases (is_connected name c)) [
    | inl f ↦ inr (inl (e, f, rw (begin, e, f)))
    | inr f ↦ inr (inr (e, f, rw (begin, e, f)))
  ]
]

-- What an attempt that is not skipped leaves: no mark after an error, and the mark of a tunnel that is
-- not connected yet, with the time, once its goroutine begins.
abbrev pub Leaves : ℕ → Text → Connections → Attempt → Type 0
Leaves now name c' skipped = Unit
Leaves now name c' (refused e) = lookup name c'.active ≡ none
Leaves now name c' (opened token address) =
    (lookup name c'.active ≡ some false) × (lookup name c'.last_attempt ≡ some now)

settle-Leaves :
    (now : ℕ) (name : Text) (c : Connections) (x : Attempt)
    → Leaves now name (settle name (marked now name c) x).0 (settle name (marked now name c) x).1
      × SameOthers name c (settle name (marked now name c) x).0
settle-Leaves now name c skipped = (
  tt,
  λ n d. (
    ground (arith, lookup-insert n name false c.active),
    ground (arith, lookup-insert n name now c.last_attempt),
  ),
)
settle-Leaves now name c (refused e) = (
  give_up-lookup name (marked now name c),
  λ n d. (
    ground (
      arith,
      lookup-erase n name (insert name false c.active),
      lookup-insert n name false c.active,
    ),
    ground (arith, lookup-insert n name now c.last_attempt),
  ),
)
settle-Leaves now name c (opened t a) = (
  (lookup-insert_self name false c.active, lookup-insert_self name now c.last_attempt),
  λ n d. (
    ground (arith, lookup-insert n name false c.active),
    ground (arith, lookup-insert n name now c.last_attempt),
  ),
)

-- An attempt at the second tunnel is skipped exactly if one was noted less than five seconds ago or the
-- cluster is marked as connected; otherwise its checks decide. After a refusal the cluster has no
-- mark, so that a later attempt is not taken for a duplicate; a tunnel that is opened is noted with
-- its time and marked as not connected yet; and no other cluster is concerned.
pub start_cluster_agent_tunnel-Leaves :
    (w : TunnelCalls) (now : ℕ) (name : Text) (c : Connections)
    → ((start_cluster_agent_tunnel w now name c).1 ≡ (
        if is_throttled now (lookup name c.last_attempt) || is_connected name c
        then skipped
        else check_tunnel w))
      × Leaves now name
          (start_cluster_agent_tunnel w now name c).0
          (start_cluster_agent_tunnel w now name c).1
      × SameOthers name c (start_cluster_agent_tunnel w now name c).0
unfolding start_cluster_agent_tunnel
start_cluster_agent_tunnel-Leaves w now name c = elim (begin-cases now name c) [
  | inl (t, e) ↦
      rw (start_cluster_agent_tunnel, ap (λ x. x.1) e, ap (λ x. x.0) e, t)
        (refl, tt, λ n d. (refl, refl))
  | inr (inl (t, k, e)) ↦
      rw (start_cluster_agent_tunnel, ap (λ x. x.1) e, ap (λ x. x.0) e, t, k)
        (refl, tt, λ n d. (refl, ground (arith, lookup-insert n name now c.last_attempt)))
  | inr (inr (t, k, e)) ↦
      let left = settle-Leaves now name c (check_tunnel w) in
      let out : (settle name (marked now name c) (check_tunnel w)).1 ≡ check_tunnel w =
        elim (check_tunnel w) as (λ x. (settle name (marked now name c) x).1 ≡ x) [
          | skipped ↦ refl
          | refused r ↦ refl
          | opened s a ↦ refl
        ] in
      rw (start_cluster_agent_tunnel, ap (λ x. x.1) e, ap (λ x. x.0) e, t, k) (out, left.0, left.1)
]

is_throttled-later : (now later : ℕ) → now + 5 ≤ later → is_throttled later (some now) ≡ false
unfolding is_throttled
is_throttled-later now later h = ground arith

-- An attempt that opens a tunnel, and another for the same cluster five seconds later or more, before
-- anything has changed what is marked and noted of this cluster: if the checks of the second attempt
-- pass by themselves, it opens a second tunnel, although the first is still starting.
pub start_cluster_agent_tunnel-twice :
    (w w' : TunnelCalls) (now later : ℕ) (name : Text) (c c' : Connections)
    (token address token' address' : Text)
    → now + 5 ≤ later
    → (start_cluster_agent_tunnel w now name c).1 ≡ opened token address
    → lookup name c'.active ≡ lookup name (start_cluster_agent_tunnel w now name c).0.active
    → lookup name c'.last_attempt
      ≡ lookup name (start_cluster_agent_tunnel w now name c).0.last_attempt
    → check_tunnel w' ≡ opened token' address'
    → (start_cluster_agent_tunnel w' later name c').1 ≡ opened token' address'
start_cluster_agent_tunnel-twice w w' now later name c c' token address token' address' late h same
      same' passes =
    let (first, left, others) = start_cluster_agent_tunnel-Leaves w now name c in
    let (second, left', others') = start_cluster_agent_tunnel-Leaves w' later name c' in
    let (mark, noted) = (rw h at left) in
    second
    ∙ rw (same' ∙ noted, is_throttled-later now later late, is_connected, same ∙ mark, passes) refl

-- How the goroutine comes out of some rounds: it was stopped by the shutdown, or it waits for the next
-- round; what its marks are then.
abbrev pub Runs : List TunnelRound → Text → Connections → Connections → Next → Type 0
Runs rs name c c' next =
    ((next ≡ stopped) ⊎ ((w : ℕ) × (next ≡ again w) × IsWait w × All (λ r. r.shut_down ≡ false) rs))
    × (is_connected name c ≡ true → is_connected name c' ≡ true)
    × SameOthers name c c'

on_connect-is_connected :
    (b : Bool) (name : Text) (c : Connections)
    → is_connected name c ≡ true
    → is_connected name (on_connect b name c) ≡ true
on_connect-is_connected false name c h = h
on_connect-is_connected true name c h =
    rw (is_connected, lookup-insert_self name true c.active) refl

-- From a wait of 1, 2, 4, 8, 16 or 32 seconds on: however many rounds the goroutine of the second
-- tunnel makes, it is stopped, or else none of them met the shutdown and it waits one of these times
-- for the next; a cluster that was marked as connected still is; and no other cluster is concerned.
pub tunnel_loop-Runs :
    (rs : List TunnelRound) (name : Text) (backoff : ℕ) (c : Connections)
    → IsWait backoff
    → Runs rs name c (tunnel_loop rs name backoff c).0 (tunnel_loop rs name backoff c).1
unfolding tunnel_loop
tunnel_loop-Runs [] name backoff c h = (inr (backoff, refl, h, tt), λ k. k, λ n d. (refl, refl))
tunnel_loop-Runs (r ∷ rs) name backoff c h = elim (Bool-cases r.shut_down) [
  | inl e ↦ rw (tunnel_loop, e) (inl refl, λ k. k, λ n d. (refl, refl))
  | inr e ↦
      let c' = on_connect r.connects name c in
      let (out, stays, others) =
        tunnel_loop-Runs rs name (next_backoff backoff) c' (next_backoff-IsWait backoff h) in
      let same = SameOthers-on_connect r.connects name c in
      rw (tunnel_loop, e)
        (
          elim out [ inl s ↦ inl s | inr (w, s, k, hs) ↦ inr (w, s, k, (refl, hs)) ],
          λ k. stays (on_connect-is_connected r.connects name c k),
          λ n d. ((others n d).0 ∙ (same n d).0, (others n d).1 ∙ (same n d).1),
        )
]
