-- ===== src/Connect/Laws.antt =====
-- When an attempt to connect begins, what a goroutine leaves, and how long it waits.
use scale_cluster_agent.Connect.{
  Connections, throttled, begun, is_throttled, is_connected, begin, give_up, Round, Next, gave_up,
  stopped, again, on_connect, next_backoff, connect_round, connect_loop, allow_dial,
}
use scale_cluster_agent.Prelude.Dict.{
  lookup, insert, lookup-insert, lookup-insert_self, lookup-erase,
}
use scale_cluster_agent.Prelude.{
  ℕ, ◌≡◌, ◌≢◌, ◌↔◌, ◌⊎◌, inl, inr, refl, ap, ◌∙◌, Bool, true, false, ◌&&◌, List, [], ◌∷◌, none,
  some, Text, text_eq, codes, Bool-cases, arith,
}

-- The waits between the rounds.
abbrev pub IsWait : ℕ → Type 0
IsWait w = (w ≡ 1) ⊎ (w ≡ 2) ⊎ (w ≡ 4) ⊎ (w ≡ 8) ⊎ (w ≡ 16) ⊎ (w ≡ 32)

-- How a goroutine has come out: given up, without a mark of the cluster; or stopped by the shutdown;
-- or before its next round, with one of these waits.
abbrev pub ComesOut : Text → Connections → Next → Type 0
ComesOut name c gave_up = lookup name c.active ≡ none
ComesOut name c stopped = Unit
ComesOut name c (again wait) = IsWait wait

-- The marks and the attempts of other clusters are as they were.
abbrev pub SameOthers : Text → Connections → Connections → Type 0
SameOthers name c d =
    (n : Text)
    → n ≢ name
    → (lookup n d.active ≡ lookup n c.active) × (lookup n d.last_attempt ≡ lookup n c.last_attempt)

pub next_backoff-IsWait : (w : ℕ) → IsWait w → IsWait (next_backoff w)
unfolding next_backoff
next_backoff-IsWait w h = ground arith

pub give_up-lookup : (name : Text) (c : Connections) → lookup name (give_up name c).active ≡ none
give_up-lookup name c = ground (arith, lookup-erase name name c.active)

pub SameOthers-on_connect :
    (b : Bool) (name : Text) (c : Connections) → SameOthers name c (on_connect b name c)
SameOthers-on_connect true name c n d =
    let e = lookup-insert n name true c.active in (ground arith, refl)
SameOthers-on_connect false name c n d = (refl, refl)

SameOthers-give_up :
    (b : Bool) (name : Text) (c : Connections)
    → SameOthers name c (give_up name (on_connect b name c))
SameOthers-give_up b name c n d =
    let (same, attempts) = SameOthers-on_connect b name c n d in
    let e = lookup-erase n name (on_connect b name c).active in (ground arith, attempts)

-- The marks after a round that is followed by another.
abbrev noted : Bool → ℕ → Text → Connections → Connections
noted b now name c = record (on_connect b name c) {
  last_attempt = insert name now (on_connect b name c).last_attempt;
}

SameOthers-noted :
    (b : Bool) (now : ℕ) (name : Text) (c : Connections) → SameOthers name c (noted b now name c)
SameOthers-noted b now name c n d =
    let (same, attempts) = SameOthers-on_connect b name c n d in
    let e = lookup-insert n name now (on_connect b name c).last_attempt in (same, ground arith)

-- The three ways out of a round.
connect_round-cases :
    (r : Round) (name : Text) (backoff : ℕ) (c : Connections)
    → ((b : Bool) × (connect_round r name backoff c
          ≡ (give_up name (on_connect b name c), gave_up)))
      ⊎ (connect_round r name backoff c ≡ (on_connect r.connects name c, stopped))
      ⊎ (connect_round r name backoff c
          ≡ (noted r.connects r.now name c, again (next_backoff backoff)))
unfolding connect_round
connect_round-cases r name backoff c =
    elim (Bool-cases (r.token_ok && r.params_ok && r.marshal_ok && r.data_ok && r.address_ok)) [
      | inr e ↦ inl (false, rw (connect_round, e))
      | inl e ↦ elim (Bool-cases r.ends_well) [
        | inr f ↦ inl (r.connects, rw (connect_round, e, f))
        | inl f ↦ elim (Bool-cases r.shut_down) [
          | inl g ↦ inr (inl (rw (connect_round, e, f, g)))
          | inr g ↦ inr (inr (rw (connect_round, e, f, g)))
        ]
      ]
    ]

-- However many rounds the goroutine of a cluster makes and whatever they meet, from a wait of 1,
-- 2, 4, 8, 16 or 32 seconds on: where it gives up, the mark of the cluster is gone, so that a
-- later attempt can begin; where it goes on, its next wait is again one of these; and no other
-- cluster is concerned.
pub connect_loop-ComesOut :
    (rs : List Round) (name : Text) (backoff : ℕ) (c : Connections)
    → IsWait backoff
    → ComesOut name (connect_loop rs name backoff c).0 (connect_loop rs name backoff c).1
      × SameOthers name c (connect_loop rs name backoff c).0
unfolding connect_loop
connect_loop-ComesOut [] name backoff c h = (h, λ n d. (refl, refl))
connect_loop-ComesOut (r ∷ rs) name backoff c h = elim (connect_round-cases r name backoff c) [
  | inl (b, e) ↦
      rw (connect_loop, ap (λ x. x.1) e, ap (λ x. x.0) e)
        (give_up-lookup name (on_connect b name c), SameOthers-give_up b name c)
  | inr (inl e) ↦
      rw (connect_loop, ap (λ x. x.1) e, ap (λ x. x.0) e)
        (tt, SameOthers-on_connect r.connects name c)
  | inr (inr e) ↦
      let c' = noted r.connects r.now name c in
      let (out, others) =
        connect_loop-ComesOut rs name (next_backoff backoff) c' (next_backoff-IsWait backoff h) in
      rw (connect_loop, ap (λ x. x.1) e, ap (λ x. x.0) e)
        (
          out,
          λ n d.
              let (marks, attempts) = others n d in
              let (marks', attempts') = SameOthers-noted r.connects r.now name c n d in
              (marks ∙ marks', attempts ∙ attempts'),
        )
]

-- An attempt begins exactly if none was noted less than five seconds ago and the cluster is not marked
-- as connected; it is then noted with its time and marked as not yet connected. A throttled attempt
-- changes nothing, and no attempt concerns another cluster.
pub begin-begun :
    (now : ℕ) (name : Text) (c : Connections)
    → (((begin now name c).1 ≡ begun)
        ↔ ((is_throttled now (lookup name c.last_attempt) ≡ false) × (is_connected name c ≡ false)))
      × ((begin now name c).1 ≡ begun
          → (lookup name (begin now name c).0.active ≡ some false)
            × (lookup name (begin now name c).0.last_attempt ≡ some now))
      × ((begin now name c).1 ≡ throttled → (begin now name c).0 ≡ c)
      × SameOthers name c (begin now name c).0
unfolding begin
begin-begun now name c = elim (Bool-cases (is_throttled now (lookup name c.last_attempt))) [
  | inl e ↦
      rw (begin, e)
        (
          (λ h. absurd (cc h), λ (h, k). absurd (cc h)),
          λ h. absurd (cc h),
          λ h. refl,
          λ n d. (refl, refl),
        )
  | inr e ↦ elim (Bool-cases (is_connected name c)) [
    | inl f ↦
        rw (begin, e, f)
          (
            (λ h. absurd (cc h), λ (h, k). absurd (cc k)),
            λ h. absurd (cc h),
            λ h. absurd (cc h),
            λ n d. (refl, ground (arith, lookup-insert n name now c.last_attempt)),
          )
    | inr f ↦
        rw (begin, e, f)
          (
            (λ h. (refl, refl), λ h. refl),
            λ h. (
              lookup-insert_self name false c.active,
              lookup-insert_self name now c.last_attempt,
            ),
            λ h. absurd (cc h),
            λ n d. (
              ground (arith, lookup-insert n name false c.active),
              ground (arith, lookup-insert n name now c.last_attempt),
            ),
          )
  ]
]

-- The tunnel opens connections to the cluster's own API server and to the address of Rancher's probe,
-- both by TCP only.
pub allow_dial_iff :
    (local_api proto address : Text)
    → (allow_dial local_api proto address ≡ true)
      ↔ ((proto ≡ codes "tcp") × ((address ≡ local_api) ⊎ (address ≡ codes "not-used:80")))
unfolding allow_dial
allow_dial_iff local_api proto address = ground arith
