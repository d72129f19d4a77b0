-- ===== src/Agent/Reconnect.antt =====
-- startWebSocketConnection and connectToRancher of main.go: which clusters a round connects.
use scale_cluster_agent.Types.{ClusterInfo}
use scale_cluster_agent.Agent.{Agent, template, info, health}
use scale_cluster_agent.Prelude.Dict.{Dict, lookup, lookup-cons, lookup-nil, NodupKeys}
use scale_cluster_agent.Prelude.Int.{ℤ, pos, negsuc, is_positive}
use scale_cluster_agent.Prelude.{
  ℕ, ◌≡◌, ◌≢◌, inl, inr, refl, sym, ◌∙◌, length, zero, suc, Bool, false, ◌||◌, not, ◌&&◌, [], ◌∷◌,
  Option, none, some, Text, text_eq, nat_eq, codes, ◌==◌, Bool-cases, Option-cases, if◌then◌else◌,
  arith,
}

-- The tests of connectToRancher
abbrev pub is_connectable : Text → ClusterInfo → Bool
is_connectable name ci = not (name == template || ci.cluster_id == []) && ci.status == codes "ready"

-- The clusters for which connectToRancher starts connectClusterToRancher, with their IDs.
unfoldable pub connectable_ids : Dict ℕ ClusterInfo → Dict Text ℕ → Dict Text Text
connectable_ids objects [] = []
connectable_ids objects ((name, p) ∷ d) =
    let rest = connectable_ids objects d in
    elim (lookup p objects) [
      | none ↦ rest
      | some ci ↦ if is_connectable name ci then (name, ci.cluster_id) ∷ rest else rest
    ]

-- A round of startWebSocketConnection
unfoldable pub connect_to_rancher : Agent → Dict Text Text
unfolding connectable_ids health
connect_to_rancher a =
    let found = connectable_ids a.objects a.clusters in if is_positive (health a) then found else []

-- What the map says of a name
abbrev pub connected_id : Dict ℕ ClusterInfo → Text → Option ℕ → Option Text
connected_id objects name none = none
connected_id objects name (some p) = elim (lookup p objects) [
  | none ↦ none
  | some ci ↦ if is_connectable name ci then some ci.cluster_id else none
]

connectable_ids-exact :
    (objects : Dict ℕ ClusterInfo) (d : Dict Text ℕ) (name : Text)
    → NodupKeys d
    → lookup name (connectable_ids objects d) ≡ connected_id objects name (lookup name d)
unfolding connectable_ids
connectable_ids-exact objects [] name h = rw (lookup-nil {V = ℕ} name) (lookup-nil {V = Text} name)
connectable_ids-exact objects ((n, p) ∷ d) name (fresh, h) =
    let ih = connectable_ids-exact objects d name h in
    let head = lookup-cons name n p d in
    elim (Option-cases (lookup p objects)) [
      | inl e ↦ rw (connectable_ids, e) (ground arith)
      | inr (ci, e) ↦
          let made = lookup-cons name n ci.cluster_id (connectable_ids objects d) in
          elim (Bool-cases (is_connectable n ci)) [
            | inl f ↦ rw (connectable_ids, e, f) (ground arith)
            | inr f ↦ rw (connectable_ids, e, f) (ground arith)
          ]
    ]

-- Where there is no other cluster than the template, there is nothing to connect.
only_template :
    (objects : Dict ℕ ClusterInfo) (d : Dict Text ℕ) (name : Text)
    → lookup template d ≢ none
    → is_positive (elim (length d) as (λ _. ℤ) [ zero ↦ negsuc 0 | suc n ↦ pos n ]) ≡ false
    → connected_id objects name (lookup name d) ≡ none
only_template objects [] name t h = absurd (t (lookup-nil {V = ℕ} template))
only_template objects ((n, p) ∷ []) name t h =
    let head = lookup-cons name n p [] in
    let end = lookup-nil {V = ℕ} name in
    let same : n ≡ template =
      let k = lookup-cons template n p [] in let k' = lookup-nil {V = ℕ} template in ground arith in
    elim (Option-cases (lookup p objects)) [ inl e ↦ ground arith | inr (ci, e) ↦ ground arith ]
only_template objects (x ∷ y ∷ d) name t h = absurd (ground arith)

-- With each name once in the map and the template in it: a round of startWebSocketConnection connects
-- exactly the clusters, other than the template, that have an ID and the status "ready", each with its
-- own ID.
pub connect_to_rancher-exact :
    (a : Agent) (name : Text)
    → NodupKeys a.clusters
    → lookup template a.clusters ≢ none
    → lookup name (connect_to_rancher a) ≡ elim (info a name) [
      | none ↦ none
      | some ci ↦ if is_connectable name ci then some ci.cluster_id else none
    ]
unfolding connect_to_rancher health
connect_to_rancher-exact a name h t =
    let e = connectable_ids-exact a.objects a.clusters name h in
    let same : connected_id a.objects name (lookup name a.clusters) ≡ elim (info a name) [
      | none ↦ none
      | some ci ↦ if is_connectable name ci then some ci.cluster_id else none
    ] =
      elim (Option-cases (lookup name a.clusters)) [ inl k ↦ rw k refl | inr (p, k) ↦ rw k refl ] in
    elim (Bool-cases (is_positive (health a))) [
      | inl f ↦ rw (connect_to_rancher, f) (e ∙ same)
      | inr f ↦
          let nothing = only_template a.objects a.clusters name t f in
          rw (connect_to_rancher, f) (lookup-nil {V = Text} name ∙ (sym nothing ∙ same))
    ]
