-- ===== src/Agent/Listing.antt =====
-- What healthHandler and listClustersHandler agree on.
use scale_cluster_agent.Agent.{Agent, template, health, names, list_clusters_handler}
use scale_cluster_agent.Prelude.Dict.{Dict, lookup, NodupKeys, lookup-cons, lookup-nil}
use scale_cluster_agent.Prelude.Int.{pos}
use scale_cluster_agent.Prelude.{
  ℕ, ◌+◌, ◌≡◌, ◌≢◌, ◌↔◌, inl, inr, refl, sym, ==_iff, ◌∙◌, true, false, Bool-cases, Option-cases,
  [], ◌∷◌, none, some, Text, text_eq, nat_eq, ◌==◌, ◌||◌, contains, length, if◌then◌else◌, arith,
}

-- The length of a map and that of the list of the other names.
length-names :
    (d : Dict Text ℕ)
    → NodupKeys d
    → length d ≡ length (names d) + elim (lookup template d) [ none ↦ 0 | some p ↦ 1 ]
unfolding names
length-names [] h = ground (arith, lookup-nil {V = ℕ} template)
length-names ((n, p) ∷ d) h = ground (arith, length-names d h.1, lookup-cons template n p d)

-- What one more entry adds to the list of names, or does not.
names-skip :
    (d : Dict Text ℕ) (n : Text) (p : ℕ) (name : Text)
    → n ≡ template
    → (contains (names d) name ≡ true) ↔ ((name ≢ template) × (lookup name d ≢ none))
    → (contains (names d) name ≡ true)
      ↔ ((name ≢ template) × ((if n == name then some p else lookup name d) ≢ none))
names-skip d n p name e h = elim (Bool-cases (n == name)) [
  | inl f ↦
      let same : n ≡ name = (==_iff n name).0 f in
      (λ c. absurd ((h.0 c).0 (sym same ∙ e)), λ (k, l). absurd (k (sym same ∙ e)))
  | inr f ↦ rw f h
]

names-keep :
    (d : Dict Text ℕ) (n : Text) (p : ℕ) (name : Text)
    → (n == template) ≡ false
    → (contains (names d) name ≡ true) ↔ ((name ≢ template) × (lookup name d ≢ none))
    → (n == name || contains (names d) name ≡ true)
      ↔ ((name ≢ template) × ((if n == name then some p else lookup name d) ≢ none))
names-keep d n p name e h = elim (Bool-cases (n == name)) [
  | inl f ↦
      let same : n ≡ name = (==_iff n name).0 f in
      rw f (λ c. (λ t. cc ((==_iff n template).1 (same ∙ t), e), λ k. cc k), λ k. refl)
  | inr f ↦ rw f h
]

contains-names :
    (d : Dict Text ℕ) (name : Text)
    → (contains (names d) name ≡ true) ↔ ((name ≢ template) × (lookup name d ≢ none))
unfolding names lookup
contains-names [] name = (λ h. absurd (cc h), λ (h, k). absurd (k refl))
contains-names ((n, p) ∷ d) name = elim (Bool-cases (n == template)) [
  | inl e ↦ rw e (names-skip d n p name ((==_iff n template).0 e) (contains-names d name))
  | inr e ↦ rw e (names-keep d n p name e (contains-names d name))
]

health-length :
    (a : Agent)
    → NodupKeys a.clusters
    → lookup template a.clusters ≢ none
    → health a ≡ pos (length (names a.clusters))
unfolding health
health-length a h t =
    let e = length-names a.clusters h in
    elim (Option-cases (lookup template a.clusters)) [
      | inl k ↦ absurd (t k)
      | inr (p, k) ↦ let e' = rw k at e in grind arith
    ]

-- The list has exactly the names of the map but for the template, and, where the template is there
-- and each key stands once, its count is the number of clusters that the health check reports.
pub list_clusters_handler-health :
    (a : Agent)
    → NodupKeys a.clusters
    → lookup template a.clusters ≢ none
    → (health a ≡ pos (list_clusters_handler a).1)
      × ((name : Text)
          → (contains (list_clusters_handler a).0 name ≡ true)
            ↔ ((name ≢ template) × (lookup name a.clusters ≢ none)))
unfolding health list_clusters_handler
list_clusters_handler-health a h t = (health-length a h t, λ name. contains-names a.clusters name)
