-- ===== src/Agent/Handlers.antt =====
-- The HTTP handlers: what each answer has done to the map.
use scale_cluster_agent.Types.{ClusterInfo}
use scale_cluster_agent.Agent.{
  Agent, template, info, snapshot, save, store, create_cluster_from_template, CreateResponse,
  invalid_body, name_required, conflict, rancher_failed, created, create_between,
  create_cluster_handler, delete_cluster_from_rancher, DeleteResponse, invalid_name,
  unknown_cluster, delete_failed, deleted, delete_between, delete_cluster_handler,
}
use scale_cluster_agent.Agent.Separate.{
  IsSeparate, info-save, info-store, info-store_self, without, info-without, save-kept,
}
use scale_cluster_agent.Prelude.Dict.{Dict, lookup, lookup-erase}
use scale_cluster_agent.Prelude.{
  ℕ, ◌≡◌, ◌≢◌, ◌⊎◌, inl, inr, refl, ◌∙◌, Bool, true, false, Bool-cases, Option-cases, [], ◌∷◌,
  Option, none, some, Text, text_eq, nat_eq, ◌==◌, ◌||◌, arith,
}

-- What the state file holds of a name, after a save that succeeds.
lookup-snapshot :
    (objects : Dict ℕ ClusterInfo) (d : Dict Text ℕ) (name : Text)
    → lookup name (snapshot objects d)
      ≡ elim (lookup name d) [ none ↦ none | some p ↦ some (lookup p objects) ]
unfolding snapshot lookup
lookup-snapshot objects [] name = refl
lookup-snapshot objects ((n, p) ∷ d) name = ground (arith, lookup-snapshot objects d name)

pub saved-save :
    (a : Agent) (name : Text) (c : ClusterInfo)
    → info a name ≡ some c
    → lookup name (save true a).saved ≡ some (some c)
unfolding save
saved-save a name c h = grind (arith, lookup-snapshot a.objects a.clusters name)

-- What an answer of the handler that creates says: a cluster of the template with this name and ID,
-- in the map where there was none, with all others as they were, and in the state file if that could
-- be written; or no change.
abbrev pub Creates :
    (ClusterInfo → ClusterInfo)
    → Option Text
    → Option Text
    → Bool
    → Agent
    → Agent
    → CreateResponse
    → Type 0
Creates copy body registered saves a b invalid_body = (b ≡ a) × (body ≡ none)
Creates copy body registered saves a b name_required = (b ≡ a) × (body ≡ some [])
Creates copy body registered saves a b conflict =
    (b ≡ a) × (name : Text) × (body ≡ some name) × (lookup name a.clusters ≢ none)
Creates copy body registered saves a b rancher_failed = (b ≡ a) × (registered ≡ none)
Creates copy body registered saves a b (created id) =
    (name : Text) × (body ≡ some name)
    × (name ≢ [])
    × (registered ≡ some id)
    × (lookup name a.clusters ≡ none)
    × (info b name
        ≡ some (record (create_cluster_from_template copy a name) { cluster_id = id; name = name }))
    × ((n : Text) → n ≢ name → info b n ≡ info a n)
    × (saves ≡ true → lookup name b.saved ≡ some (info b name))

-- The last part of a creation.
created-saved :
    (saves : Bool) (a : Agent) (name : Text) (c : ClusterInfo)
    → saves ≡ true
    → lookup name (save saves (store name c a)).saved
      ≡ some (info (save saves (store name c a)) name)
created-saved saves a name c h =
    rw (h, info-save true (store name c a) name, info-store_self name c a)
      (saved-save (store name c a) name c (info-store_self name c a))

module _ (copy : ClusterInfo → ClusterInfo) (x : ℕ) (xs : Text) (saves : Bool)
    (a after : Agent) where
  handler-conflict :
      (registered : Option Text) (p : ℕ)
      → lookup (x ∷ xs) a.clusters ≡ some p
      → create_between copy (some (x ∷ xs)) registered saves a after ≡ (after, conflict)
  unfolding create_between
  handler-conflict registered p e = rw (e, create_between)

  handler-refused :
      lookup (x ∷ xs) a.clusters ≡ none
      → create_between copy (some (x ∷ xs)) none saves a after ≡ (after, rancher_failed)
  unfolding create_between
  handler-refused e = rw (e, create_between)

  -- The object that a creation stores.
  abbrev stored : Text → ClusterInfo
  stored id = record (create_cluster_from_template copy a (x ∷ xs)) {
    cluster_id = id;
    name = x ∷ xs;
  }

  handler-created :
      (id : Text)
      → lookup (x ∷ xs) a.clusters ≡ none
      → create_between copy (some (x ∷ xs)) (some id) saves a after
        ≡ (save saves (store (x ∷ xs) (stored id) after), created id)
  unfolding create_between
  handler-created id e = rw (e, create_between)

-- A creation changes nothing, or stores an object under a name that was free.
pub create_between-cases :
    (copy : ClusterInfo → ClusterInfo) (body registered : Option Text) (saves : Bool)
    (a after : Agent)
    → ((create_between copy body registered saves a after).0 ≡ after)
      ⊎ ((name : Text) × (c : ClusterInfo) × (lookup name a.clusters ≡ none)
          × (c.name ≡ name)
          × ((create_between copy body registered saves a after).0
              ≡ save saves (store name c after)))
unfolding create_between
create_between-cases copy none registered saves a after = inl refl
create_between-cases copy (some []) registered saves a after = inl refl
create_between-cases copy (some (x ∷ xs)) none saves a after =
    elim (Option-cases (lookup (x ∷ xs) a.clusters)) [
      | inr (p, e) ↦ inl (rw (handler-conflict copy x xs saves a after none p e) refl)
      | inl e ↦ inl (rw (handler-refused copy x xs saves a after e) refl)
    ]
create_between-cases copy (some (x ∷ xs)) (some id) saves a after =
    elim (Option-cases (lookup (x ∷ xs) a.clusters)) [
      | inr (p, e) ↦ inl (rw (handler-conflict copy x xs saves a after (some id) p e) refl)
      | inl e ↦ inr (
        x ∷ xs,
        stored copy x xs saves a after id,
        e,
        refl,
        rw (handler-created copy x xs saves a after id e) refl,
      )
    ]

-- What "created" has stored, whatever else happened during the call of Rancher.
pub create_between-stored :
    (copy : ClusterInfo → ClusterInfo) (name id : Text) (registered : Option Text) (saves : Bool)
    (a after : Agent)
    → (create_between copy (some name) registered saves a after).1 ≡ created id
    → info (create_between copy (some name) registered saves a after).0 name
      ≡ some (record (create_cluster_from_template copy a name) { cluster_id = id; name = name })
unfolding create_between
create_between-stored copy [] id registered saves a after h = cc h
create_between-stored copy (x ∷ xs) id none saves a after h =
    elim (Option-cases (lookup (x ∷ xs) a.clusters)) [
      | inr (p, e) ↦ cc (rw (handler-conflict copy x xs saves a after none p e) at h)
      | inl e ↦ cc (rw (handler-refused copy x xs saves a after e) at h)
    ]
create_between-stored copy (x ∷ xs) id (some id') saves a after h =
    elim (Option-cases (lookup (x ∷ xs) a.clusters)) [
      | inr (p, e) ↦ cc (rw (handler-conflict copy x xs saves a after (some id') p e) at h)
      | inl e ↦
          let same : id' ≡ id = cc (rw (handler-created copy x xs saves a after id' e) at h) in
          let c = stored copy x xs saves a after id' in
          rw (handler-created copy x xs saves a after id' e) (
            info-save saves (store (x ∷ xs) c after) (x ∷ xs)
            ∙ (info-store_self (x ∷ xs) c after ∙ rw same refl))
    ]

pub create_cluster_handler-cases :
    (copy : ClusterInfo → ClusterInfo) (body registered : Option Text) (saves : Bool) (a : Agent)
    → ((create_cluster_handler copy body registered saves a).0 ≡ a)
      ⊎ ((name : Text) × (c : ClusterInfo) × (lookup name a.clusters ≡ none)
          × (c.name ≡ name)
          × ((create_cluster_handler copy body registered saves a).0 ≡ save saves (store name c a)))
unfolding create_cluster_handler
create_cluster_handler-cases copy body registered saves a =
    create_between-cases copy body registered saves a a

-- Whatever the request and the answer of Rancher, in an agent whose clusters have objects of their
-- own: a cluster is created as the template says, under a name that is not empty and was free, and no
-- other cluster is changed; every refusal changes nothing and has its reason.
pub create_cluster_handler-Creates :
    (copy : ClusterInfo → ClusterInfo) (body registered : Option Text) (saves : Bool) (a : Agent)
    → IsSeparate a
    → Creates copy body registered saves a
        (create_cluster_handler copy body registered saves a).0
        (create_cluster_handler copy body registered saves a).1
unfolding create_cluster_handler create_between
create_cluster_handler-Creates copy none registered saves a s = (refl, refl)
create_cluster_handler-Creates copy (some []) registered saves a s = (refl, refl)
create_cluster_handler-Creates copy (some (x ∷ xs)) none saves a s =
    elim (Option-cases (lookup (x ∷ xs) a.clusters)) [
      | inr (p, e) ↦
          rw (handler-conflict copy x xs saves a a none p e) (refl, x ∷ xs, refl, λ h. cc (h, e))
      | inl e ↦ rw (handler-refused copy x xs saves a a e) (refl, refl)
    ]
create_cluster_handler-Creates copy (some (x ∷ xs)) (some id) saves a s =
    let name = x ∷ xs in
    let c = stored copy x xs saves a a id in
    elim (Option-cases (lookup name a.clusters)) [
      | inr (p, e) ↦
          rw (handler-conflict copy x xs saves a a (some id) p e) (refl, name, refl, λ h. cc (h, e))
      | inl e ↦ rw (handler-created copy x xs saves a a id e) (
        name,
        refl,
        λ h. ground arith,
        refl,
        e,
        info-save saves (store name c a) name ∙ info-store_self name c a,
        λ n d. info-save saves (store name c a) n ∙ info-store name n c a s d,
        created-saved saves a name c,
      )
    ]

-- What an answer of the handler that deletes says: the cluster is gone and no other is touched, or
-- no change, with the reason.
abbrev pub Deletes : Text → Bool → Agent → Agent → DeleteResponse → Type 0
Deletes name answer a b invalid_name = (b ≡ a) × ((name ≡ []) ⊎ (name ≡ template))
Deletes name answer a b unknown_cluster = (b ≡ a) × (lookup name a.clusters ≡ none)
Deletes name answer a b delete_failed =
    (b ≡ a) × (delete_cluster_from_rancher a name answer ≡ false)
Deletes name answer a b deleted =
    (name ≢ template)
    × (delete_cluster_from_rancher a name answer ≡ true)
    × (lookup name b.clusters ≡ none)
    × ((n : Text) → n ≢ name → info b n ≡ info a n)

deleted-gone :
    (name : Text) (saves : Bool) (a : Agent)
    → lookup name (save saves (without name a)).clusters ≡ none
deleted-gone name saves a =
    rw (save-kept saves (without name a)).1 (ground (arith, lookup-erase name name a.clusters))

deleted-others :
    (name : Text) (saves : Bool) (a : Agent) (n : Text)
    → n ≢ name
    → info (save saves (without name a)) n ≡ info a n
deleted-others name saves a n d =
    rw (info-save saves (without name a) n) (ground (arith, info-without name n a))

-- A deletion takes out exactly the cluster that it names, which is not the template and which Rancher
-- has deleted; every refusal changes nothing and has its reason.
pub delete_cluster_handler-Deletes :
    (name : Text) (answer saves : Bool) (a : Agent)
    → Deletes name answer a
        (delete_cluster_handler name answer saves a).0
        (delete_cluster_handler name answer saves a).1
unfolding delete_cluster_handler delete_between
delete_cluster_handler-Deletes name answer saves a =
    elim (Bool-cases (name == [] || name == template)) [
      | inl e ↦ rw (e, delete_cluster_handler, delete_between) (refl, ground arith)
      | inr e ↦ elim (Option-cases (lookup name a.clusters)) [
        | inl u ↦ rw (e, u, delete_cluster_handler, delete_between) (refl, u)
        | inr (p, u) ↦ elim (Bool-cases (delete_cluster_from_rancher a name answer)) [
          | inl g ↦
              rw (e, u, g, delete_cluster_handler, delete_between)
                (ground arith, g, deleted-gone name saves a, deleted-others name saves a)
          | inr g ↦ rw (e, u, g, delete_cluster_handler, delete_between) (refl, g)
        ]
      ]
    ]

-- A deletion changes nothing, or takes out a name that is not the template.
pub delete_between-cases :
    (name : Text) (answer saves : Bool) (a after : Agent)
    → ((delete_between name answer saves a after).0 ≡ after)
      ⊎ ((name ≢ template)
          × ((delete_between name answer saves a after).0 ≡ save saves (without name after)))
unfolding delete_between
delete_between-cases name answer saves a after =
    elim (Bool-cases (name == [] || name == template)) [
      | inl e ↦ inl (rw (e, delete_between))
      | inr e ↦ elim (Option-cases (lookup name a.clusters)) [
        | inl u ↦ inl (rw (e, u, delete_between))
        | inr (p, u) ↦ elim (Bool-cases (delete_cluster_from_rancher a name answer)) [
          | inl g ↦ inr (ground arith, rw (e, u, g, delete_between))
          | inr g ↦ inl (rw (e, u, g, delete_between))
        ]
      ]
    ]

pub delete_cluster_handler-cases :
    (name : Text) (answer saves : Bool) (a : Agent)
    → ((delete_cluster_handler name answer saves a).0 ≡ a)
      ⊎ ((name ≢ template)
          × ((delete_cluster_handler name answer saves a).0 ≡ save saves (without name a)))
unfolding delete_cluster_handler
delete_cluster_handler-cases name answer saves a = delete_between-cases name answer saves a a
