-- ===== src/Agent/Separate.antt =====
-- The map of clusters and the store: each name has an object of its own.
use scale_cluster_agent.Types.{ClusterInfo}
use scale_cluster_agent.Agent.{Agent, info, save, store, set_status}
use scale_cluster_agent.Prelude.Dict.{
  lookup, insert, erase, lookup-insert, lookup-insert_self, lookup-erase,
}
use scale_cluster_agent.Prelude.{
  ℕ, ◌<◌, ◌≡◌, ◌≢◌, ◌⊎◌, inl, inr, refl, Bool, true, false, none, some, Text, text_eq, nat_eq,
  Option-cases, ◌==◌, if◌then◌else◌, arith,
}

-- A pointer of the map is to an object of the store, and no two names have the same one.
abbrev pub IsSeparate : Agent → Type 0
IsSeparate a =
    ((name : Text) (p : ℕ)
      → lookup name a.clusters ≡ some p
      → (p < a.next_object) × (lookup p a.objects ≢ none))
    × ((m n : Text) (p : ℕ) → lookup m a.clusters ≡ some p → lookup n a.clusters ≡ some p → m ≡ n)

pub save-kept :
    (b : Bool) (a : Agent)
    → ((save b a).objects ≡ a.objects)
      × ((save b a).clusters ≡ a.clusters)
      × ((save b a).next_object ≡ a.next_object)
      × ((save b a).kwok ≡ a.kwok)
unfolding save
save-kept true a = (refl, refl, refl, refl)
save-kept false a = (refl, refl, refl, refl)

pub info-save : (b : Bool) (a : Agent) (name : Text) → info (save b a) name ≡ info a name
info-save b a name = rw ((save-kept b a).0, (save-kept b a).1)

pub save-IsSeparate : (b : Bool) (a : Agent) → IsSeparate a → IsSeparate (save b a)
save-IsSeparate b a s = rw ((save-kept b a).0, (save-kept b a).1, (save-kept b a).2) s

-- What a new entry of the map makes of the pointers.
lookup-insert_cases :
    (name n : Text) (v p : ℕ) (a : Agent)
    → lookup n (insert name v a.clusters) ≡ some p
    → ((name ≡ n) × (v ≡ p)) ⊎ (lookup n a.clusters ≡ some p)
lookup-insert_cases name n v p a h =
    let h' = rw (lookup-insert n name v a.clusters) at h in ground arith

lookup-erase_before :
    (name n : Text) (p : ℕ) (a : Agent)
    → lookup n (erase name a.clusters) ≡ some p
    → lookup n a.clusters ≡ some p
lookup-erase_before name n p a h = let h' = rw (lookup-erase n name a.clusters) at h in ground arith

-- A new object is found under its name, and nothing else changes.
pub info-store_self :
    (name : Text) (c : ClusterInfo) (a : Agent) → info (store name c a) name ≡ some c
unfolding store
info-store_self name c a =
    let h = lookup-insert_self name a.next_object a.clusters in
    let h' = lookup-insert_self a.next_object c a.objects in ground arith

pub info-store :
    (name n : Text) (c : ClusterInfo) (a : Agent)
    → IsSeparate a
    → n ≢ name
    → info (store name c a) n ≡ info a n
unfolding store
info-store name n c a s d = grind (arith, lookup-insert, s.0)

pub store-IsSeparate :
    (name : Text) (c : ClusterInfo) (a : Agent) → IsSeparate a → IsSeparate (store name c a)
unfolding store
store-IsSeparate name c a s = (
  λ n p h. elim (lookup-insert_cases name n a.next_object p a h) [
    | inl (e, f) ↦ grind (arith, lookup-insert)
    | inr e ↦ let known = s.0 n p e in grind (arith, lookup-insert)
  ],
  λ m n p hm hn. elim (lookup-insert_cases name m a.next_object p a hm) [
    | inl (e, f) ↦ elim (lookup-insert_cases name n a.next_object p a hn) [
      | inl (e', f') ↦ cc (e, e')
      | inr k ↦ let known = s.0 n p k in grind arith
    ]
    | inr k ↦
        let known = s.0 m p k in
        elim (lookup-insert_cases name n a.next_object p a hn) [
          | inl (e', f') ↦ grind arith
          | inr k' ↦ s.1 m n p k k'
        ]
  ],
)

-- delete(a.clusters, name)
abbrev pub without : Text → Agent → Agent
without name a = record a { clusters = erase name a.clusters }

pub info-without :
    (name n : Text) (a : Agent) → info (without name a) n ≡ (if name == n then none else info a n)
info-without name n a = ground (arith, lookup-erase n name a.clusters)

pub without-IsSeparate : (name : Text) (a : Agent) → IsSeparate a → IsSeparate (without name a)
without-IsSeparate name a s = (
  λ n p h. s.0 n p (lookup-erase_before name n p a h),
  λ m n p hm hn. s.1 m n p (lookup-erase_before name m p a hm) (lookup-erase_before name n p a hn),
)

-- *ci = c, for the object that p points to
abbrev pub with_object : ℕ → ClusterInfo → Agent → Agent
with_object p c a = record a { objects = insert p c a.objects }

-- A change of status keeps the map, and touches one object.
pub set_status-cases :
    (p : ℕ) (status : Text) (b : Bool) (a : Agent)
    → (set_status p status b a ≡ a)
      ⊎ ((ci : ClusterInfo) × (lookup p a.objects ≡ some ci)
          × (set_status p status b a ≡ save b (with_object p (record ci { status = status }) a)))
unfolding set_status
set_status-cases p status b a = elim (Option-cases (lookup p a.objects)) [
  | inl e ↦ inl (rw (set_status, e))
  | inr (ci, e) ↦ inr (ci, e, rw (set_status, e))
]

pub with_object-IsSeparate :
    (p : ℕ) (c : ClusterInfo) (a : Agent) → IsSeparate a → IsSeparate (with_object p c a)
with_object-IsSeparate p c a s = (
  λ n q h. let known = s.0 n q h in grind (arith, lookup-insert q p c a.objects),
  λ m n q hm hn. s.1 m n q hm hn,
)

pub set_status-IsSeparate :
    (p : ℕ) (status : Text) (b : Bool) (a : Agent)
    → IsSeparate a
    → IsSeparate (set_status p status b a)
set_status-IsSeparate p status b a s = elim (set_status-cases p status b a) [
  | inl e ↦ rw e s
  | inr (ci, h, e) ↦ rw e (save-IsSeparate b _ (with_object-IsSeparate p _ a s))
]

pub info-with_object :
    (p : ℕ) (c : ClusterInfo) (a : Agent) (name : Text)
    → lookup name a.clusters ≢ some p
    → info (with_object p c a) name ≡ info a name
info-with_object p c a name d = grind (arith, lookup-insert)

pub info-set_status :
    (p : ℕ) (status : Text) (b : Bool) (a : Agent) (name : Text)
    → lookup name a.clusters ≢ some p
    → info (set_status p status b a) name ≡ info a name
info-set_status p status b a name d = elim (set_status-cases p status b a) [
  | inl e ↦ rw e refl
  | inr (ci, h, e) ↦
      rw (e, info-save b (with_object p (record ci { status = status }) a) name)
        (info-with_object p _ a name d)
]

-- The map itself stays.
pub set_status-clusters :
    (p : ℕ) (status : Text) (b : Bool) (a : Agent) → (set_status p status b a).clusters ≡ a.clusters
set_status-clusters p status b a = elim (set_status-cases p status b a) [
  | inl e ↦ rw e refl
  | inr (ci, h, e) ↦ rw e (save-kept b _).1
]
