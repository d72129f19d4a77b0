-- ===== src/Agent/Records.antt =====
-- A specification of the agent's map: which record a name has, without pointers, store and state file,
-- and how these records change.
use scale_cluster_agent.Types.{ClusterInfo}
use scale_cluster_agent.Agent.{Agent, template, info, store, save}
use scale_cluster_agent.Agent.Separate.{
  IsSeparate, info-save, info-store, info-store_self, with_object, info-with_object,
}
use scale_cluster_agent.Population.Calls.{with_node}
use scale_cluster_agent.Prelude.Dict.{Dict, lookup, lookup-nil, lookup-cons, lookup-insert_self}
use scale_cluster_agent.Prelude.{
  ℕ, ◌≡◌, ◌≢◌, ◌⊎◌, inl, inr, sym, ap, ◌∙◌, Bool, false, [], ◌∷◌, Option, none, some, Text, text_eq,
  nat_eq, ◌==◌, Bool-cases, Option-cases, if◌then◌else◌, arith,
}

-- The record of each name
abbrev pub Records : Type 0
Records = Text → Option ClusterInfo

abbrev pub put : Text → ClusterInfo → Records → Records
put name c m n = if name == n then some c else m n

-- What may become of the records: a name that is free gets a record of this name; the record of a name
-- is replaced by another of this name, as a request does that saw the name free; names other than
-- the template lose theirs; the status in the record of such a name changes; or the template gets the
-- node that it lacks.
pub data Change : Records → Records → Type 0 where
  adds :
      (name : Text) (c : ClusterInfo) (m m' : Records)
      → m name ≡ none
      → c.name ≡ name
      → ((n : Text) → m' n ≡ put name c m n)
      → Change m m'
  replaces :
      (name : Text) (old c : ClusterInfo) (m m' : Records)
      → m name ≡ some old
      → c.name ≡ name
      → ((n : Text) → m' n ≡ put name c m n)
      → Change m m'
  removes :
      (gone : Text → Bool) (m m' : Records)
      → gone template ≡ false
      → ((n : Text) → m' n ≡ (if gone n then none else m n))
      → Change m m'
  sets :
      (name status : Text) (c : ClusterInfo) (m m' : Records)
      → name ≢ template
      → m name ≡ some c
      → ((n : Text) → m' n ≡ put name (record c { status = status }) m n)
      → Change m m'
  fills :
      (t t' : ClusterInfo) (m m' : Records)
      → m template ≡ some t
      → (t' ≡ t) ⊎ (t' ≡ with_node t t.nodes)
      → ((n : Text) → m' n ≡ put template t' m n)
      → Change m m'

-- One change, or none
abbrev pub Changes : Records → Records → Type 0
Changes m m' = ((n : Text) → m' n ≡ m n) ⊎ Change m m'

other_key :
    (p : ℕ) (all d : Dict Text ℕ) (k : Text) (q : ℕ)
    → lookup k all ≢ some p
    → ((n : Text) → lookup n d ≢ none → lookup n all ≢ some p)
    → (n : Text) → lookup n ((k, q) ∷ d) ≢ none
    → lookup n all ≢ some p
other_key p all d k q ne f n h = elim (Bool-cases (k == n)) [
  | inl e ↦ let same : k ≡ n = ground arith in rw (sym same) ne
  | inr e ↦ f n (λ g. h (lookup-cons n k q d ∙ rw e g))
]

-- The name that the map has for a pointer, if any.
found :
    (p : ℕ) (all d : Dict Text ℕ)
    → ((name : Text) × (lookup name all ≡ some p))
      ⊎ ((n : Text) → lookup n d ≢ none → lookup n all ≢ some p)
found p all [] = inr (λ n h. absurd (h (lookup-nil {V = ℕ} n)))
found p all ((k, q) ∷ d) = elim (found p all d) [
  | inl x ↦ inl x
  | inr f ↦ elim (Option-cases (lookup k all)) [
    | inl e ↦ inr (other_key p all d k q (λ h. absurd (cc (e, h))) f)
    | inr (r, e) ↦ elim (Bool-cases (r == p)) [
      | inl g ↦ inl (k, ground arith)
      | inr g ↦ inr (other_key p all d k q (ground arith) f)
    ]
  ]
]

pub found_name :
    (p : ℕ) (a : Agent)
    → ((name : Text) × (lookup name a.clusters ≡ some p))
      ⊎ ((n : Text) → lookup n a.clusters ≢ some p)
found_name p a = elim (found p a.clusters a.clusters) [
  | inl x ↦ inl x
  | inr f ↦ inr (λ n e. f n (λ h. absurd (cc (e, h))) e)
]

pub info-stored :
    (saves : Bool) (name : Text) (c : ClusterInfo) (a : Agent)
    → IsSeparate a
    → (n : Text) → info (save saves (store name c a)) n ≡ put name c (info a) n
info-stored saves name c a s n = elim (Bool-cases (name == n)) [
  | inl e ↦
      let same : name ≡ n = ground arith in
      rw e (
        info-save saves (store name c a) n
        ∙ (ap (info (store name c a)) (sym same) ∙ info-store_self name c a))
  | inr e ↦ rw e (info-save saves (store name c a) n ∙ info-store name n c a s (ground arith))
]

-- What a write to the object of a name makes of the records.
pub info-written :
    (name : Text) (p : ℕ) (c : ClusterInfo) (a : Agent)
    → IsSeparate a
    → lookup name a.clusters ≡ some p
    → (n : Text) → info (with_object p c a) n ≡ put name c (info a) n
info-written name p c a s h n = elim (Bool-cases (name == n)) [
  | inl e ↦
      let same : name ≡ n = ground arith in
      let known : lookup n a.clusters ≡ some p = rw (sym same) h in
      rw (e, info, known) (lookup-insert_self p c a.objects)
  | inr e ↦
      rw e (info-with_object p c a n (λ k. absurd (let same = s.1 name n p h k in ground arith)))
]
