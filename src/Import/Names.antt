-- ===== src/Import/Names.antt =====
-- The names of the objects that the import manifests of tenants have in the main cluster.
use scale_cluster_agent.Strings.{last_index}
use scale_cluster_agent.Strings.Parts.{last_index-append, drop-suc-length}
use scale_cluster_agent.Tenant.{short_suffix, tenant_namespace, short_suffix-Lacks}
use scale_cluster_agent.Import.Value.{
  string, object, Fields, get, set, as_string, as_object, as_array, text_at, get-set,
}
use scale_cluster_agent.Import.Transform.{
  suffix_of, update, replace_text, rewrite_spec, rewrite_role_ref, rewrite_binding, workloads,
  bindings, suffixed, rewrite_name, rewrite_body, metadata_of, transform_document,
}
use scale_cluster_agent.Prelude.{
  ℕ, suc, ◌≡◌, ◌≢◌, refl, sym, ap, ◌∙◌, inl, inr, Bool, true, false, ◌||◌, [], ◌∷◌, ◌++◌, none,
  some, Text, text_eq, nat_eq, codes, ◌==◌, contains, drop, length, Lacks, Bool-cases, Option-cases,
  arith,
}

abbrev pub kind_of : Fields → Text
kind_of doc = text_at (codes "kind") doc

abbrev pub name_of : Fields → Text
name_of doc = text_at (codes "name") (metadata_of doc)

-- The kinds whose names get the cluster's suffix
abbrev pub is_suffixed : Text → Bool
is_suffixed kind = contains workloads kind || contains suffixed kind

pub get-update :
    (key other : Text) (f : Fields → Fields) (fs : Fields)
    → (other == key) ≡ false
    → get key (update other f fs) ≡ get key fs
unfolding update
get-update key other f fs d = elim (Option-cases (as_object (get other fs))) [
  | inl e ↦ rw (update, e) refl
  | inr (sub, e) ↦ rw (update, e) (get-set key other _ fs ∙ rw d refl)
]

pub get-replace_text :
    (key other old new : Text) (fs : Fields)
    → (other == key) ≡ false
    → get key (replace_text other old new fs) ≡ get key fs
unfolding replace_text
get-replace_text key other old new fs d = elim (Option-cases (as_string (get other fs))) [
  | inl e ↦ rw (replace_text, e) refl
  | inr (s, e) ↦ elim (Bool-cases (s == old)) [
    | inl f ↦ rw (replace_text, e, f) (get-set key other _ fs ∙ rw d refl)
    | inr f ↦ rw (replace_text, e, f) refl
  ]
]

-- A key that the branches of the switch leave alone.
pub get-rewrite_body :
    (cluster_id kind key : Text) (doc : Fields)
    → (codes "spec" == key) ≡ false
    → (codes "subjects" == key) ≡ false
    → (codes "roleRef" == key) ≡ false
    → get key (rewrite_body cluster_id kind doc) ≡ get key doc
unfolding rewrite_body rewrite_binding
get-rewrite_body cluster_id kind key doc d d' d'' = elim (Bool-cases (contains workloads kind)) [
  | inl e ↦ rw (rewrite_body, e) (get-update key (codes "spec") (rewrite_spec cluster_id) doc d)
  | inr e ↦ elim (Bool-cases (contains bindings kind)) [
    | inr f ↦ rw (rewrite_body, e, f) refl
    | inl f ↦ elim (Option-cases (as_array (get (codes "subjects") doc))) [
      | inl g ↦
          rw (rewrite_body, e, f, rewrite_binding, g)
            (get-update key (codes "roleRef") (rewrite_role_ref cluster_id) doc d'')
      | inr (vs, g) ↦
          rw (rewrite_body, e, f, rewrite_binding, g)
            (get-update key (codes "roleRef") (rewrite_role_ref cluster_id) _ d''
              ∙ (get-set key (codes "subjects") _ doc ∙ rw d' refl))
    ]
  ]
]

pub is_suffixed-other :
    (kind other : Text)
    → is_suffixed other ≡ false
    → is_suffixed kind ≡ true
    → (kind == other) ≡ false
is_suffixed-other kind other h k = elim (Bool-cases (kind == other)) [
  | inr e ↦ e
  | inl e ↦
      let same : kind ≡ other = ground arith in
      let k' : is_suffixed other ≡ true = rw (sym same) k in absurd (cc (h, k'))
]

-- The metadata of a document after the switch
pub metadata-transform :
    (cluster_id : Text) (doc : Fields)
    → metadata_of (transform_document cluster_id doc)
      ≡ rewrite_name cluster_id (kind_of doc) (
          replace_text
            (codes "namespace")
            (codes "cattle-system")
            (tenant_namespace cluster_id)
            (metadata_of doc))
unfolding transform_document text_eq
metadata-transform cluster_id doc =
    let meta = rewrite_name cluster_id (kind_of doc) (
      replace_text (codes "namespace") (codes "cattle-system") (tenant_namespace cluster_id)
        (metadata_of doc)) in
    let d = set (codes "metadata") (object meta) doc in
    let kept = get-rewrite_body cluster_id (kind_of doc) (codes "metadata") d refl refl refl in
    let put = get-set (codes "metadata") (codes "metadata") (object meta) doc in
    rw (metadata_of, kept, put) refl

pub name-rewrite_name :
    (cluster_id kind : Text) (meta : Fields)
    → is_suffixed kind ≡ true
    → text_at (codes "name") meta ≢ []
    → text_at (codes "name") (rewrite_name cluster_id kind meta)
      ≡ text_at (codes "name") meta ++ suffix_of cluster_id
unfolding rewrite_name
name-rewrite_name cluster_id kind meta k ne =
    let one = is_suffixed-other kind (codes "Namespace") (unfold text_eq in refl) k in
    let two = is_suffixed-other kind (codes "ServiceAccount") (unfold text_eq in refl) k in
    let some_name : (text_at (codes "name") meta == []) ≡ false = ground arith in
    let put =
      get-set (codes "name") (codes "name")
        (string (text_at (codes "name") meta ++ suffix_of cluster_id)) meta in
    let same : (codes "name" == codes "name") ≡ true = unfold text_eq in refl in
    rw (rewrite_name, one, two, k, some_name, text_at, put, same) refl

-- An object of one of the suffixed kinds that has a name gets the name with its cluster's suffix.
pub transform_document-name :
    (cluster_id : Text) (doc : Fields)
    → is_suffixed (kind_of doc) ≡ true
    → name_of doc ≢ []
    → name_of (transform_document cluster_id doc) ≡ name_of doc ++ suffix_of cluster_id
transform_document-name cluster_id doc k ne =
    let before =
      get-replace_text (codes "name") (codes "namespace") (codes "cattle-system")
        (tenant_namespace cluster_id) (metadata_of doc) (unfold text_eq in refl) in
    let meta =
      replace_text (codes "namespace") (codes "cattle-system") (tenant_namespace cluster_id)
        (metadata_of doc) in
    let same : text_at (codes "name") meta ≡ name_of doc =
      ap (λ v. elim (as_string v) as (λ _. Text) [ none ↦ [] | some s ↦ s ]) before in
    ap (text_at (codes "name")) (metadata-transform cluster_id doc)
    ∙ name-rewrite_name cluster_id (kind_of doc) meta k (λ h. ne (sym same ∙ h))
    ∙ ap (λ (s : Text). s ++ suffix_of cluster_id) same

-- The suffix of a name can be read back.
pub suffix-injective :
    (m n s t : Text) → Lacks b'-' s → Lacks b'-' t → m ++ (b'-' ∷ s) ≡ n ++ (b'-' ∷ t) → s ≡ t
suffix-injective m n s t hs ht h =
    let here = last_index-append b'-' m s hs in
    let there = last_index-append b'-' n t ht in
    let same : length m ≡ length n = cc (here, there, ap (λ u. last_index u b'-') h) in
    sym (drop-suc-length m b'-' s)
    ∙ ap (drop (suc (length m))) h
    ∙ (ap (λ (i : ℕ). drop (suc i) (n ++ (b'-' ∷ t))) same ∙ drop-suc-length n b'-' t)

-- Objects of the suffixed kinds, with names, from the manifests of two clusters whose IDs differ in
-- their short suffix have different names in the main cluster, whatever names they had.
pub transform_document-isolated :
    (id id' : Text) (doc doc' : Fields)
    → short_suffix id ≢ short_suffix id'
    → is_suffixed (kind_of doc) ≡ true
    → is_suffixed (kind_of doc') ≡ true
    → name_of doc ≢ []
    → name_of doc' ≢ []
    → name_of (transform_document id doc) ≢ name_of (transform_document id' doc')
transform_document-isolated id id' doc doc' d k k' ne ne' h = d (
    suffix-injective (name_of doc) (name_of doc') (short_suffix id) (short_suffix id')
      (short_suffix-Lacks id) (short_suffix-Lacks id')
      (sym (transform_document-name id doc k ne) ∙ (h ∙ transform_document-name id' doc' k' ne')))
