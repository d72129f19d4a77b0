-- ===== src/Import/Fetch/Isolated.antt =====
-- What the import manifests of two tenants become in the main cluster: main.go.
use scale_cluster_agent.Types.{KwokCluster}
use scale_cluster_agent.Tenant.{short_suffix, tenant_namespace, short_suffix-Lacks}
use scale_cluster_agent.Import.Value.{
  Value, Fields, no_field, field, object, set, as_string, text_at, get-set,
}
use scale_cluster_agent.Import.Transform.{
  suffix_of, rewrite_name, replace_text, metadata_of, transform_document, transform_documents,
  transform_import_yaml,
}
use scale_cluster_agent.Import.Names.{
  kind_of, name_of, is_suffixed, metadata-transform, is_suffixed-other, suffix-injective,
  get-rewrite_body, get-replace_text, transform_document-name,
}
use scale_cluster_agent.Import.Fetch.{ApplyAnswers, apply_import_yaml, kwok_name, final_yaml}
use scale_cluster_agent.Prelude.Dict.{Dict}
use scale_cluster_agent.Prelude.{
  ◌≡◌, ◌≢◌, inl, inr, refl, ap, sym, subst, ◌∙◌, true, false, ◌&&◌, not, List, [], ◌∷◌, ◌++◌, map,
  Option, none, some, Text, text_eq, codes, ◌==◌, ==_iff, contains, Bool-cases, All, if◌then◌else◌,
  arith,
}

-- The kind and the name of each document.
abbrev pub identities : List Fields → List (Text × Text)
identities docs = map (λ d. (kind_of d, name_of d)) docs

-- The names of the suffixed kinds, where there are some.
abbrev pub taken : List (Text × Text) → List Text
taken [] = []
taken ((kind, name) ∷ ds) =
    let rest = taken ds in if is_suffixed kind && not (name == []) then name ∷ rest else rest

abbrev HasSuffix : Text → Text → Type 0
HasSuffix cluster_id name = (m : Text) × (name ≡ m ++ suffix_of cluster_id)

kind_of-transform :
    (cluster_id : Text) (doc : Fields) → kind_of (transform_document cluster_id doc) ≡ kind_of doc
unfolding transform_document text_eq
kind_of-transform cluster_id doc =
    let meta = rewrite_name cluster_id (kind_of doc) (
      replace_text (codes "namespace") (codes "cattle-system") (tenant_namespace cluster_id)
        (metadata_of doc)) in
    let d = set (codes "metadata") (object meta) doc in
    ap (λ (v : Option Value). elim (as_string v) as (λ _. Text) [ none ↦ [] | some s ↦ s ])
      (get-rewrite_body cluster_id (kind_of doc) (codes "kind") d refl refl refl
        ∙ get-set (codes "kind") (codes "metadata") (object meta) doc)

name-unnamed :
    (cluster_id kind : Text) (meta : Fields)
    → is_suffixed kind ≡ true
    → text_at (codes "name") meta ≡ []
    → text_at (codes "name") (rewrite_name cluster_id kind meta) ≡ []
unfolding rewrite_name
name-unnamed cluster_id kind meta k e =
    let one = is_suffixed-other kind (codes "Namespace") (unfold text_eq in refl) k in
    let two = is_suffixed-other kind (codes "ServiceAccount") (unfold text_eq in refl) k in
    let blank : (text_at (codes "name") meta == []) ≡ true = ground arith in
    rw (rewrite_name, one, two, k, blank) e

-- A document of a suffixed kind that has a name afterwards had one before.
named_before :
    (cluster_id : Text) (doc : Fields)
    → is_suffixed (kind_of doc) ≡ true
    → (name_of (transform_document cluster_id doc) == []) ≡ false
    → name_of doc ≢ []
unfolding text_eq
named_before cluster_id doc k named e =
    let meta =
      replace_text (codes "namespace") (codes "cattle-system") (tenant_namespace cluster_id)
        (metadata_of doc) in
    let before =
      get-replace_text (codes "name") (codes "namespace") (codes "cattle-system")
        (tenant_namespace cluster_id) (metadata_of doc) refl in
    let same : text_at (codes "name") meta ≡ [] =
      ap (λ (v : Option Value). elim (as_string v) as (λ _. Text) [ none ↦ [] | some s ↦ s ]) before
      ∙ e in
    let after =
      ap (text_at (codes "name")) (metadata-transform cluster_id doc)
      ∙ name-unnamed cluster_id (kind_of doc) meta k same in
    absurd (cc (named, (==_iff (name_of (transform_document cluster_id doc)) []).1 after))

-- What is taken of the transformed documents has the cluster's suffix.
taken-HasSuffix :
    (cluster_id : Text) (docs : List Fields)
    → All (HasSuffix cluster_id) (taken (identities (transform_documents cluster_id docs)))
taken-HasSuffix cluster_id [] = tt
taken-HasSuffix cluster_id (no_field ∷ docs) = taken-HasSuffix cluster_id docs
taken-HasSuffix cluster_id (field k v fs ∷ docs) =
    let doc = field k v fs in
    let out = transform_document cluster_id doc in
    let ih = taken-HasSuffix cluster_id docs in
    elim (Bool-cases (is_suffixed (kind_of out))) [
      | inr s ↦ rw (s, taken) ih
      | inl s ↦ elim (Bool-cases (name_of out == [])) [
        | inl n ↦ rw (s, n, taken) ih
        | inr n ↦
            let k : is_suffixed (kind_of doc) ≡ true =
              ap is_suffixed (sym (kind_of-transform cluster_id doc)) ∙ s in
            let e = transform_document-name cluster_id doc k (named_before cluster_id doc k n) in
            rw (s, n, taken) ((name_of doc, e), ih)
      ]
    ]

-- A name with one suffix is none of the names with another.
other_suffix :
    (id id' name : Text) (names : List Text)
    → short_suffix id ≢ short_suffix id'
    → HasSuffix id name
    → All (HasSuffix id') names
    → contains names name ≡ false
unfolding text_eq
other_suffix id id' name [] d h hs = refl
other_suffix id id' name (n ∷ ns) d (m, e) ((m', e'), hs) =
    let ne : n ≢ name = λ same. d (
      suffix-injective m m' (short_suffix id) (short_suffix id') (short_suffix-Lacks id)
        (short_suffix-Lacks id') (sym e ∙ (sym same ∙ e'))) in
    ground (arith, ==_iff n name, ne, other_suffix id id' name ns d (m, e) hs)

AllOther :
    (id id' : Text) (names names' : List Text)
    → short_suffix id ≢ short_suffix id'
    → All (HasSuffix id) names
    → All (HasSuffix id') names'
    → All (λ n. contains names' n ≡ false) names
AllOther id id' [] names' d h h' = tt
AllOther id id' (n ∷ ns) names' d (own, h) h' =
    (other_suffix id id' n names' d own h', AllOther id id' ns names' d h h')

-- The YAML that kubectl is given, read back
abbrev pub applied : ApplyAnswers → Option (Text × Text) → List (Text × Text)
applied w none = []
applied w (some (name, yaml)) = identities (w.decode yaml).0

applied-HasSuffix :
    (w : ApplyAnswers) (main_name id : Text) (clusters : Dict Text KwokCluster) (yaml : Text)
    → ((docs : List Fields) → identities (w.decode (w.encode docs)).0 ≡ identities docs)
    → (w.decode yaml).1 ≡ true
    → All (HasSuffix id) (taken (applied w (apply_import_yaml w true main_name id clusters yaml).0))
unfolding apply_import_yaml final_yaml transform_import_yaml kwok_name
applied-HasSuffix w main_name id clusters yaml kept ended = elim (Bool-cases (w.exists main_name)) [
  | inr e ↦ rw (e, apply_import_yaml) tt
  | inl e ↦
      let docs = (w.decode yaml).0 in
      rw (e, ended, apply_import_yaml, final_yaml, transform_import_yaml)
        (subst (λ (ds : List (Text × Text)). All (HasSuffix id) (taken ds))
          (sym (kept (transform_documents id docs))) (taken-HasSuffix id docs))
]

-- With multi-tenancy, for two clusters whose IDs differ in their short suffix and manifests that the
-- decoder can read: no object of a suffixed kind in the YAML that kubectl is given for the one has a name
-- that such an object has in the YAML for the other. The encoder is taken to keep kinds and names.
pub apply_import_yaml-isolated :
    (w : ApplyAnswers) (main_name id id' : Text) (clusters : Dict Text KwokCluster)
    (yaml yaml' : Text)
    → ((docs : List Fields) → identities (w.decode (w.encode docs)).0 ≡ identities docs)
    → short_suffix id ≢ short_suffix id'
    → (w.decode yaml).1 ≡ true
    → (w.decode yaml').1 ≡ true
    → All
        (λ n.
          contains (taken (applied w (apply_import_yaml w true main_name id' clusters yaml').0)) n
          ≡ false)
        (taken (applied w (apply_import_yaml w true main_name id clusters yaml).0))
apply_import_yaml-isolated w main_name id id' clusters yaml yaml' kept d e e' =
    AllOther id id' (taken (applied w (apply_import_yaml w true main_name id clusters yaml).0))
      (taken (applied w (apply_import_yaml w true main_name id' clusters yaml').0)) d
      (applied-HasSuffix w main_name id clusters yaml kept e)
      (applied-HasSuffix w main_name id' clusters yaml' kept e')
