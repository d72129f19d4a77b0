-- ===== src/Import/Refs.antt =====
-- The roles that the bindings of a tenant's manifest refer to.
use scale_cluster_agent.Import.Names.{kind_of, name_of, is_suffixed, transform_document-name}
use scale_cluster_agent.Tenant.{tenant_namespace}
use scale_cluster_agent.Import.Value.{
  string, object, array, Fields, get, set, as_string, as_object, as_array, text_at, get-set,
}
use scale_cluster_agent.Import.Transform.{
  suffix_of, update, replace_text, rewrite_subjects, rewrite_role_ref, rewrite_binding, workloads,
  bindings, rewrite_name, rewrite_body, metadata_of, transform_document,
}
use scale_cluster_agent.Prelude.{
  ◌≡◌, ◌≢◌, refl, sym, ap, ◌∙◌, inl, inr, true, false, [], ◌++◌, none, some, Text, text_eq, nat_eq,
  codes, ◌==◌, contains, length, length-append, Option-cases, arith,
}

-- The name in the roleRef of a binding
abbrev pub role_ref_of : Fields → Text
role_ref_of doc = elim (as_object (get (codes "roleRef") doc)) [
  | none ↦ []
  | some rf ↦ text_at (codes "name") rf
]

get-update_self :
    (key : Text) (f : Fields → Fields) (fs sub : Fields)
    → as_object (get key fs) ≡ some sub
    → get key (update key f fs) ≡ some (object (f sub))
unfolding update
get-update_self key f fs sub h =
    let same : (key == key) ≡ true = ground arith in
    rw (update, h) (get-set key key (object (f sub)) fs ∙ rw same refl)

role_ref-rewrite_binding :
    (cluster_id : Text) (doc rf : Fields)
    → as_object (get (codes "roleRef") doc) ≡ some rf
    → get (codes "roleRef") (rewrite_binding cluster_id doc)
      ≡ some (object (rewrite_role_ref cluster_id rf))
unfolding rewrite_binding
role_ref-rewrite_binding cluster_id doc rf h =
    elim (Option-cases (as_array (get (codes "subjects") doc))) [
      | inl e ↦
          rw (rewrite_binding, e)
            (get-update_self (codes "roleRef") (rewrite_role_ref cluster_id) doc rf h)
      | inr (vs, e) ↦
          let v = array (rewrite_subjects cluster_id vs) in
          let kept : get (codes "roleRef") (set (codes "subjects") v doc)
              ≡ get (codes "roleRef") doc =
            get-set (codes "roleRef") (codes "subjects") v doc ∙ unfold text_eq in refl in
          rw (rewrite_binding, e)
            (get-update_self (codes "roleRef") (rewrite_role_ref cluster_id) _ rf
              (ap as_object kept ∙ h))
    ]

no_workload : (kind : Text) → contains bindings kind ≡ true → contains workloads kind ≡ false
no_workload kind h = ground arith

role_ref-transform :
    (cluster_id : Text) (binding rf : Fields) (rn : Text)
    → contains bindings (kind_of binding) ≡ true
    → as_object (get (codes "roleRef") binding) ≡ some rf
    → as_string (get (codes "name") rf) ≡ some rn
    → role_ref_of (transform_document cluster_id binding) ≡ rn ++ suffix_of cluster_id
unfolding transform_document rewrite_body rewrite_role_ref
role_ref-transform cluster_id binding rf rn b h g =
    let meta = rewrite_name cluster_id (kind_of binding) (
      replace_text (codes "namespace") (codes "cattle-system") (tenant_namespace cluster_id)
        (metadata_of binding)) in
    let doc = set (codes "metadata") (object meta) binding in
    let kept : get (codes "roleRef") doc ≡ get (codes "roleRef") binding =
      get-set (codes "roleRef") (codes "metadata") (object meta) binding ∙ unfold text_eq in refl in
    let ref = role_ref-rewrite_binding cluster_id doc rf (ap as_object kept ∙ h) in
    let body : rewrite_body cluster_id (kind_of binding) doc ≡ rewrite_binding cluster_id doc =
      rw (rewrite_body, no_workload (kind_of binding) b, b) refl in
    let named = get-set (codes "name") (codes "name") (string (rn ++ suffix_of cluster_id)) rf in
    let same : (codes "name" == codes "name") ≡ true = unfold text_eq in refl in
    rw (role_ref_of, transform_document, body, ref, rewrite_role_ref, g, text_at, named, same) refl

-- Where a binding refers to a role of the manifest, of one of the suffixed kinds and by its name, the
-- rewritten binding refers to the rewritten role.
pub transform_document-role_ref :
    (cluster_id : Text) (binding role rf : Fields) (rn : Text)
    → contains bindings (kind_of binding) ≡ true
    → as_object (get (codes "roleRef") binding) ≡ some rf
    → as_string (get (codes "name") rf) ≡ some rn
    → is_suffixed (kind_of role) ≡ true
    → name_of role ≡ rn
    → rn ≢ []
    → role_ref_of (transform_document cluster_id binding)
      ≡ name_of (transform_document cluster_id role)
transform_document-role_ref cluster_id binding role rf rn b h g k same ne =
    role_ref-transform cluster_id binding rf rn b h g
    ∙ (ap (λ (s : Text). s ++ suffix_of cluster_id) (sym same)
        ∙ sym (transform_document-name cluster_id role k (λ e. ne (sym same ∙ e))))

-- A binding whose roleRef has a name does not keep it, whether or not the manifest has a role of this
-- name.
pub transform_document-dangling :
    (cluster_id : Text) (binding rf : Fields) (rn : Text)
    → contains bindings (kind_of binding) ≡ true
    → as_object (get (codes "roleRef") binding) ≡ some rf
    → as_string (get (codes "name") rf) ≡ some rn
    → role_ref_of (transform_document cluster_id binding) ≢ rn
transform_document-dangling cluster_id binding rf rn b h g e =
    let longer : rn ++ suffix_of cluster_id ≡ rn =
      sym (role_ref-transform cluster_id binding rf rn b h g) ∙ e in
    absurd (omega (arith, length-append rn (suffix_of cluster_id), ap length longer))
