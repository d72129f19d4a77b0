-- ===== src/Import/Transform.antt =====
-- transformImportYAML: what it makes of each document. Case folding is that of ASCII letters.
use scale_cluster_agent.Strings.{to_lower}
use scale_cluster_agent.Tenant.{short_suffix, tenant_namespace, tenant_sa_name}
use scale_cluster_agent.Import.Value.{
  Value, string, object, array, Fields, no_field, field, Values, no_value, value, get, set,
  as_string, as_object, as_array, text_at,
}
use scale_cluster_agent.Prelude.{
  Bool, false, ◌||◌, List, [], ◌∷◌, ◌++◌, Option, none, some, Text, text_eq, codes, ◌==◌, contains,
  if◌then◌else◌,
}

-- suffix
abbrev pub suffix_of : Text → Text
suffix_of cluster_id = b'-' ∷ short_suffix cluster_id

-- if sub, ok := fs[key].(map[string]interface{}); ok { … }, where the body changes sub in place
unfoldable pub update : Text → (Fields → Fields) → Fields → Fields
update key f fs = elim (as_object (get key fs)) [
  | none ↦ fs
  | some sub ↦ set key (object (f sub)) fs
]

-- if s, ok := fs[key].(string); ok && s == old { fs[key] = new }
unfoldable pub replace_text : Text → Text → Text → Fields → Fields
replace_text key old new fs = elim (as_string (get key fs)) [
  | none ↦ fs
  | some s ↦ if s == old then set key (string new) fs else fs
]

abbrev pub rename_account : Text → Fields → Fields
rename_account cluster_id =
    replace_text (codes "serviceAccountName") (codes "cattle") (tenant_sa_name cluster_id)

abbrev pub cluster_label : Text → Fields → Fields
cluster_label cluster_id = set (codes "cluster-id") (string cluster_id)

-- The labels in the metadata of a pod template
unfoldable pub label_template : Text → Fields → Fields
label_template cluster_id meta = elim (as_object (get (codes "labels") meta)) [
  | none ↦ set (codes "labels") (object (cluster_label cluster_id no_field)) meta
  | some labels ↦ set (codes "labels") (object (cluster_label cluster_id labels)) meta
]

-- The spec of a Deployment or a DaemonSet
unfoldable pub rewrite_spec : Text → Fields → Fields
unfolding update replace_text label_template
rewrite_spec cluster_id spec =
    let selected =
      update (codes "selector") (update (codes "matchLabels") (cluster_label cluster_id))
        (rename_account cluster_id spec) in
    update (codes "template")
      (λ t.
        update (codes "spec") (rename_account cluster_id)
          (update (codes "metadata") (label_template cluster_id) t))
      selected

-- strings.EqualFold(fmt.Sprint(v), "ServiceAccount"); no other value prints like that
unfoldable pub is_service_account : Option Value → Bool
unfolding to_lower
is_service_account v = elim (as_string v) [
  | none ↦ false
  | some s ↦ to_lower s == codes "serviceaccount"
]

-- One subject of a binding
unfoldable pub rewrite_subject : Text → Value → Value
unfolding is_service_account replace_text
rewrite_subject cluster_id (object fs) =
    let renamed = replace_text (codes "name") (codes "cattle") (tenant_sa_name cluster_id) fs in
    if is_service_account (get (codes "kind") fs)
    then object (set (codes "namespace") (string (tenant_namespace cluster_id)) renamed)
    else object fs
rewrite_subject cluster_id v = v

abbrev pub rewrite_subjects : Text → Values → Values
rewrite_subjects cluster_id no_value = no_value
rewrite_subjects cluster_id (value v vs) =
    value (rewrite_subject cluster_id v) (rewrite_subjects cluster_id vs)

-- roleRef of a binding
unfoldable pub rewrite_role_ref : Text → Fields → Fields
rewrite_role_ref cluster_id rf = elim (as_string (get (codes "name") rf)) [
  | none ↦ rf
  | some rn ↦ set (codes "name") (string (rn ++ suffix_of cluster_id)) rf
]

-- The subjects and the roleRef of a binding
unfoldable pub rewrite_binding : Text → Fields → Fields
unfolding update rewrite_subject rewrite_role_ref
rewrite_binding cluster_id doc =
    let bound = elim (as_array (get (codes "subjects") doc)) as (λ _. Fields) [
      | none ↦ doc
      | some vs ↦ set (codes "subjects") (array (rewrite_subjects cluster_id vs)) doc
    ] in
    update (codes "roleRef") (rewrite_role_ref cluster_id) bound

abbrev pub workloads : List Text
workloads = codes "Deployment" ∷ codes "DaemonSet" ∷ []

abbrev pub bindings : List Text
bindings = codes "ClusterRoleBinding" ∷ codes "RoleBinding" ∷ []

abbrev pub suffixed : List Text
suffixed =
    codes "ClusterRole"
    ∷ codes "ClusterRoleBinding"
    ∷ codes "Role"
    ∷ codes "RoleBinding"
    ∷ codes "Service"
    ∷ codes "ConfigMap"
    ∷ codes "Secret"
    ∷ codes "Job"
    ∷ []

-- The name of an object, in the branches of the switch that change it
unfoldable pub rewrite_name : Text → Text → Fields → Fields
unfolding replace_text
rewrite_name cluster_id kind meta =
    let name = text_at (codes "name") meta in
    let with_suffix = set (codes "name") (string (name ++ suffix_of cluster_id)) meta in
    if kind == codes "Namespace"
    then replace_text (codes "name") (codes "cattle-system") (tenant_namespace cluster_id) meta
    else if kind == codes "ServiceAccount"
    then replace_text (codes "name") (codes "cattle") (tenant_sa_name cluster_id) meta
    else if contains workloads kind || contains suffixed kind
    then (if name == [] then meta else with_suffix)
    else meta

-- The rest of an object, in the same branches
unfoldable pub rewrite_body : Text → Text → Fields → Fields
unfolding rewrite_spec rewrite_binding update
rewrite_body cluster_id kind doc =
    if contains workloads kind
    then update (codes "spec") (rewrite_spec cluster_id) doc
    else if contains bindings kind
    then rewrite_binding cluster_id doc
    else doc

-- The metadata of a document, where there is some
abbrev pub metadata_of : Fields → Fields
metadata_of doc = elim (as_object (get (codes "metadata") doc)) [ none ↦ no_field | some m ↦ m ]

-- One document that is not empty
unfoldable pub transform_document : Text → Fields → Fields
unfolding replace_text rewrite_name rewrite_body
transform_document cluster_id doc =
    let kind = text_at (codes "kind") doc in
    let meta = rewrite_name cluster_id kind (
      replace_text (codes "namespace") (codes "cattle-system") (tenant_namespace cluster_id)
        (metadata_of doc)) in
    rewrite_body cluster_id kind (set (codes "metadata") (object meta) doc)

abbrev pub transform_documents : Text → List Fields → List Fields
transform_documents cluster_id [] = []
transform_documents cluster_id (no_field ∷ docs) = transform_documents cluster_id docs
transform_documents cluster_id (field k v fs ∷ docs) =
    transform_document cluster_id (field k v fs) ∷ transform_documents cluster_id docs

-- transformImportYAML: the documents that the decoder gives, and whether it comes to the end of the
-- input without an error. The result is what the encoder is given.
unfoldable pub transform_import_yaml : Text → List Fields → Bool → Option (List Fields)
unfolding transform_document
transform_import_yaml cluster_id docs ended =
    let out = transform_documents cluster_id docs in if ended then some out else none
