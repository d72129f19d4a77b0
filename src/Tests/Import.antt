-- ===== src/Tests/Import.antt =====
-- Tests of the rewriting of import manifests: main.go.
use scale_cluster_agent.Import.Value.{Fields, string, object, field, no_field, get}
use scale_cluster_agent.Import.Transform.{transform_document}
use scale_cluster_agent.Import.Names.{name_of}
use scale_cluster_agent.Import.Refs.{role_ref_of, transform_document-role_ref}
use scale_cluster_agent.Prelude.{◌≡◌, refl, Text, text_eq, codes}

-- An object of a kind with a name
abbrev manifest : Text → Text → Fields → Fields
manifest kind name rest =
    field (codes "kind") (string kind)
      (field (codes "metadata") (object (field (codes "name") (string name) no_field)) rest)

abbrev role : Fields
role = manifest (codes "ClusterRole") (codes "cattle-admin") no_field

abbrev ref : Fields
ref = field (codes "name") (string (codes "cattle-admin")) no_field

abbrev binding : Fields
binding =
    manifest (codes "ClusterRoleBinding") (codes "cattle-admin-binding")
      (field (codes "roleRef") (object ref) no_field)

transform_document-role_ref_example :
    role_ref_of (transform_document (codes "c-1") binding)
    ≡ name_of (transform_document (codes "c-1") role)
unfolding get text_eq
transform_document-role_ref_example =
    transform_document-role_ref (codes "c-1") binding role ref (codes "cattle-admin") refl refl refl
      refl refl (λ h. absurd (cc h))
