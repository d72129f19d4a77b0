-- ===== src/Population/Tenant.antt =====
-- The population of a tenant keeps to the tenant, and what it does to the template.
use scale_cluster_agent.Types.{ClusterInfo, NodeInfo, SecretInfo}
use scale_cluster_agent.Population.Calls.{
  Labels, Manifest, namespace, node, pod, service, config_map, secret, deployment, Call,
  ensure_namespace, apply, patch_status, default_if_empty, with_cluster, namespace_of, add_roles,
  node_labels, node_manifest, is_empty, patches, node_calls, first_of, pod_manifest,
  service_manifest, config_map_manifest, secret_calls, deployment_manifest, each,
  template_or_default, default_node, with_node, tenant_calls, populate_tenant_from_template,
}
use scale_cluster_agent.Prelude.Dict.{lookup, insert, lookup-insert, lookup-insert_self}
use scale_cluster_agent.Prelude.{
  ◌≡◌, ◌≢◌, refl, ap, Bool, false, ◌&&◌, List, [], ◌∷◌, ◌++◌, Option, some, Text, text_eq, codes,
  ◌==◌, All, All-append, Bool-cases, inl, inr, arith,
}

-- The labels say that the object is the cluster's.
abbrev pub IsLabelled : Text → Labels → Type 0
IsLabelled cluster l = lookup (codes "cluster-id") l ≡ some cluster

-- The object of a manifest bears the cluster's label and, if it is in a namespace, is in the tenant's.
abbrev pub IsOwnManifest : Text → Manifest → Type 0
IsOwnManifest cluster (namespace name) = ⊥
IsOwnManifest cluster (node name l) = IsLabelled cluster l
IsOwnManifest cluster (pod name ns l n) = (ns ≡ namespace_of cluster) × IsLabelled cluster l
IsOwnManifest cluster (service name ns l t ps) = (ns ≡ namespace_of cluster) × IsLabelled cluster l
IsOwnManifest cluster (config_map name ns l) = (ns ≡ namespace_of cluster) × IsLabelled cluster l
IsOwnManifest cluster (secret name ns l t) =
    (ns ≡ namespace_of cluster)
    × IsLabelled cluster l
    × (t ≢ codes "kubernetes.io/service-account-token")
IsOwnManifest cluster (deployment name ns l r) = (ns ≡ namespace_of cluster) × IsLabelled cluster l

-- A call that keeps to the tenant. A status is patched of a node of the template.
abbrev pub IsOwn : Text → Call → Type 0
IsOwn cluster (ensure_namespace name) = name ≡ cluster
IsOwn cluster (apply m) = IsOwnManifest cluster m
IsOwn cluster (patch_status name capacity allocatable) =
    (is_empty capacity && is_empty allocatable) ≡ false

role_key-ne : (r : Text) → codes "node-role.kubernetes.io/" ++ r ≢ codes "cluster-id"
role_key-ne r h = cc h

add_roles-IsLabelled :
    (cluster mark : Text) (rs : List Text) (l : Labels)
    → IsLabelled cluster l
    → IsLabelled cluster (add_roles mark rs l)
add_roles-IsLabelled cluster mark [] l h = h
add_roles-IsLabelled cluster mark (r ∷ rs) l h =
    let key = codes "node-role.kubernetes.io/" ++ r in
    let other = role_key-ne r in
    let e = lookup-insert (codes "cluster-id") key mark l in
    add_roles-IsLabelled cluster mark rs (insert key mark l) (ground arith)

node_labels-IsLabelled :
    (cluster : Text) (roles : List Text) → IsLabelled cluster (node_labels cluster roles)
unfolding lookup text_eq
node_labels-IsLabelled cluster roles = add_roles-IsLabelled cluster (codes "\"true\"") roles _ refl

with_cluster-IsLabelled :
    (cluster : Text) (l : Labels) → IsLabelled cluster (with_cluster cluster l)
with_cluster-IsLabelled cluster l = lookup-insert_self (codes "cluster-id") cluster l

module _ (cluster : Text) where
  patches-IsOwn : (n : NodeInfo) → All (IsOwn cluster) (patches cluster n)
  patches-IsOwn n = elim (Bool-cases (is_empty n.capacity && is_empty n.allocatable)) [
    | inl e ↦ rw (e, patches) tt
    | inr e ↦ rw (e, patches) (e, tt)
  ]

  node_calls-IsOwn :
      (applies : Manifest → Bool) (ns : List NodeInfo)
      → All (IsOwn cluster) (node_calls applies cluster ns).0
  unfolding node_calls
  node_calls-IsOwn applies [] = tt
  node_calls-IsOwn applies (n ∷ ns) =
      let ih = node_calls-IsOwn applies ns in
      let own = node_labels-IsLabelled cluster n.roles in
      let calls = (node_calls applies cluster ns).0 in
      elim (Bool-cases (applies (node_manifest cluster n))) [
        | inl e ↦
            rw (e, node_calls)
              (own, All-append (IsOwn cluster) (patches cluster n) calls (patches-IsOwn n) ih)
        | inr e ↦ rw (e, node_calls) (own, ih)
      ]

  each-IsOwn {ℓ} :
      {A : Type ℓ} (f : A → Manifest) (xs : List A)
      → ((x : A) → IsOwnManifest cluster (f x))
      → All (IsOwn cluster) (each f xs)
  each-IsOwn f [] h = tt
  each-IsOwn f (x ∷ xs) h = (h x, each-IsOwn f xs h)

  secret_calls-IsOwn : (ss : List SecretInfo) → All (IsOwn cluster) (secret_calls cluster ss)
  unfolding secret_calls
  secret_calls-IsOwn [] = tt
  secret_calls-IsOwn (s ∷ ss) =
      let ih = secret_calls-IsOwn ss in
      let t = default_if_empty s.type_name (codes "Opaque") in
      elim (Bool-cases (t == codes "kubernetes.io/service-account-token")) [
        | inl e ↦ rw (e, secret_calls) ih
        | inr e ↦
            rw (e, secret_calls) ((refl, with_cluster-IsLabelled cluster [], ground arith), ih)
      ]

  tenant_calls-IsOwn :
      (applies : Manifest → Bool) (t : ClusterInfo)
      → All (IsOwn cluster) (tenant_calls applies cluster t)
  unfolding tenant_calls
  tenant_calls-IsOwn applies t =
      let P = IsOwn cluster in
      let first = first_of (node_calls applies cluster t.nodes).1 in
      let labelled = with_cluster-IsLabelled cluster in
      let pods = each-IsOwn (pod_manifest cluster first) t.pods (λ p. (refl, labelled p.labels)) in
      let services =
        each-IsOwn (service_manifest cluster) t.services (λ s. (refl, labelled s.labels)) in
      let maps =
        each-IsOwn (config_map_manifest cluster) t.config_maps (λ c. (refl, labelled [])) in
      let deployments =
        each-IsOwn (deployment_manifest cluster) t.deployments (λ d. (refl, labelled d.labels)) in
      let secrets = secret_calls-IsOwn t.secrets in
      All-append P _ _ (node_calls-IsOwn applies t.nodes) (
        All-append P _ _ pods (
          All-append P _ _ services (All-append P _ _ maps (All-append P _ _ secrets deployments))))

pub with_node-some : (t : ClusterInfo) (ns : List NodeInfo) → ns ≢ [] → with_node t ns ≡ t
with_node-some t [] h = absurd (h refl)
with_node-some t (n ∷ ns) h = refl

with_node-none :
    (t : ClusterInfo) (ns : List NodeInfo)
    → ns ≡ []
    → with_node t ns ≡ record t { nodes = default_node ∷ [] }
with_node-none t [] h = refl
with_node-none t (n ∷ ns) h = absurd (cc h)

-- Whatever the template, and whatever kubectl accepts: each object that the population of a tenant
-- applies bears the cluster's label, and each but the nodes stands in the tenant's namespace; no token
-- of a service account is among them; and only what has resources is patched.
pub populate_tenant_from_template-IsOwn :
    (applies : Manifest → Bool) (multi_tenant only_in_main : Bool) (cluster : Text)
    (t : Option ClusterInfo)
    → All
        (IsOwn cluster)
        (populate_tenant_from_template applies multi_tenant only_in_main cluster t).0
unfolding populate_tenant_from_template
populate_tenant_from_template-IsOwn applies multi_tenant only_in_main cluster t =
    let used = template_or_default t in
    elim (Bool-cases (multi_tenant && only_in_main)) [
      | inl e ↦ rw (e, populate_tenant_from_template) tt
      | inr e ↦
          rw (e, populate_tenant_from_template)
            (refl, tenant_calls-IsOwn cluster applies (with_node used used.nodes))
    ]

-- A population that is not skipped leaves a template with nodes as it is, but writes the default node
-- into the agent's own template if that has none.
pub populate_tenant_from_template-template :
    (applies : Manifest → Bool) (multi_tenant only_in_main : Bool) (cluster : Text)
    (t : ClusterInfo)
    → (multi_tenant && only_in_main) ≡ false
    → (t.nodes ≢ []
        → (populate_tenant_from_template applies multi_tenant only_in_main cluster (some t)).1
          ≡ some t)
      × (t.nodes ≡ []
          → (populate_tenant_from_template applies multi_tenant only_in_main cluster (some t)).1
            ≡ some (record t { nodes = default_node ∷ [] }))
unfolding populate_tenant_from_template
populate_tenant_from_template-template applies multi_tenant only_in_main cluster t h = (
  λ k. rw (h, populate_tenant_from_template) (ap some (with_node-some t t.nodes k)),
  λ k. rw (h, populate_tenant_from_template) (ap some (with_node-none t t.nodes k)),
)
