-- ===== src/Population/Calls.antt =====
-- populateTenantFromTemplate: the calls of kubectl, in order.
use scale_cluster_agent.Types.{
  ClusterInfo, NodeInfo, PodInfo, ServiceInfo, SecretInfo, ConfigMapInfo, DeploymentInfo,
  bare_cluster,
}
use scale_cluster_agent.Strings.{replace_all, atoi}
use scale_cluster_agent.Strings.Trim.{trim_space}
use scale_cluster_agent.Population.Ports.{Port, service_ports}
use scale_cluster_agent.Prelude.Dict.{Dict, insert}
use scale_cluster_agent.Prelude.Int.{ℤ, pos, is_positive}
use scale_cluster_agent.Prelude.{
  Bool, true, false, ◌&&◌, List, [], ◌∷◌, ◌++◌, Option, none, some, Text, text_eq, codes, ◌==◌,
  if◌then◌else◌,
}

abbrev pub Labels : Type 0
Labels = Dict Text Text

-- A manifest, by the values that its YAML has: the name, but for a namespace or a node the namespace,
-- and the labels;
-- then the node of a pod, the type and the ports of a service, the type of a secret, and the replicas
-- of a deployment. The selectors of services and deployments have no value of their own.
pub data Manifest : Type 0 where
  namespace : Text → Manifest
  node : Text → Labels → Manifest
  pod : Text → Text → Labels → Text → Manifest
  service : Text → Text → Labels → Text → List Port → Manifest
  config_map : Text → Text → Labels → Manifest
  secret : Text → Text → Labels → Text → Manifest
  deployment : Text → Text → Labels → ℤ → Manifest

-- `ensure_namespace` is the call of ensureNamespaceOnMain. The check of a node that was created, and
-- the outcome of a patch, are only logged.
pub data Call : Type 0 where
  ensure_namespace : Text → Call
  apply : Manifest → Call
  patch_status : Text → Dict Text Text → Dict Text Text → Call

-- defaultIfEmpty
unfoldable pub default_if_empty : Text → Text → Text
unfolding trim_space
default_if_empty s otherwise = if trim_space s == [] then otherwise else s

-- strings.ReplaceAll(s, "{{cluster-name}}", clusterName)
abbrev pub named : Text → Text → Text
named cluster s = replace_all s (codes "{{cluster-name}}") cluster

-- labelsWithCluster
abbrev pub with_cluster : Text → Labels → Labels
with_cluster cluster base = insert (codes "cluster-id") cluster base

abbrev pub namespace_of : Text → Text
namespace_of cluster = codes "cluster-" ++ cluster

-- One label for each role, with the text of its value
abbrev pub add_roles : Text → List Text → Labels → Labels
add_roles mark [] l = l
add_roles mark (r ∷ rs) l =
    add_roles mark rs (insert (codes "node-role.kubernetes.io/" ++ r) mark l)

-- The labels of a tenant's node
abbrev pub node_labels : Text → List Text → Labels
node_labels cluster roles = add_roles (codes "\"true\"") roles (
    (codes "cluster-id", cluster)
    ∷ (codes "kwok.x-k8s.io/node", codes "fake")
    ∷ (codes "logical-cluster", cluster)
    ∷ [])

abbrev pub node_name : Text → NodeInfo → Text
node_name cluster n = named cluster (default_if_empty n.name (codes "{{cluster-name}}-node1"))

abbrev pub node_manifest : Text → NodeInfo → Manifest
node_manifest cluster n = node (node_name cluster n) (node_labels cluster n.roles)

-- len(m) == 0
abbrev pub is_empty : Dict Text Text → Bool
is_empty [] = true
is_empty (_ ∷ d) = false

-- The call that patches the status of a node with something to patch.
abbrev pub patches : Text → NodeInfo → List Call
patches cluster n =
    if is_empty n.capacity && is_empty n.allocatable
    then []
    else patch_status (node_name cluster n) n.capacity n.allocatable ∷ []

-- The loop over the nodes: the calls, and the names of the nodes that were created. `applies` says
-- which manifests kubectl accepts.
unfoldable pub node_calls : (Manifest → Bool) → Text → List NodeInfo → List Call × List Text
node_calls applies cluster [] = ([], [])
node_calls applies cluster (n ∷ ns) =
    let (calls, created) = node_calls applies cluster ns in
    let m = node_manifest cluster n in
    if applies m
    then (apply m ∷ (patches cluster n ++ calls), node_name cluster n ∷ created)
    else (apply m ∷ calls, created)

abbrev pub first_of : List Text → Text
first_of [] = []
first_of (n ∷ ns) = n

abbrev pub pod_manifest : Text → Text → PodInfo → Manifest
pod_manifest cluster first_node p =
    pod (named cluster (default_if_empty p.name (codes "demo-0"))) (namespace_of cluster)
      (with_cluster cluster p.labels) (if p.node == [] then first_node else named cluster p.node)

abbrev pub service_manifest : Text → ServiceInfo → Manifest
service_manifest cluster s =
    service (named cluster s.name) (namespace_of cluster) (with_cluster cluster s.labels)
      (default_if_empty s.type_name (codes "ClusterIP")) (service_ports s.ports)

abbrev pub config_map_manifest : Text → ConfigMapInfo → Manifest
config_map_manifest cluster c =
    config_map (named cluster c.name) (namespace_of cluster) (with_cluster cluster [])

-- Secrets of service accounts are passed over.
unfoldable pub secret_calls : Text → List SecretInfo → List Call
unfolding default_if_empty
secret_calls cluster [] = []
secret_calls cluster (s ∷ ss) =
    let rest = secret_calls cluster ss in
    let type_name = default_if_empty s.type_name (codes "Opaque") in
    if type_name == codes "kubernetes.io/service-account-token"
    then rest
    else apply
        (secret (named cluster s.name) (namespace_of cluster) (with_cluster cluster []) type_name)
      ∷ rest

-- The number in the text of the available replicas, if it is above 0, else 1.
unfoldable pub replicas_of : Text → ℤ
unfolding trim_space atoi
replicas_of available = elim (atoi (trim_space available)) [
  | none ↦ pos 1
  | some v ↦ if is_positive v then v else pos 1
]

abbrev pub deployment_manifest : Text → DeploymentInfo → Manifest
deployment_manifest cluster d =
    deployment (named cluster d.name) (namespace_of cluster) (with_cluster cluster d.labels)
      (replicas_of d.available)

abbrev pub each {ℓ} : {A : Type ℓ} → (A → Manifest) → List A → List Call
each f [] = []
each f (x ∷ xs) = apply (f x) ∷ each f xs

-- The template that the population goes by. Where the agent has none, it is an empty one.
abbrev pub template_or_default : Option ClusterInfo → ClusterInfo
template_or_default none = bare_cluster []
template_or_default (some t) = t

abbrev pub default_node : NodeInfo
default_node = record {
  name = codes "{{cluster-name}}-node1";
  status = [];
  roles = codes "control-plane" ∷ codes "etcd" ∷ codes "master" ∷ [];
  age = [];
  version = [];
  internal_ip = [];
  external_ip = [];
  os_image = [];
  kernel_ver = [];
  container_runtime = [];
  capacity = [];
  allocatable = [];
}

-- tmpl.Nodes = []NodeInfo{…} where there are none. It is written into the template itself.
abbrev pub with_node : ClusterInfo → List NodeInfo → ClusterInfo
with_node t [] = record t { nodes = default_node ∷ [] }
with_node t (n ∷ ns) = t

-- The calls, for a template with nodes.
unfoldable pub tenant_calls : (Manifest → Bool) → Text → ClusterInfo → List Call
unfolding node_calls secret_calls
tenant_calls applies cluster t =
    let (nodes, created) = node_calls applies cluster t.nodes in
    nodes
    ++ (each (pod_manifest cluster (first_of created)) t.pods
        ++ (each (service_manifest cluster) t.services
            ++ (each (config_map_manifest cluster) t.config_maps
                ++ (secret_calls cluster t.secrets
                    ++ each (deployment_manifest cluster) t.deployments))))

-- populateTenantFromTemplate, with the two settings of the configuration: the calls, and what the
-- agent has for a template afterwards. It returns no error.
unfoldable pub populate_tenant_from_template :
    (Manifest → Bool) → Bool → Bool → Text → Option ClusterInfo → List Call × Option ClusterInfo
unfolding tenant_calls
populate_tenant_from_template applies multi_tenant only_in_main cluster t =
    let used = template_or_default t in
    let filled = with_node used used.nodes in
    if multi_tenant && only_in_main then ([], t) else (
      ensure_namespace cluster ∷ tenant_calls applies cluster filled,
      elim t [ none ↦ none | some old ↦ some filled ],
    )
