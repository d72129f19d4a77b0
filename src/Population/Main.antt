-- ===== src/Population/Main.antt =====
-- applyTemplateToMainCluster of main.go: the calls of kubectl for the resources of the template, once,
-- in the main cluster. Labels are quoted there, and their lines stand in the order of the keys; what
-- kubectl answers is ignored.
use scale_cluster_agent.Types.{
  ClusterInfo, NodeInfo, PodInfo, ServiceInfo, SecretInfo, ConfigMapInfo, DeploymentInfo,
}
use scale_cluster_agent.Population.Ports.{service_ports}
use scale_cluster_agent.Population.Calls.{
  Manifest, namespace, node, pod, service, config_map, secret, deployment, Call, apply,
  default_if_empty, named, add_roles, node_name, patches, replicas_of, each,
}
use scale_cluster_agent.Prelude.{
  Bool, ◌&&◌, ◌||◌, List, [], ◌∷◌, ◌++◌, map, Option, none, some, Text, text_eq, codes, ◌==◌,
  contains, if◌then◌else◌,
}

-- ns := defaultIfEmpty(o.Namespace, "default")
abbrev pub namespace_or_default : Text → Text
namespace_or_default ns = default_if_empty ns (codes "default")

-- The namespaces that the objects of the template are in.
abbrev pub namespaces : ClusterInfo → List Text
namespaces t = map namespace_or_default (
    map (λ p. p.namespace) t.pods
    ++ (map (λ s. s.namespace) t.services
        ++ (map (λ c. c.namespace) t.config_maps
            ++ (map (λ s. s.namespace) t.secrets ++ map (λ d. d.namespace) t.deployments))))

-- nsSet: each of them once; Go goes over it in some order.
abbrev pub ns_set : List Text → List Text
ns_set [] = []
ns_set (n ∷ ns) = if contains ns n then ns_set ns else n ∷ ns_set ns

unfoldable pub namespace_calls : List Text → List Call
namespace_calls [] = []
namespace_calls (n ∷ ns) =
    let rest = namespace_calls ns in
    if n == [] || n == codes "default" then rest else apply (namespace n) ∷ rest

abbrev pub main_node : Text → NodeInfo → Manifest
main_node main n =
    node (node_name main n)
      (add_roles (codes "true") n.roles ((codes "kwok.x-k8s.io/node", codes "fake") ∷ []))

abbrev pub main_node_calls : Text → List NodeInfo → List Call
main_node_calls main [] = []
main_node_calls main (n ∷ ns) =
    apply (main_node main n) ∷ (patches main n ++ main_node_calls main ns)

abbrev pub main_pod : Text → PodInfo → Manifest
main_pod main p =
    pod (named main (default_if_empty p.name (codes "demo-0"))) (namespace_or_default p.namespace)
      p.labels (named main p.node)

abbrev pub main_service : Text → ServiceInfo → Manifest
main_service main s =
    service (named main s.name) (namespace_or_default s.namespace) s.labels
      (default_if_empty s.type_name (codes "ClusterIP")) (service_ports s.ports)

abbrev pub main_config_map : Text → ConfigMapInfo → Manifest
main_config_map main c = config_map (named main c.name) (namespace_or_default c.namespace) []

-- Secrets of service accounts are passed over.
unfoldable pub main_secret_calls : Text → List SecretInfo → List Call
unfolding default_if_empty
main_secret_calls main [] = []
main_secret_calls main (s ∷ ss) =
    let rest = main_secret_calls main ss in
    let type_name = default_if_empty s.type_name (codes "Opaque") in
    let m = secret (named main s.name) (namespace_or_default s.namespace) [] type_name in
    if type_name == codes "kubernetes.io/service-account-token" then rest else apply m ∷ rest

abbrev pub main_deployment : Text → DeploymentInfo → Manifest
main_deployment main d =
    deployment (named main d.name) (namespace_or_default d.namespace) [] (replicas_of d.available)

-- The calls after those for the namespaces
unfoldable pub object_calls : Text → ClusterInfo → List Call
unfolding main_secret_calls
object_calls main t =
    main_node_calls main t.nodes
    ++ (each (main_pod main) t.pods
        ++ (each (main_service main) t.services
            ++ (each (main_config_map main) t.config_maps
                ++ (main_secret_calls main t.secrets
                    ++ each (main_deployment main) t.deployments))))

-- applyTemplateToMainCluster, with the two settings of the configuration and the template, if any
unfoldable pub apply_template_to_main_cluster : Bool → Bool → Text → Option ClusterInfo → List Call
unfolding namespace_calls object_calls
apply_template_to_main_cluster multi_tenant only_in_main main none = []
apply_template_to_main_cluster multi_tenant only_in_main main (some t) =
    let calls = namespace_calls (ns_set (namespaces t)) ++ object_calls main t in
    if multi_tenant && only_in_main then calls else []
