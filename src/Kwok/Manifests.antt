-- ===== src/Kwok/Manifests.antt =====
-- kwok_integration.go: the text that createNamespace, createNodeFromConfig and createPodFromConfig give
-- to kubectl apply.
pub mod Laws
use scale_cluster_agent.Types.{Node, Pod}
use scale_cluster_agent.Strings.{join}
use scale_cluster_agent.Prelude.Dict.{Dict, lookup}
use scale_cluster_agent.Prelude.{
  ℕ, List, [], ◌∷◌, ◌++◌, map, Option, none, some, Text, text_eq, codes,
}

abbrev pub newline : ℕ
newline = 10

-- A line of a template: the value that is put in, and what stands before and behind it.
pub record Line : Type 0 where
  pub before : Text
  pub value : Text
  pub after : Text

abbrev pub render : Line → Text
render l = l.before ++ (l.value ++ l.after)

abbrev pub fixed : Text → Line
fixed text = record { before = text; value = []; after = [] }

abbrev pub with_value : Text → Text → Line
with_value before value = record { before = before; value = value; after = [] }

abbrev pub quoted : Text → Text → Line
quoted before value = record { before = before ++ (b'"' ∷ []); value = value; after = b'"' ∷ [] }

-- m[key] of a map of strings
abbrev pub quantity : Text → Dict Text Text → Text
quantity key d = elim (lookup key d) [ none ↦ [] | some s ↦ s ]

-- The lines of the template of a namespace; it ends with a newline.
abbrev pub namespace_lines : Text → List Line
namespace_lines name =
    fixed (codes "apiVersion: v1")
    ∷ fixed (codes "kind: Namespace")
    ∷ fixed (codes "metadata:")
    ∷ with_value (codes "  name: ") name
    ∷ fixed (codes "  labels:")
    ∷ with_value (codes "    name: ") name
    ∷ fixed []
    ∷ []

abbrev pub text_of_lines : List Line → Text
text_of_lines ls = join (map render ls) newline

-- nsYAML of createNamespace
unfoldable pub namespace_yaml : Text → Text
unfolding join
namespace_yaml name = text_of_lines (namespace_lines name)

-- strings.Join(s, sep)
unfoldable pub join_by : Text → List Text → Text
join_by sep [] = []
join_by sep (s ∷ []) = s
join_by sep (s ∷ t ∷ ss) = s ++ (sep ++ join_by sep (t ∷ ss))

abbrev pub role_label : Text → Text
role_label role = codes "node-role.kubernetes.io/" ++ (role ++ codes ": \"true\"")

-- The template of a node before its labels and behind them; `now` is the time, twice.
abbrev pub node_head : Node → List Line
node_head n =
    fixed (codes "apiVersion: v1")
    ∷ fixed (codes "kind: Node")
    ∷ fixed (codes "metadata:")
    ∷ with_value (codes "  name: ") n.name
    ∷ fixed (codes "  labels:")
    ∷ with_value (codes "    kubernetes.io/hostname: ") n.name
    ∷ []

abbrev pub resources : Dict Text Text → List Line
resources d =
    quoted (codes "    cpu: ") (quantity (codes "cpu") d)
    ∷ quoted (codes "    memory: ") (quantity (codes "memory") d)
    ∷ quoted (codes "    pods: ") (quantity (codes "pods") d)
    ∷ []

abbrev pub node_tail : Text → Text → Node → List Line
node_tail now now' n =
    fixed (codes "spec:")
    ∷ fixed (codes "  taints:")
    ∷ fixed (codes "  - key: node-role.kubernetes.io/control-plane")
    ∷ fixed (codes "    effect: NoSchedule")
    ∷ fixed (codes "status:")
    ∷ fixed (codes "  conditions:")
    ∷ fixed (codes "  - type: Ready")
    ∷ quoted (codes "    status: ") n.status
    ∷ quoted (codes "    lastHeartbeatTime: ") now
    ∷ quoted (codes "    lastTransitionTime: ") now'
    ∷ fixed (codes "  capacity:")
    ∷ (resources n.capacity
        ++ (fixed (codes "  allocatable:")
            ∷ (resources n.allocatable
                ++ (fixed (codes "  nodeInfo:")
                    ∷ quoted (codes "    kubeletVersion: ") n.version
                    ∷ quoted (codes "    osImage: ") n.os_image
                    ∷ quoted (codes "    kernelVersion: ") n.kernel_version
                    ∷ quoted (codes "    containerRuntimeVersion: ") n.container_runtime
                    ∷ fixed (codes "  addresses:")
                    ∷ fixed (codes "  - type: InternalIP")
                    ∷ quoted (codes "    address: ") n.internal_ip
                    ∷ fixed (codes "  - type: ExternalIP")
                    ∷ quoted (codes "    address: ") n.external_ip
                    ∷ fixed []
                    ∷ []))))

-- nodeYAML of createNodeFromConfig
unfoldable pub node_yaml : Text → Text → Node → Text
unfolding join join_by lookup
node_yaml now now' n =
    text_of_lines (node_head n)
    ++ (newline
        ∷ (codes "    "
            ++ (join_by (newline ∷ codes "    ") (map role_label n.roles)
                ++ (newline ∷ text_of_lines (node_tail now now' n)))))

-- formatLabels; Go goes over the map in some order
unfoldable pub format_labels : Dict Text Text → Text
format_labels [] = []
format_labels ((k, v) ∷ d) =
    codes "    " ++ (k ++ (codes ": " ++ (v ++ (newline ∷ format_labels d))))

abbrev pub pod_head : Pod → List Line
pod_head p =
    fixed (codes "apiVersion: v1")
    ∷ fixed (codes "kind: Pod")
    ∷ fixed (codes "metadata:")
    ∷ with_value (codes "  name: ") p.name
    ∷ with_value (codes "  namespace: ") p.namespace
    ∷ fixed (codes "  labels:")
    ∷ []

abbrev pub pod_tail : Pod → List Line
pod_tail p =
    fixed (codes "spec:")
    ∷ fixed (codes "  containers:")
    ∷ with_value (codes "  - name: ") p.name
    ∷ fixed (codes "    image: busybox:latest")
    ∷ fixed (codes "    command: [\"sleep\", \"3600\"]")
    ∷ with_value (codes "  nodeName: ") p.node
    ∷ fixed (codes "status:")
    ∷ with_value (codes "  phase: ") p.status
    ∷ with_value (codes "  podIP: ") p.ip
    ∷ fixed (codes "  conditions:")
    ∷ fixed (codes "  - type: Ready")
    ∷ fixed (codes "    status: \"True\"")
    ∷ fixed []
    ∷ []

-- podYAML of createPodFromConfig
unfoldable pub pod_yaml : Pod → Text
unfolding join format_labels
pod_yaml p =
    text_of_lines (pod_head p)
    ++ (newline ∷ (format_labels p.labels ++ (newline ∷ text_of_lines (pod_tail p))))
