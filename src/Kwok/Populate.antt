-- ===== src/Kwok/Populate.antt =====
-- readClusterConfig and populateClusterData of kwok_integration.go: the contents of cluster.yaml,
-- created in a new KWOK cluster. The file, the YAML parser and the outcome of each `kubectl apply` are
-- the outside world's.
use scale_cluster_agent.Types.{ClusterConfig, Node, Pod}
use scale_cluster_agent.Strings.{replace_all}
use scale_cluster_agent.Prelude.Results.{Result, ok, err}
use scale_cluster_agent.Prelude.{
  Bool, List, [], ◌∷◌, Option, none, some, Text, codes, if◌then◌else◌,
}

pub record World : Type 0 where
  -- os.ReadFile of cluster.yaml
  pub config_file : Option Text
  -- yaml.Unmarshal; an error is `none`
  pub unmarshal : Text → Option ClusterConfig
  -- createNamespace, createNodeFromConfig and createPodFromConfig: kubectl succeeds
  pub namespace_ok : Text → Bool
  pub node_ok : Node → Bool
  pub pod_ok : Pod → Bool

pub data PopulateError : Type 0 where
  unreadable unparsable : PopulateError
  namespace_failed node_failed pod_failed : Text → PopulateError

pub read_cluster_config : World → Text → Result PopulateError ClusterConfig
read_cluster_config w cluster_name = elim w.config_file [
  | none ↦ err unreadable
  | some text ↦ elim (w.unmarshal (replace_all text (codes "{{cluster-name}}") cluster_name)) [
    | none ↦ err unparsable
    | some config ↦ ok config
  ]
]

-- The loops end at the first failure.
pub create_namespaces : World → List Text → Result PopulateError (Unit {0})
create_namespaces w [] = ok tt
create_namespaces w (ns ∷ rest) =
    let later = create_namespaces w rest in
    if w.namespace_ok ns then later else err (namespace_failed ns)

pub create_nodes : World → List Node → Result PopulateError (Unit {0})
create_nodes w [] = ok tt
create_nodes w (n ∷ rest) =
    let later = create_nodes w rest in if w.node_ok n then later else err (node_failed n.name)

pub create_pods : World → List Pod → Result PopulateError (Unit {0})
create_pods w [] = ok tt
create_pods w (p ∷ rest) =
    let later = create_pods w rest in if w.pod_ok p then later else err (pod_failed p.name)

abbrev pub namespaces : List Text
namespaces =
    codes "default"
    ∷ codes "kube-system"
    ∷ codes "cattle-system"
    ∷ codes "cattle-impersonation-system"
    ∷ codes "monitoring"
    ∷ []

infixl 5 ◌>>◌ ◌>>=◌
abbrev ◌>>=◌ :
    {A B : Type 0} → Result PopulateError A → (A → Result PopulateError B) → Result PopulateError B
ok a >>= f = f a
err e >>= f = err e

abbrev ◌>>◌ :
    {B : Type 0} → Result PopulateError (Unit {0}) → Result PopulateError B → Result PopulateError B
m >> k = m >>= λ _. k

-- The last step, the RBAC rules, only logs its failure.
unfoldable pub populate_cluster_data : World → Text → Result PopulateError (Unit {0})
unfolding read_cluster_config create_namespaces create_nodes create_pods
populate_cluster_data w cluster_name = do
  config ← read_cluster_config w cluster_name
  create_namespaces w namespaces
  create_nodes w config.nodes
  create_pods w config.pods
