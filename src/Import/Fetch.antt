-- ===== src/Import/Fetch.antt =====
-- main.go: getImportYAML, getClusterNameByID and applyImportYAMLToKWOKCluster, around the
-- transformation of the import YAML.
pub mod Laws
pub mod Isolated
use scale_cluster_agent.Types.{ClusterInfo, KwokCluster}
use scale_cluster_agent.Import.Value.{Fields}
use scale_cluster_agent.Import.Transform.{transform_import_yaml}
use scale_cluster_agent.Lifecycle.Params.{get_kwok_cluster_by_id}
use scale_cluster_agent.Prelude.Dict.{Dict}
use scale_cluster_agent.Prelude.{
  ℕ, Bool, true, false, ◌&&◌, List, [], ◌∷◌, ◌++◌, Option, none, some, Text, text_eq, nat_eq, codes,
  ◌==◌, if◌then◌else◌,
}

-- strings.TrimRight(s, cutset) for a cutset of one byte
unfoldable pub trim_bytes : Text → ℕ → Text
unfolding nat_eq text_eq
trim_bytes [] cut = []
trim_bytes (c ∷ s) cut =
    let rest = trim_bytes s cut in if rest == [] && c == cut then [] else c ∷ rest

-- getClusterNameByID; Go goes over the map in some order. `clusters` has the objects of the agent.
unfoldable pub get_cluster_name_by_id : Text → Dict Text ClusterInfo → Text
unfolding text_eq
get_cluster_name_by_id cluster_id [] = []
get_cluster_name_by_id cluster_id ((name, ci) ∷ d) =
    let rest = get_cluster_name_by_id cluster_id d in
    if ci.cluster_id == cluster_id then name else rest

-- The URL of the manifest
unfoldable pub import_url : Text → Text → Text → Text
unfolding trim_bytes
import_url rancher_url token cluster_id =
    trim_bytes rancher_url b'/'
    ++ (codes "/v3/import/" ++ (token ++ (codes "_" ++ (cluster_id ++ codes ".yaml"))))

-- What is met: the token of getClusterToken, whether the request is made, the response to the request of
-- a URL with its status and its body, where that can be read, and whether the directory is there.
pub record FetchAnswers : Type 0 where
  pub token : Option Text
  pub request_ok : Bool
  pub respond : Text → Option (ℕ × Option Text)
  pub directory_ok : Bool

-- The URLs that are requested, the file that is written for inspection, with its contents, and the YAML
pub record Fetched : Type 0 where
  pub urls : List Text
  pub file : Option (Text × Text)
  pub yaml : Option Text

abbrev pub no_yaml : List Text → Fetched
no_yaml urls = record { urls = urls; file = none; yaml = none }

-- The name of the file
unfoldable pub debug_file : Text → Dict Text ClusterInfo → Text
unfolding get_cluster_name_by_id text_eq
debug_file cluster_id clusters =
    let found = get_cluster_name_by_id cluster_id clusters in
    codes "debug-yaml/" ++ ((if found == [] then cluster_id else found) ++ codes "-register.yaml")

-- From the response on
unfoldable pub save_response :
    FetchAnswers → Text → Dict Text ClusterInfo → List Text → Option (ℕ × Option Text) → Fetched
unfolding debug_file nat_eq
save_response w cluster_id clusters urls none = no_yaml urls
save_response w cluster_id clusters urls (some (status, none)) = no_yaml urls
save_response w cluster_id clusters urls (some (status, some body)) =
    if status == 200
    then record {
      urls = urls;
      file = if w.directory_ok then some (debug_file cluster_id clusters, body) else none;
      yaml = some body;
    }
    else no_yaml urls

-- getImportYAML
unfoldable pub get_import_yaml : FetchAnswers → Text → Text → Dict Text ClusterInfo → Fetched
unfolding save_response import_url
get_import_yaml w rancher_url cluster_id clusters = elim w.token [
  | none ↦ no_yaml []
  | some token ↦
      let url = import_url rancher_url token cluster_id in
      if w.request_ok
      then save_response w cluster_id clusters (url ∷ []) (w.respond url)
      else no_yaml []
]

-- The decoder and the encoder of YAML, whether the kubeconfig of a KWOK cluster exists, and whether
-- kubectl apply succeeds with it.
pub record ApplyAnswers : Type 0 where
  pub decode : Text → List Fields × Bool
  pub encode : List Fields → Text
  pub exists : Text → Bool
  pub apply_ok : Text → Text → Bool

pub data ApplyError : Type 0 where
  no_kwok_cluster no_kubeconfig apply_failed : ApplyError

-- The KWOK cluster whose kubeconfig is taken
unfoldable pub kwok_name : Bool → Text → Text → Dict Text KwokCluster → Option Text
unfolding get_kwok_cluster_by_id
kwok_name true main_name cluster_id clusters = some main_name
kwok_name false main_name cluster_id clusters = elim (get_kwok_cluster_by_id cluster_id clusters) [
  | none ↦ none
  | some c ↦ some c.name
]

-- The YAML that is applied; where the transformation fails it is the original
unfoldable pub final_yaml : ApplyAnswers → Bool → Text → Text → Text
unfolding transform_import_yaml
final_yaml w false cluster_id yaml = yaml
final_yaml w true cluster_id yaml =
    let (docs, ended) = w.decode yaml in
    elim (transform_import_yaml cluster_id docs ended) [ none ↦ yaml | some out ↦ w.encode out ]

-- applyImportYAMLToKWOKCluster, with the clusters of the manager after its wait for some: the KWOK
-- cluster and the YAML that are given to kubectl, and the error, if any.
unfoldable pub apply_import_yaml :
    ApplyAnswers
    → Bool
    → Text
    → Text
    → Dict Text KwokCluster
    → Text
    → Option (Text × Text) × Option ApplyError
unfolding kwok_name final_yaml
apply_import_yaml w multi_tenant main_name cluster_id clusters yaml =
    elim (kwok_name multi_tenant main_name cluster_id clusters) [
      | none ↦ (none, some no_kwok_cluster)
      | some name ↦
          let out = final_yaml w multi_tenant cluster_id yaml in
          let error = if w.apply_ok name out then none else some apply_failed in
          if w.exists name then (some (name, out), error) else (none, some no_kubeconfig)
    ]
