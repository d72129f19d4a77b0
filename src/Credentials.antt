-- ===== src/Credentials.antt =====
-- main.go: extractServiceAccountTokenFromKWOKCluster, which reads a cluster's token with kubectl.
pub mod Laws
pub mod Api
use scale_cluster_agent.Types.{KwokCluster}
use scale_cluster_agent.Kwok.Names.{rancher_prefix, middle_id}
use scale_cluster_agent.Tenant.{short_suffix, tenant_namespace}
use scale_cluster_agent.Strings.{has_prefix}
use scale_cluster_agent.Strings.Trim.{trim_space, fields}
use scale_cluster_agent.Prelude.{
  Bool, List, [], ◌∷◌, ◌++◌, Option, none, some, Text, ◌==◌, text_eq, codes, if◌then◌else◌,
}

-- What kubectl get secret is asked for: the token of the first secret that the given name yields, the
-- names of all, or the token of the secret of that name.
pub data Query : Type 0 where
  first_token : Text → Query
  secret_names : Query
  token_of : Text → Query

-- kubectl get secret with the kubeconfig of a KWOK cluster, in a namespace.
pub record Get : Type 0 where
  pub kube_name : Text
  pub namespace : Text
  pub query : Query

-- The KWOK cluster, the namespace and the name that the first command asks for.
pub record Target : Type 0 where
  pub kube_name : Text
  pub namespace : Text
  pub pattern : Text

abbrev pub get : Target → Query → Get
get t query = record { kube_name = t.kube_name; namespace = t.namespace; query = query }

-- The ID of the record, else what the name holds between "rancher-" and the port.
unfoldable pub known_id : KwokCluster → Text
unfolding has_prefix middle_id text_eq
known_id c =
    if c.cluster_id == []
    then if has_prefix c.name rancher_prefix
      then elim (middle_id c.name) [ none ↦ [] | some id ↦ id ]
      else []
    else c.cluster_id

abbrev pub credentials_pattern : Text
credentials_pattern = codes "cattle-credentials-*"

unfoldable pub target : Bool → Text → KwokCluster → Target
unfolding known_id tenant_namespace short_suffix text_eq
target multi_tenant main_name c =
    let id = known_id c in
    let shared = codes "cattle-system" in
    if multi_tenant
    then if id == []
      then record { kube_name = main_name; namespace = shared; pattern = credentials_pattern }
      else record {
        kube_name = main_name;
        namespace = tenant_namespace id;
        pattern = credentials_pattern ++ (b'-' ∷ short_suffix id);
      }
    else record { kube_name = c.name; namespace = shared; pattern = credentials_pattern }

-- The first name with the prefix of cattle's credentials.
unfoldable pub cattle_secret : List Text → Option Text
unfolding has_prefix
cattle_secret [] = none
cattle_secret (name ∷ names) =
    let rest = cattle_secret names in
    if has_prefix name (codes "cattle-credentials-") then some name else rest

-- The commands that are run, in order, and the output that has the token; `run` is what kubectl
-- prints, none where it fails.
unfoldable pub find_output : (Get → Option Text) → Target → List Get × Option Text
unfolding fields cattle_secret
find_output run t =
    let direct = get t (first_token t.pattern) in
    let listing = get t secret_names in
    elim (run direct) [
      | some output ↦ (direct ∷ [], some output)
      | none ↦ elim (run listing) [
        | none ↦ (direct ∷ listing ∷ [], none)
        | some output ↦ elim (cattle_secret (fields output)) [
          | none ↦ (direct ∷ listing ∷ [], none)
          | some name ↦ (direct ∷ listing ∷ get t (token_of name) ∷ [], run (get t (token_of name)))
        ]
      ]
    ]

-- base64.StdEncoding.DecodeString, as `decode`, of the trimmed output; an empty token is an error.
unfoldable pub token_in : (Text → Option Text) → Text → Option Text
unfolding trim_space text_eq
token_in decode output = elim (decode (trim_space output)) [
  | none ↦ none
  | some token ↦ if token == [] then none else some token
]

-- extractServiceAccountTokenFromKWOKCluster, with whether the kubeconfig exists.
unfoldable pub extract_service_account_token :
    (Get → Option Text)
    → (Text → Option Text)
    → Bool
    → Bool
    → Text
    → KwokCluster
    → List Get × Option Text
unfolding find_output token_in target
extract_service_account_token run decode kubeconfig_exists multi_tenant main_name c =
    if kubeconfig_exists
    then (let (gets, output) = find_output run (target multi_tenant main_name c) in
        (gets, elim output [ none ↦ none | some o ↦ token_in decode o ]))
    else ([], none)
