-- ===== src/Credentials/Api.antt =====
-- main.go: getTokenFromAPI and extractCACertFromKubeconfig.
pub mod Laws
use scale_cluster_agent.Types.{KwokCluster}
use scale_cluster_agent.Tenant.{tenant_namespace, tenant_sa_name}
use scale_cluster_agent.Strings.Trim.{trim_space}
use scale_cluster_agent.Import.Fetch.{kwok_name}
use scale_cluster_agent.Prelude.Dict.{Dict, lookup}
use scale_cluster_agent.Prelude.Results.{Result, ok, err}
use scale_cluster_agent.Prelude.{
  Bool, true, false, ◌&&◌, List, [], ◌∷◌, Option, none, some, Text, text_eq, codes, ◌==◌,
  if◌then◌else◌,
}

-- A cluster in a kubeconfig: its certificate as base64, or the path of a file.
pub record KubeCluster : Type 0 where
  pub ca_data : Text
  pub ca_file : Text

-- A secret in the list that kubectl prints.
pub record ListedSecret : Type 0 where
  pub name : Text
  pub annotations : Dict Text Text
  pub type_name : Text
  pub contents : Dict Text Text

-- What is met: the answers of kwokctl and kubectl for the KWOK cluster, what the parsers make of a text,
-- base64, and the files that can be read. A name that kubectl is given comes with its namespace.
pub record ApiAnswers : Type 0 where
  pub kubeconfig : Text → Option Text
  pub temp_ok : Bool
  pub parse_kubeconfig : Text → Option (List KubeCluster)
  pub decode : Text → Option Text
  pub read_file : Text → Option Text
  pub raw_ca : Option Text
  pub pki_ca : Text → Option Text
  pub has_account : Text → Text → Bool
  pub create_token : Text → Text → Option Text
  pub secrets : Text → Option Text
  pub parse_secrets : Text → Option (List ListedSecret)

pub data TokenError : Type 0 where
  no_kwok_cluster no_kubeconfig no_temp_file unparsable no_clusters : TokenError
  bad_ca_data unreadable_ca no_ca no_account : TokenError
  no_secrets unparsable_secrets no_token : TokenError

-- Bytes that are there, but for none
abbrev pub present : Option Text → Option Text
present none = none
present (some []) = none
present (some (c ∷ s)) = some (c ∷ s)

-- The certificate where the kubeconfig has none: from its raw view, else from KWOK's directory
unfoldable pub fallback_ca : ApiAnswers → Text → Option Text
unfolding trim_space
fallback_ca w name =
    let raw : Option Text = elim w.raw_ca [
      | none ↦ none
      | some out ↦ elim (present (some (trim_space out))) [ none ↦ none | some b64 ↦ w.decode b64 ]
    ] in
    elim (present raw) [ none ↦ present (w.pki_ca name) | some ca ↦ some ca ]

-- The certificate of a cluster
unfoldable pub ca_of : ApiAnswers → Text → KubeCluster → Result TokenError Text
unfolding fallback_ca text_eq
ca_of w name c =
    let decoded = elim (w.decode c.ca_data) as (λ _. Result TokenError Text) [
      | none ↦ err bad_ca_data
      | some ca ↦ ok ca
    ] in
    let read = elim (w.read_file c.ca_file) as (λ _. Result TokenError Text) [
      | none ↦ err unreadable_ca
      | some ca ↦ ok ca
    ] in
    let found = elim (fallback_ca w name) as (λ _. Result TokenError Text) [
      | none ↦ err no_ca
      | some ca ↦ ok ca
    ] in
    if c.ca_data == [] then (if c.ca_file == [] then found else read) else decoded

-- The certificate for the first cluster of the kubeconfig that kwokctl prints
unfoldable pub first_ca : ApiAnswers → Text → Text → Result TokenError Text
unfolding ca_of
first_ca w name text = elim (w.parse_kubeconfig text) [
  | none ↦ err unparsable
  | some clusters ↦ elim clusters [ [] ↦ err no_clusters | c ∷ cs ↦ ca_of w name c ]
]

-- m[key] of a map of strings
abbrev pub text_of : Text → Dict Text Text → Text
text_of key d = elim (lookup key d) [ none ↦ [] | some s ↦ s ]

-- Whether a secret is a token of the account
unfoldable pub is_token_of : Text → ListedSecret → Bool
unfolding lookup text_eq
is_token_of account s =
    s.type_name == codes "kubernetes.io/service-account-token"
    && text_of (codes "kubernetes.io/service-account.name") s.annotations == account

-- The token in a secret; an empty one counts for none
unfoldable pub secret_token : ApiAnswers → ListedSecret → Option Text
unfolding lookup
secret_token w s = elim (present (lookup (codes "token") s.contents)) [
  | none ↦ none
  | some t ↦ present (w.decode t)
]

-- The first token of the account in a list of secrets
unfoldable pub token_among : ApiAnswers → Text → List ListedSecret → Option Text
unfolding is_token_of secret_token
token_among w account [] = none
token_among w account (s ∷ ss) =
    let rest = token_among w account ss in
    let here : Option Text = elim (secret_token w s) [ none ↦ rest | some t ↦ some t ] in
    if is_token_of account s then here else rest

-- TokenRequest
unfoldable pub requested_token : ApiAnswers → Text → Text → Option Text
unfolding trim_space
requested_token w namespace account = elim (w.create_token namespace account) [
  | none ↦ none
  | some out ↦ present (some (trim_space out))
]

-- The token of an account: by TokenRequest, else among the secrets of its namespace
unfoldable pub token_for : ApiAnswers → Text → Text → Result TokenError Text
unfolding requested_token token_among
token_for w namespace account = elim (requested_token w namespace account) [
  | some t ↦ ok t
  | none ↦ elim (w.secrets namespace) [
    | none ↦ err no_secrets
    | some out ↦ elim (w.parse_secrets out) [
      | none ↦ err unparsable_secrets
      | some ss ↦ elim (token_among w account ss) [ none ↦ err no_token | some t ↦ ok t ]
    ]
  ]
]

-- The namespace and the name of the account
unfoldable pub account_at : Bool → Text → Text × Text
unfolding tenant_namespace tenant_sa_name
account_at multi_tenant cluster_id =
    if multi_tenant
    then (tenant_namespace cluster_id, tenant_sa_name cluster_id)
    else (codes "cattle-system", codes "cattle")

-- From the check of the account on, with the certificate
unfoldable pub with_account : ApiAnswers → Text → Text → Text → Result TokenError (Text × Text)
unfolding token_for
with_account w ca namespace account = elim (w.has_account namespace account) [
  | false ↦ err no_account
  | true ↦ elim (token_for w namespace account) [ err e ↦ err e | ok t ↦ ok (ca, t) ]
]

-- From the kubeconfig on, for a KWOK cluster
unfoldable pub token_at : ApiAnswers → Bool → Text → Text → Result TokenError (Text × Text)
unfolding first_ca with_account account_at
token_at w multi_tenant cluster_id name = elim (w.kubeconfig name) [
  | none ↦ err no_kubeconfig
  | some text ↦ elim w.temp_ok [
    | false ↦ err no_temp_file
    | true ↦ elim (first_ca w name text) [
      | err e ↦ err e
      | ok ca ↦
          let (namespace, account) = account_at multi_tenant cluster_id in
          with_account w ca namespace account
    ]
  ]
]

-- The KWOK cluster whose kubeconfig is taken; with an empty name it counts as not found, but for the
-- main cluster
unfoldable pub api_cluster : Bool → Text → Text → Dict Text KwokCluster → Option Text
unfolding kwok_name
api_cluster true main_name cluster_id clusters = some main_name
api_cluster false main_name cluster_id clusters =
    present (kwok_name false main_name cluster_id clusters)

-- getTokenFromAPI: the certificate and the token
unfoldable pub get_token_from_api :
    ApiAnswers → Bool → Text → Text → Dict Text KwokCluster → Result TokenError (Text × Text)
unfolding token_at api_cluster
get_token_from_api w multi_tenant main_name cluster_id clusters =
    elim (api_cluster multi_tenant main_name cluster_id clusters) [
      | none ↦ err no_kwok_cluster
      | some name ↦ token_at w multi_tenant cluster_id name
    ]

-- extractCACertFromKubeconfig
unfoldable pub extract_ca_cert : ApiAnswers → Text → Result TokenError Text
unfolding text_eq
extract_ca_cert w text = elim (w.parse_kubeconfig text) [
  | none ↦ err unparsable
  | some clusters ↦ elim clusters [
    | [] ↦ err no_clusters
    | c ∷ cs ↦ elim (w.decode c.ca_data) [
      | none ↦ if c.ca_data == [] then err no_ca else err bad_ca_data
      | some ca ↦ if c.ca_data == [] then err no_ca else ok ca
    ]
  ]
]
