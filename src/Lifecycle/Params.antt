-- ===== src/Lifecycle/Params.antt =====
-- getClusterParams and getKWOKClusterByID of main.go.
use scale_cluster_agent.Types.{KwokCluster}
use scale_cluster_agent.Strings.Trim.{trim_space, itoa_int}
use scale_cluster_agent.Prelude.Dict.{Dict}
use scale_cluster_agent.Prelude.Results.{Result, ok, err}
use scale_cluster_agent.Prelude.{
  Bool, List, [], ◌∷◌, ◌++◌, Option, none, some, Text, text_eq, codes, ◌==◌, if◌then◌else◌,
}

-- getKWOKClusterByID; Go goes over the map in some order.
unfoldable pub get_kwok_cluster_by_id : Text → Dict Text KwokCluster → Option KwokCluster
get_kwok_cluster_by_id cluster_id [] = none
get_kwok_cluster_by_id cluster_id ((id, c) ∷ d) =
    let rest = get_kwok_cluster_by_id cluster_id d in
    if c.cluster_id == cluster_id then some c else rest

-- The host in the URL that url.Parse reads, if it reads one, and base64.
pub record Codec : Type 0 where
  pub host : Text → Option Text
  pub encode : Text → Text

pub data ParamsError : Type 0 where
  no_token no_kubeconfig unreadable no_server bad_server no_kwok_cluster : ParamsError

-- The values under "cluster"; its scheme is always "https".
pub record Params : Type 0 where
  pub address : Text
  pub token : Text
  pub ca_cert : Text

-- The server of the main cluster, from the servers that its kubeconfig has.
unfoldable pub server_address : Codec → List Text → Result ParamsError Text
server_address k [] = err no_server
server_address k ([] ∷ ss) = err no_server
server_address k ((c ∷ s) ∷ ss) = elim (k.host (c ∷ s)) [ none ↦ err bad_server | some h ↦ ok h ]

-- The address of the API server. `kubeconfig` is what kwokctl prints, and what Unmarshal makes of it.
unfoldable pub api_endpoint :
    Codec
    → Bool
    → Option (Option (List Text))
    → Text
    → Dict Text KwokCluster
    → Result ParamsError Text
unfolding server_address get_kwok_cluster_by_id
api_endpoint k multi_tenant kubeconfig cluster_id clusters =
    let main = elim kubeconfig as (λ _. Result ParamsError Text) [
      | none ↦ err no_kubeconfig
      | some none ↦ err unreadable
      | some (some servers) ↦ server_address k servers
    ] in
    let own = elim (get_kwok_cluster_by_id cluster_id clusters) as (λ _. Result ParamsError Text) [
      | none ↦ err no_kwok_cluster
      | some c ↦ ok (codes "127.0.0.1:" ++ itoa_int c.port)
    ] in
    if multi_tenant then main else own

-- getClusterParams; `credentials` are the CA and the token that getTokenFromAPI returns.
unfoldable pub get_cluster_params :
    Codec
    → Bool
    → Option (Text × Text)
    → Option (Option (List Text))
    → Text
    → Dict Text KwokCluster
    → Result ParamsError Params
unfolding api_endpoint trim_space
get_cluster_params k multi_tenant none kubeconfig cluster_id clusters = err no_token
get_cluster_params k multi_tenant (some (ca, token)) kubeconfig cluster_id clusters =
    elim (api_endpoint k multi_tenant kubeconfig cluster_id clusters) [
      | err e ↦ err e
      | ok address ↦
          ok (record { address = address; token = trim_space token; ca_cert = k.encode ca })
    ]
