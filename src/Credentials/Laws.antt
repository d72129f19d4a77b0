-- ===== src/Credentials/Laws.antt =====
-- Where the token of a tenant is read: main.go.
use scale_cluster_agent.Types.{KwokCluster}
use scale_cluster_agent.Tenant.{tenant_namespace, short_suffix}
use scale_cluster_agent.Strings.{has_prefix}
use scale_cluster_agent.Strings.Trim.{trim_space, fields}
use scale_cluster_agent.Credentials.{
  Query, first_token, secret_names, token_of, Get, Target, get, credentials_pattern, known_id,
  target, cattle_secret, find_output, token_in, extract_service_account_token,
}
use scale_cluster_agent.Prelude.{
  ◌≡◌, ◌≢◌, inl, inr, refl, subst, Bool, true, false, List, [], ◌∷◌, ◌++◌, Option, none, some, Text,
  ◌==◌, text_eq, codes, All, Bool-cases, Option-cases, arith,
}

-- A secret is asked for by its own name only if that has the prefix of cattle's credentials.
abbrev pub IsCattle : Query → Type 0
IsCattle (first_token pattern) = Unit
IsCattle secret_names = Unit
IsCattle (token_of name) = has_prefix name (codes "cattle-credentials-") ≡ true

-- The command is about this KWOK cluster and namespace.
abbrev pub IsAt : Text → Text → Get → Type 0
IsAt kube_name namespace g =
    (g.kube_name ≡ kube_name) × (g.namespace ≡ namespace) × IsCattle g.query

abbrev pub last_answer : (Get → Option Text) → List Get → Option Text
last_answer run [] = none
last_answer run (g ∷ []) = run g
last_answer run (g ∷ h ∷ gs) = last_answer run (h ∷ gs)

-- The token is what the last of the commands printed, trimmed and decoded, and not empty.
abbrev pub IsRead : (Get → Option Text) → (Text → Option Text) → List Get → Option Text → Type 0
IsRead run decode gets none = Unit
IsRead run decode gets (some token) =
    (token ≢ [])
    × ((o : Text) × (last_answer run gets ≡ some o) × (decode (trim_space o) ≡ some token))

cattle_secret-IsCattle :
    (names : List Text) (name : Text) → cattle_secret names ≡ some name → IsCattle (token_of name)
unfolding cattle_secret
cattle_secret-IsCattle [] name e = ground arith
cattle_secret-IsCattle (n ∷ names) name e =
    let ih = cattle_secret-IsCattle names name in
    elim (Bool-cases (has_prefix n (codes "cattle-credentials-"))) [
      | inl h ↦ ground (arith, e, h)
      | inr h ↦ ground (arith, e, h, ih)
    ]

token_in-IsRead :
    (run : Get → Option Text) (decode : Text → Option Text) (gets : List Get) (o : Text)
    → last_answer run gets ≡ some o
    → IsRead run decode gets (token_in decode o)
unfolding token_in text_eq
token_in-IsRead run decode gets o e = elim (Option-cases (decode (trim_space o))) [
  | inl d ↦ rw (d, token_in) tt
  | inr (t, d) ↦ elim (Bool-cases (t == [])) [
    | inl b ↦ rw (d, b, token_in) tt
    | inr b ↦ rw (d, b, token_in) (ground (arith, b), (o, e, d))
  ]
]

-- What the search for the output does, for any target.
find_output-IsAt :
    (run : Get → Option Text) (decode : Text → Option Text) (t : Target)
    → All (IsAt t.kube_name t.namespace) (find_output run t).0
      × IsRead run decode
          (find_output run t).0
          (elim (find_output run t).1 [ none ↦ none | some o ↦ token_in decode o ])
unfolding find_output
find_output-IsAt run decode t =
    let direct = get t (first_token t.pattern) in
    let listing = get t secret_names in
    elim (Option-cases (run (get t (first_token t.pattern)))) [
      | inr (o, d) ↦
          rw (d, find_output) (((refl, refl, tt), tt), token_in-IsRead run decode (direct ∷ []) o d)
      | inl d ↦ elim (Option-cases (run (get t secret_names))) [
        | inl l ↦ rw (d, l, find_output) (((refl, refl, tt), ((refl, refl, tt), tt)), tt)
        | inr (o, l) ↦ elim (Option-cases (cattle_secret (fields o))) [
          | inl c ↦ rw (d, l, c, find_output) (((refl, refl, tt), ((refl, refl, tt), tt)), tt)
          | inr (n, c) ↦
              let own = cattle_secret-IsCattle (fields o) n c in
              elim (Option-cases (run (get t (token_of n)))) [
                | inl r ↦
                    rw (d, l, c, r, find_output)
                      (((refl, refl, tt), ((refl, refl, tt), ((refl, refl, own), tt))), tt)
                | inr (x, r) ↦
                    rw (d, l, c, r, find_output)
                      (
                        ((refl, refl, tt), ((refl, refl, tt), ((refl, refl, own), tt))),
                        token_in-IsRead run decode (direct ∷ listing ∷ get t (token_of n) ∷ []) x r,
                      )
              ]
        ]
      ]
    ]

known_id-own : (c : KwokCluster) → c.cluster_id ≢ [] → known_id c ≡ c.cluster_id
unfolding known_id text_eq
known_id-own c i = let known : (c.cluster_id == []) ≡ false = ground arith in rw known refl

abbrev own_target : Text → Text → Target
own_target main_name id = record {
  kube_name = main_name;
  namespace = tenant_namespace id;
  pattern = credentials_pattern ++ (b'-' ∷ short_suffix id);
}

target-own :
    (main_name : Text) (c : KwokCluster)
    → c.cluster_id ≢ []
    → target true main_name c ≡ own_target main_name c.cluster_id
unfolding target text_eq
target-own main_name c i =
    let known : (c.cluster_id == []) ≡ false = ground arith in
    rw (known_id-own c i, target) (rw known refl)

-- With multi-tenancy, for a cluster whose record has an ID: each command that is run is about the main
-- cluster and the namespace of the cluster's own tenant, and asks for a secret by its own name only if
-- that has the prefix "cattle-credentials-"; a token that is returned is not empty, and is what the
-- last command printed, trimmed and decoded.
pub extract_service_account_token-IsAt :
    (run : Get → Option Text) (decode : Text → Option Text) (kubeconfig_exists : Bool)
    (main_name : Text) (c : KwokCluster)
    → c.cluster_id ≢ []
    → All
        (IsAt main_name (tenant_namespace c.cluster_id))
        (extract_service_account_token run decode kubeconfig_exists true main_name c).0
      × IsRead run decode
          (extract_service_account_token run decode kubeconfig_exists true main_name c).0
          (extract_service_account_token run decode kubeconfig_exists true main_name c).1
unfolding extract_service_account_token
extract_service_account_token-IsAt run decode false main_name c i = (tt, tt)
extract_service_account_token-IsAt run decode true main_name c i =
    let t = target true main_name c in
    let (own, read) = find_output-IsAt run decode t in
    (
      subst (λ (u : Target). All (IsAt u.kube_name u.namespace) (find_output run t).0)
          (target-own main_name c i) own,
      read,
    )
