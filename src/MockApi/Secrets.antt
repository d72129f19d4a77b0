-- ===== src/MockApi/Secrets.antt =====
-- createSecret of main.go's startMockHTTPSAPIServer, and the objects that are there at its start.
use scale_cluster_agent.MockApi.{
  ApiObject, Spaces, MockStore, MockEnv, next_rv, metadata, inner, put_in, named_secret, token_type,
  uid_of, ensure_ns, create_role, create_service_account, create_cluster_role,
  create_cluster_role_binding,
}
use scale_cluster_agent.Import.Value.{
  Value, string, object, array, Fields, no_field, field, Values, no_value, value, get, set,
  as_array,
}
use scale_cluster_agent.Prelude.Dict.{Dict, lookup, insert}
use scale_cluster_agent.Prelude.{
  ℕ, ◌+◌, List, [], ◌∷◌, ◌++◌, Option, none, some, Text, text_eq, codes, ◌==◌, if◌then◌else◌,
}

abbrev pub account_key : Text
account_key = codes "kubernetes.io/service-account.name"

abbrev pub uid_key : Text
uid_key = codes "kubernetes.io/service-account.uid"

-- The name of a secret, drawn where it is empty, and the draws
unfoldable pub secret_name : MockEnv → Text → Dict Text Text → ℕ → Text × ℕ
unfolding lookup text_eq
secret_name env name ann drawn =
    if name == []
    then elim (lookup account_key ann) [
      | none ↦ (codes "secret-" ++ env.random drawn 6, drawn + 1)
      | some sa ↦ (sa ++ (codes "-token-" ++ env.random drawn 5), drawn + 1)
    ]
    else (name, drawn)

-- if _, ok := m[k]; !ok { m[k] = v }
unfoldable pub add_missing : Text → Text → Dict Text Text → Dict Text Text
unfolding lookup insert
add_missing k v m = elim (lookup k m) [ none ↦ insert k v m | some w ↦ m ]

unfoldable pub token_annotations : MockEnv → Dict Text Text → Dict Text Text
unfolding add_missing lookup
token_annotations env ann = elim (lookup account_key ann) [
  | none ↦ ann
  | some sa ↦ add_missing uid_key (uid_of env (codes "sa-" ++ sa)) ann
]

-- The data of a token, whose text is drawn where there is none
unfoldable pub token_data : MockEnv → Text → Dict Text Text → ℕ → Dict Text Text × ℕ
unfolding add_missing lookup
token_data env ns held drawn =
    let with_rest : Dict Text Text → Dict Text Text =
      λ d. add_missing (codes "namespace") ns (add_missing (codes "ca.crt") env.cert d) in
    elim (lookup (codes "token") held) [
      | none ↦
          (with_rest (insert (codes "token") (codes "tok-" ++ env.random drawn 32) held), drawn + 1)
      | some t ↦ (with_rest held, drawn)
    ]

abbrev pub fields_of : (Text → Text) → Dict Text Text → Fields
fields_of f [] = no_field
fields_of f ((k, v) ∷ d) = field k (string (f v)) (fields_of f d)

abbrev pub append_value : Values → Value → Values
append_value no_value v = value v no_value
append_value (value w ws) v = value w (append_value ws v)

-- An account with one more secret
unfoldable pub with_secret : Text → ApiObject → ApiObject
unfolding get set
with_secret name account =
    let held = elim (as_array (get (codes "secrets") account.rest)) as (λ _. Values) [
      | none ↦ value (named_secret name) no_value
      | some arr ↦ append_value arr (named_secret name)
    ] in
    record account { rest = set (codes "secrets") (array held) account.rest }

-- The account that a token's annotations name gets its secret, where there is one.
unfoldable pub attach : Text → Text → Dict Text Text → Spaces → Spaces
unfolding with_secret lookup insert
attach ns name ann m = elim (lookup account_key ann) [
  | none ↦ m
  | some sa ↦ elim (lookup sa (inner ns m)) [
    | none ↦ m
    | some account ↦ insert ns (insert sa (with_secret name account) (inner ns m)) m
  ]
]

abbrev pub secret_of :
    MockEnv → Text → Text → Text → Dict Text Text → Dict Text Text → ℕ → ApiObject
secret_of env ns name kind ann held version = record {
  kind = codes "Secret";
  meta = metadata env name (ns ++ (codes "-secret-" ++ name)) (
      field (codes "namespace") (string ns)
        (field (codes "annotations") (object (fields_of (λ t. t) ann)) no_field));
  version = version;
  rest =
      field (codes "type") (string kind)
        (field (codes "data") (object (fields_of env.encode held)) no_field);
}

-- createSecret once the name is known, with the draws so far
unfoldable pub put_secret :
    MockEnv
    → Text
    → Text
    → Dict Text Text
    → Dict Text Text
    → MockStore
    → Text × ℕ
    → Option MockStore
unfolding token_annotations token_data attach put_in text_eq
put_secret env ns kind held annotations s (name, drawn) =
    let is_token = kind == token_type in
    let ann = if is_token then token_annotations env annotations else annotations in
    let (full, drawn') = if is_token then token_data env ns held drawn else (held, drawn) in
    let accounts = if is_token then attach ns name ann s.accounts else s.accounts in
    elim (put_in ns name (secret_of env ns name kind ann full (next_rv s.rv)) s.held) [
      | none ↦ none
      | some m ↦
          some (record s { held = m; accounts = accounts; rv = next_rv s.rv; drawn = drawn' })
    ]

-- createSecret
unfoldable pub create_secret :
    MockEnv → Text → Text → Text → Dict Text Text → Dict Text Text → MockStore → Option MockStore
unfolding put_secret secret_name ensure_ns
create_secret env ns given kind held ann before =
    let s = ensure_ns env ns before in
    put_secret env ns kind held ann s (secret_name env given ann s.drawn)

-- The next of the calls that fill the store, unless one panicked; their results are not used.
abbrev pub and_then : {A : Type 0} → Option MockStore → (MockStore → Option A) → Option A
and_then none f = none
and_then (some s) f = f s

abbrev pub store_of : Option (MockStore × ApiObject) → Option MockStore
store_of none = none
store_of (some (s, o)) = some s

abbrev pub texts : List Text → Values
texts [] = no_value
texts (t ∷ ts) = value (string t) (texts ts)

abbrev pub rule : List Text → List Text → List Text → Values
rule groups kinds verbs =
    value
      (object (
        field (codes "apiGroups") (array (texts groups)) (
          field (codes "resources") (array (texts kinds))
            (field (codes "verbs") (array (texts verbs)) no_field))))
      no_value

abbrev pub any_rule : Values
any_rule = rule (codes "*" ∷ []) (codes "*" ∷ []) (codes "*" ∷ [])

abbrev pub empty_store : MockStore
empty_store = record {
  spaces = [];
  accounts = [];
  held = [];
  cluster_roles = [];
  cluster_bindings = [];
  roles = [];
  bindings = [];
  rv = 1;
  drawn = 0;
}

abbrev pub first_spaces : MockEnv → List Text → MockStore → MockStore
first_spaces env [] s = s
first_spaces env (ns ∷ more) s = first_spaces env more (ensure_ns env ns s)

abbrev pub system_ns : Text
system_ns = codes "cattle-system"

abbrev pub fleet_ns : Text
fleet_ns = codes "cattle-fleet-system"

abbrev pub impersonation_ns : Text
impersonation_ns = codes "cattle-impersonation-system"

abbrev pub impersonated : Text
impersonated = codes "cattle-impersonation-user-8kn8j"

-- A seeded token, of an account
unfoldable pub seed_token : MockEnv → Text → Text → Text → MockStore → Option MockStore
unfolding create_secret
seed_token env ns name account s =
    create_secret env ns name token_type ((codes "token", codes "token") ∷ [])
      ((account_key, account) ∷ []) s

-- The store that the server starts with
unfoldable pub seeded : MockEnv → Option MockStore
unfolding seed_token create_secret create_role create_service_account create_cluster_role
    create_cluster_role_binding
seeded env =
    let s0 =
      first_spaces env (codes "kube-system" ∷ system_ns ∷ impersonation_ns ∷ fleet_ns ∷ [])
        empty_store in
    let read =
      rule ([] ∷ []) (codes "secrets" ∷ codes "serviceaccounts" ∷ [])
        (codes "get" ∷ codes "list" ∷ codes "watch" ∷ []) in
    and_then (store_of (create_role env system_ns (codes "cattle-minimal") read s0)) λ s1.
      and_then (store_of (create_service_account env system_ns (codes "cattle") s1)) λ s2.
        and_then (store_of (create_service_account env fleet_ns (codes "fleet-agent") s2)) λ s3.
          and_then (store_of (create_service_account env impersonation_ns impersonated s3)) λ s4.
            and_then
              (seed_token env impersonation_ns (impersonated ++ codes "-token-seeded") impersonated
                s4)
              λ s5.
                and_then (seed_token env system_ns (codes "cattle-token-abcde") (codes "cattle") s5)
                  λ s6.
                    and_then
                      (create_secret env system_ns (codes "cattle-credentials-mock")
                        (codes "Opaque")
                        ((codes "username", codes "admin")
                          ∷ (codes "password", codes "password")
                          ∷ [])
                        [] s6)
                      λ s7. some (
                        create_cluster_role_binding env (codes "cattle-admin-binding")
                          (codes "cattle-admin") system_ns (codes "cattle")
                          (create_cluster_role env (codes "cluster-admin") any_rule
                            (create_cluster_role env (codes "cattle-admin") any_rule s7)))

-- The one node and the store after it
unfoldable pub node_of : MockEnv → MockStore → ApiObject × MockStore
node_of env s =
    let o : ApiObject = record {
      kind = codes "Node";
      meta = metadata env (codes "mock-node") (codes "node-mock-node") no_field;
      version = next_rv s.rv;
      rest =
          field (codes "status") (object (field (codes "conditions") (array no_value) no_field))
            no_field;
    } in
    (o, record s { rv = next_rv s.rv })
