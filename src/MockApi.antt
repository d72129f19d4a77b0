-- ===== src/MockApi.antt =====
-- startMockHTTPSAPIServer of main.go, which nothing calls: the objects that the mock API server keeps and
-- the functions that create them. A write to a map that is not there, a panic of Go, is `none`.
pub mod Handlers
pub mod Secrets
pub mod Served
pub mod Stored
pub mod Tokens
pub mod Watched
use scale_cluster_agent.Import.Value.{
  Value, string, scalar, object, array, Fields, no_field, field, Values, no_value, value, set,
}
use scale_cluster_agent.Prelude.Dict.{Dict, lookup, insert}
use scale_cluster_agent.Prelude.{
  ℕ, suc, ◌+◌, ◌%◌, Bool, true, false, ◌&&◌, List, [], ◌∷◌, ◌++◌, Option, none, some, Text, text_eq,
  codes, ◌==◌, if◌then◌else◌,
}

-- An object; `version` is its metadata.resourceVersion, whatever `meta` has there, and `rest` is what it has
-- at its top level beside the kind and the metadata.
pub record ApiObject : Type 0 where
  pub kind : Text
  pub meta : Fields
  pub version : ℕ
  pub rest : Fields

abbrev pub Spaces : Type 0
Spaces = Dict Text (Dict Text ApiObject)

-- The maps, the counter of versions, and the number of random suffixes that were drawn.
pub record MockStore : Type 0 where
  pub spaces : Dict Text ApiObject
  pub accounts : Spaces
  pub held : Spaces
  pub cluster_roles : Dict Text ApiObject
  pub cluster_bindings : Dict Text ApiObject
  pub roles : Spaces
  pub bindings : Spaces
  pub rv : ℕ
  pub drawn : ℕ

-- The hash of a name in hexadecimal, the time, the suffix of a draw with a length, the certificate, and
-- base64.
pub record MockEnv : Type 0 where
  pub hash : Text → Text
  pub now : Text
  pub random : ℕ → ℕ → Text
  pub cert : Text
  pub encode : Text → Text

-- nextRV; the counter is a uint64.
abbrev pub next_rv : ℕ → ℕ
next_rv rv = (rv + 1) % 18446744073709551616

-- genUID
abbrev pub uid_of : MockEnv → Text → Text
uid_of env name = name ++ (b'-' ∷ env.hash name)

-- The metadata that every object gets
abbrev pub metadata : MockEnv → Text → Text → Fields → Fields
metadata env name uid more = field (codes "name") (string name) (
    field (codes "uid") (string (uid_of env uid))
      (field (codes "creationTimestamp") (string env.now) more))

abbrev pub in_space : Text → Fields
in_space ns = field (codes "namespace") (string ns) no_field

-- serviceAccounts[ns], where there is such a map
abbrev pub inner : Text → Spaces → Dict Text ApiObject
inner ns m = elim (lookup ns m) [ none ↦ [] | some d ↦ d ]

-- if _, ok := m[ns]; !ok { m[ns] = … }
unfoldable pub ensure_map : Text → Spaces → Spaces
unfolding lookup insert
ensure_map ns m = elim (lookup ns m) [ none ↦ insert ns [] m | some d ↦ m ]

-- m[ns][name] = o
unfoldable pub put_in : Text → Text → ApiObject → Spaces → Option Spaces
unfolding lookup insert
put_in ns name o m = elim (lookup ns m) [
  | none ↦ none
  | some d ↦ some (insert ns (insert name o d) m)
]

abbrev pub named_secret : Text → Value
named_secret name = object (field (codes "name") (string name) no_field)

abbrev pub account_of : MockEnv → Text → Text → Values → ℕ → ApiObject
account_of env ns name held version = record {
  kind = codes "ServiceAccount";
  meta = metadata env name (ns ++ (codes "-sa-" ++ name)) (in_space ns);
  version = version;
  rest = field (codes "secrets") (array held) no_field;
}

abbrev pub token_type : Text
token_type = codes "kubernetes.io/service-account-token"

-- The secret of the default account of a new namespace
abbrev pub default_secret : MockEnv → Text → Text → Text → ℕ → ApiObject
default_secret env ns name token version = record {
  kind = codes "Secret";
  meta = metadata env name (ns ++ (codes "-secret-" ++ name)) (
      field (codes "namespace") (string ns) (
        field (codes "annotations")
          (object (
            field (codes "kubernetes.io/service-account.name") (string (codes "default")) (
              field (codes "kubernetes.io/service-account.uid")
                (string (uid_of env (codes "sa-default"))) no_field)))
          no_field));
  version = version;
  rest = field (codes "type") (string token_type) (
      field (codes "data")
        (object (
          field (codes "token") (string (env.encode (codes "tok-" ++ token))) (
            field (codes "ca.crt") (string (env.encode env.cert))
              (field (codes "namespace") (string (env.encode ns)) no_field))))
        no_field);
}

-- The default account with its secret, which takes two versions and two draws
unfoldable pub add_default : MockEnv → Text → MockStore → MockStore
unfolding insert
add_default env ns s =
    let secret = codes "default-token-" ++ env.random s.drawn 5 in
    let token = env.random (s.drawn + 1) 32 in
    let account =
      account_of env ns (codes "default") (value (named_secret secret) no_value) (next_rv s.rv) in
    let o = default_secret env ns secret token (next_rv (next_rv s.rv)) in
    record s {
      accounts = insert ns (insert (codes "default") account (inner ns s.accounts)) s.accounts;
      held = insert ns (insert secret o (inner ns s.held)) s.held;
      rv = next_rv (next_rv s.rv);
      drawn = s.drawn + 2;
    }

abbrev pub space_of : MockEnv → Text → ℕ → ApiObject
space_of env ns version = record {
  kind = codes "Namespace";
  meta = metadata env ns ns no_field;
  version = version;
  rest =
      field (codes "status") (object (field (codes "phase") (string (codes "Active")) no_field))
        no_field;
}

-- What is done for a namespace that is not there
unfoldable pub add_space : MockEnv → Text → MockStore → MockStore
unfolding ensure_map add_default insert lookup
add_space env ns s =
    let added = record s {
      spaces = insert ns (space_of env ns (next_rv s.rv)) s.spaces;
      accounts = ensure_map ns s.accounts;
      held = ensure_map ns s.held;
      rv = next_rv s.rv;
    } in
    elim (lookup (codes "default") (inner ns added.accounts)) [
      | none ↦ add_default env ns added
      | some o ↦ added
    ]

-- The four maps of a namespace
unfoldable pub with_maps : Text → MockStore → MockStore
unfolding ensure_map
with_maps ns s = record s {
  accounts = ensure_map ns s.accounts;
  held = ensure_map ns s.held;
  roles = ensure_map ns s.roles;
  bindings = ensure_map ns s.bindings;
}

-- ensureNS
unfoldable pub ensure_ns : MockEnv → Text → MockStore → MockStore
unfolding with_maps add_space lookup
ensure_ns env ns s = elim (lookup ns s.spaces) [
  | none ↦ with_maps ns (add_space env ns s)
  | some o ↦ with_maps ns s
]

-- createRole; the counter goes up for the version.
unfoldable pub create_role :
    MockEnv → Text → Text → Values → MockStore → Option (MockStore × ApiObject)
unfolding ensure_ns put_in
create_role env ns name rules before =
    let s = ensure_ns env ns before in
    let o : ApiObject = record {
      kind = codes "Role";
      meta = metadata env name (codes "role-" ++ (ns ++ (b'-' ∷ name))) (in_space ns);
      version = next_rv s.rv;
      rest = field (codes "rules") (array rules) no_field;
    } in
    elim (put_in ns name o s.roles) [
      | none ↦ none
      | some m ↦ some (record s { roles = m; rv = next_rv s.rv }, o)
    ]

abbrev pub subject : Text → Text → Value
subject ns name = object (
    field (codes "kind") (string (codes "ServiceAccount"))
      (field (codes "name") (string name) (field (codes "namespace") (string ns) no_field)))

-- What a binding holds: the role and the one subject
abbrev pub binding_body : Text → Text → Text → Text → Fields
binding_body kind role ns name =
    field (codes "roleRef")
      (object (
        field (codes "apiGroup") (string (codes "rbac.authorization.k8s.io"))
          (field (codes "kind") (string kind) (field (codes "name") (string role) no_field))))
      (field (codes "subjects") (array (value (subject ns name) no_value)) no_field)

-- createRoleBinding
unfoldable pub create_role_binding :
    MockEnv → Text → Text → Text → Text → Text → MockStore → Option (MockStore × ApiObject)
unfolding ensure_ns put_in
create_role_binding env ns name role sa_ns sa_name before =
    let s = ensure_ns env ns before in
    let o : ApiObject = record {
      kind = codes "RoleBinding";
      meta = metadata env name (codes "rb-" ++ (ns ++ (b'-' ∷ name))) (in_space ns);
      version = next_rv s.rv;
      rest = binding_body (codes "Role") role sa_ns sa_name;
    } in
    elim (put_in ns name o s.bindings) [
      | none ↦ none
      | some m ↦ some (record s { bindings = m; rv = next_rv s.rv }, o)
    ]

-- createServiceAccount
unfoldable pub create_service_account :
    MockEnv → Text → Text → MockStore → Option (MockStore × ApiObject)
unfolding ensure_ns put_in
create_service_account env ns name before =
    let s = ensure_ns env ns before in
    let o = account_of env ns name no_value (next_rv s.rv) in
    elim (put_in ns name o s.accounts) [
      | none ↦ none
      | some m ↦ some (record s { accounts = m; rv = next_rv s.rv }, o)
    ]

-- createClusterRole and createClusterRoleBinding
unfoldable pub create_cluster_role : MockEnv → Text → Values → MockStore → MockStore
unfolding insert
create_cluster_role env name rules s =
    let o : ApiObject = record {
      kind = codes "ClusterRole";
      meta = metadata env name (codes "cr-" ++ name) no_field;
      version = next_rv s.rv;
      rest = field (codes "rules") (array rules) no_field;
    } in
    record s { cluster_roles = insert name o s.cluster_roles; rv = next_rv s.rv }

unfoldable pub create_cluster_role_binding :
    MockEnv → Text → Text → Text → Text → MockStore → MockStore
unfolding insert
create_cluster_role_binding env name role sa_ns sa_name s =
    let o : ApiObject = record {
      kind = codes "ClusterRoleBinding";
      meta = metadata env name (codes "crb-" ++ name) no_field;
      version = next_rv s.rv;
      rest = binding_body (codes "ClusterRole") role sa_ns sa_name;
    } in
    record s { cluster_bindings = insert name o s.cluster_bindings; rv = next_rv s.rv }
