-- ===== src/MockApi/Handlers.antt =====
-- The handlers of the mock API server: main.go.
use scale_cluster_agent.MockApi.{
  ApiObject, Spaces, MockStore, MockEnv, ensure_ns, create_role, create_role_binding, next_rv,
  token_type,
}
use scale_cluster_agent.Import.Value.{
  string, object, Fields, no_field, field, Values, no_value, value, get, set, as_string, as_object,
  as_array, text_at,
}
use scale_cluster_agent.Strings.{has_prefix, split}
use scale_cluster_agent.Prelude.Dict.{Dict, lookup, insert}
use scale_cluster_agent.Prelude.{
  ℕ, ◌+◌, Bool, ◌&&◌, ◌||◌, List, [], ◌∷◌, ◌++◌, Option, none, some, Text, text_eq, codes, ◌==◌,
  length, drop, if◌then◌else◌,
}

-- What the decoder of JSON makes of a body into a map: an error, the nil map for null, or a map.
pub data Body : Type 0 where
  bad : Body
  null : Body
  decoded : Fields → Body

-- A request
pub record Request : Type 0 where
  pub method : Text
  pub path : Text
  pub is_watch : Bool
  pub payload : Body

-- An event of a watch
pub data Event : Type 0 where
  added : ApiObject → Event
  modified : ApiObject → Event

-- writeWatchStream, up to the end of the client
unfoldable pub watch_events : List ApiObject → List Event
unfolding get text_eq
watch_events [] = []
watch_events (o ∷ os) =
    let again =
      (o.kind == codes "Secret" && text_at (codes "type") o.rest == token_type)
      || o.kind == codes "ServiceAccount" in
    let rest = watch_events os in if again then added o ∷ modified o ∷ rest else added o ∷ rest

-- A status with an error, an object, the null that a nil map becomes, a list of objects of a kind, a list that
-- has `resources` only, the page of http.NotFound, the events of a watch, or the APIResourceList.
pub data Reply : Type 0 where
  failure : ℕ → Text → Reply
  one : ℕ → ApiObject → Reply
  no_object : ℕ → Reply
  listed : Text → List ApiObject → Reply
  resources_only : Text → Reply
  not_found : Reply
  stream : List Event → Reply
  resource_kinds : Reply

abbrev pub values_of : Dict Text ApiObject → List ApiObject
values_of [] = []
values_of ((k, o) ∷ d) = o ∷ values_of d

-- The objects of all namespaces, and of one
abbrev pub all_objects : Spaces → List ApiObject
all_objects [] = []
all_objects ((ns, d) ∷ m) = values_of d ++ all_objects m

abbrev pub objects_in : Text → Spaces → List ApiObject
objects_in ns m = elim (lookup ns m) [ none ↦ [] | some d ↦ values_of d ]

-- md, _ := obj["metadata"].(map[string]interface{}), or a new one
abbrev pub meta_in : Fields → Fields
meta_in obj = elim (as_object (get (codes "metadata") obj)) [ none ↦ no_field | some md ↦ md ]

-- The name of an object that is posted, drawn where there is only generateName, and the draws
unfoldable pub posted_name : MockEnv → Fields → MockStore → Text × MockStore
unfolding get text_eq
posted_name env obj s =
    let name = text_at (codes "name") (meta_in obj) in
    let generated = text_at (codes "generateName") (meta_in obj) in
    if name == []
    then (if generated == []
        then ([], s)
        else (generated ++ env.random s.drawn 5, record s { drawn = s.drawn + 1 }))
    else (name, s)

-- The namespace and the name of the first subject, with their defaults
unfoldable pub first_subject : Text → Fields → Text × Text
unfolding get
first_subject ns obj = elim (as_array (get (codes "subjects") obj)) [
  | none ↦ (ns, codes "cattle")
  | some vs ↦ elim vs [
    | no_value ↦ (ns, codes "cattle")
    | value v ws ↦ elim (as_object (some v)) [
      | none ↦ (ns, codes "cattle")
      | some subj ↦
          let sa_ns : Text = elim (as_string (get (codes "namespace") subj)) [
            | none ↦ ns
            | some n ↦ n
          ] in
          let sa_name : Text = elim (as_string (get (codes "name") subj)) [
            | none ↦ codes "cattle"
            | some n ↦ n
          ] in
          (sa_ns, sa_name)
    ]
  ]
]

abbrev pub role_name : Fields → Text
role_name obj = elim (as_object (get (codes "roleRef") obj)) [
  | none ↦ []
  | some ref ↦ text_at (codes "name") ref
]

-- What a handler leaves, and its reply; `none` is a panic.
abbrev pub Served : Type 0
Served = Option (MockStore × Reply)

-- A created object, with 201
abbrev pub created : Option (MockStore × ApiObject) → Served
created none = none
created (some (s, o)) = some (s, one 201 o)

-- POST of a role binding into a namespace
unfoldable pub post_binding : MockEnv → Text → Body → MockStore → Served
unfolding posted_name first_subject create_role_binding text_eq
post_binding env ns bad s = some (s, failure 400 (codes "bad json"))
post_binding env ns null s = none
post_binding env ns (decoded obj) s =
    let (name, s') = posted_name env obj s in
    let (sa_ns, sa_name) = first_subject ns obj in
    if name == []
    then some (s', failure 400 (codes "name required"))
    else created (create_role_binding env ns name (role_name obj) sa_ns sa_name s')

-- POST of a role into a namespace
unfoldable pub post_role : MockEnv → Text → Body → MockStore → Served
unfolding posted_name create_role get text_eq
post_role env ns bad s = some (s, failure 400 (codes "bad json"))
post_role env ns null s = none
post_role env ns (decoded obj) s =
    let (name, s') = posted_name env obj s in
    let rules : Values = elim (as_array (get (codes "rules") obj)) [
      | none ↦ no_value
      | some vs ↦ vs
    ] in
    if name == []
    then some (s', failure 400 (codes "name required"))
    else created (create_role env ns name rules s')

abbrev pub spaces_prefix : Text
spaces_prefix = codes "/apis/rbac.authorization.k8s.io/v1/namespaces/"

-- strings.Split(strings.TrimPrefix(path, prefix), "/")
unfoldable pub parts_of : Text → List Text
unfolding has_prefix split
parts_of path =
    let rest = if has_prefix path spaces_prefix then drop (length spaces_prefix) path else path in
    split rest b'/'

-- The namespace of a role binding that is posted to the path without one
unfoldable pub path_space : Text → Text
unfolding parts_of text_eq
path_space path = elim (parts_of path) [
  | [] ↦ codes "default"
  | p ∷ ps ↦ if p == [] then codes "default" else p
]

-- /apis/rbac.authorization.k8s.io/v1/rolebindings
unfoldable pub bindings_handler : MockEnv → Request → MockStore → Served
unfolding watch_events post_binding path_space text_eq
bindings_handler env r s =
    let all = all_objects s.bindings in
    if r.method == codes "POST"
    then post_binding env (path_space r.path) r.payload s
    else if r.is_watch
    then some (s, stream (watch_events all))
    else some (s, listed (codes "RoleBindingList") all)

-- /apis/rbac.authorization.k8s.io/v1/roles
unfoldable pub roles_handler : Request → MockStore → Served
unfolding watch_events
roles_handler r s =
    if r.is_watch
    then some (s, stream (watch_events (all_objects s.roles)))
    else some (s, resources_only (codes "RoleList"))

-- PUT and PATCH of a namespace
unfoldable pub replace_space : Text → Body → MockStore → Served
unfolding set get insert text_eq
replace_space ns bad s = some (s, failure 400 (codes "bad json"))
replace_space ns null s = none
replace_space ns (decoded obj) s =
    let o : ApiObject = record {
      kind = codes "Namespace";
      meta = set (codes "name") (string ns) (meta_in obj);
      version = next_rv s.rv;
      rest =
          field (codes "status") (object (field (codes "phase") (string (codes "Active")) no_field))
            no_field;
    } in
    some (record s { spaces = insert ns o s.spaces; rv = next_rv s.rv }, one 200 o)

-- GET of a namespace, which was ensured
unfoldable pub found_space : Text → MockStore → Reply
unfolding lookup
found_space ns s = elim (lookup ns s.spaces) [ none ↦ no_object 200 | some o ↦ one 200 o ]

-- A namespace itself
unfoldable pub space_handler : Request → Text → MockStore → Served
unfolding replace_space found_space text_eq
space_handler r ns s =
    if r.method == codes "GET"
    then some (s, found_space ns s)
    else if r.method == codes "PUT" || r.method == codes "PATCH"
    then replace_space ns r.payload s
    else some (s, failure 405 (codes "method not allowed"))

-- The roles and the role bindings of a namespace that was ensured
unfoldable pub resource_handler : MockEnv → Request → Text → Text → MockStore → Served
unfolding watch_events post_role post_binding lookup text_eq
resource_handler env r ns res s =
    let roles_reply =
      if r.is_watch
      then stream (watch_events (objects_in ns s.roles))
      else resources_only (codes "RoleList") in
    let bound = objects_in ns s.bindings in
    let bindings_reply =
      if r.is_watch then stream (watch_events bound) else listed (codes "RoleBindingList") bound in
    if res == codes "roles"
    then (if r.method == codes "POST" then post_role env ns r.payload s else some (s, roles_reply))
    else if res == codes "rolebindings"
    then (if r.method == codes "POST"
        then post_binding env ns r.payload s
        else some (s, bindings_reply))
    else some (s, not_found)

-- A namespace, where its name is not empty
unfoldable pub named_space : MockEnv → Request → Text → MockStore → Served
unfolding space_handler ensure_ns text_eq
named_space env r ns s =
    if ns == [] then some (s, not_found) else space_handler r ns (ensure_ns env ns s)

-- The parts of the path after the prefix: a name, and what of it
unfoldable pub dispatch : MockEnv → Request → List Text → MockStore → Served
unfolding named_space resource_handler ensure_ns text_eq
dispatch env r [] s = some (s, not_found)
dispatch env r (ns ∷ []) s = named_space env r ns s
dispatch env r (ns ∷ res ∷ ps) s =
    if res == [] then named_space env r ns s else resource_handler env r ns res (ensure_ns env ns s)

-- /apis/rbac.authorization.k8s.io/v1/namespaces/
unfoldable pub spaces_handler : MockEnv → Request → MockStore → Served
unfolding parts_of dispatch
spaces_handler env r s = dispatch env r (parts_of r.path) s

-- The lists of the core kinds, of all namespaces
abbrev pub list_reply : Text → Request → List ApiObject → Reply
list_reply kind r os = if r.is_watch then stream (watch_events os) else listed kind os

-- The patterns that the mux knows; it is the mux that finds a request's.
pub data Route : Type 0 where
  rbac_kinds : Route
  all_roles : Route
  all_bindings : Route
  rbac_spaces : Route
  quotas : Route
  limits : Route
  all_accounts : Route
  all_secrets : Route
  nodes : Route

-- The handler of a pattern; `node` is the one node.
unfoldable pub serve : MockEnv → ApiObject → Route → Request → MockStore → Served
unfolding watch_events roles_handler bindings_handler spaces_handler
serve env node rbac_kinds r s = some (s, resource_kinds)
serve env node all_roles r s = roles_handler r s
serve env node all_bindings r s = bindings_handler env r s
serve env node rbac_spaces r s = spaces_handler env r s
serve env node quotas r s = some (s, list_reply (codes "ResourceQuotaList") r [])
serve env node limits r s = some (s, list_reply (codes "LimitRangeList") r [])
serve env node all_accounts r s =
    some (s, list_reply (codes "ServiceAccountList") r (all_objects s.accounts))
serve env node all_secrets r s = some (s, list_reply (codes "SecretList") r (all_objects s.held))
serve env node nodes r s = some (s, list_reply (codes "NodeList") r (node ∷ []))
