-- ===== src/MockApi/Stored.antt =====
-- Writes to the store of main.go's mock API server.
use mathlib.Core.Path.{◌≡◌, refl}
use scale_cluster_agent.MockApi.{
  ApiObject, Spaces, MockStore, MockEnv, inner, ensure_map, put_in, add_default, add_space,
  with_maps, ensure_ns, create_role, create_role_binding, space_of, next_rv, metadata, in_space,
  binding_body,
}
use scale_cluster_agent.Import.Value.{get, text_at, Values, array, no_field, field}
use scale_cluster_agent.Prelude.Dict.{Dict, lookup, insert, lookup-insert}
use scale_cluster_agent.Prelude.{
  ℕ, [], ◌∷◌, Option, none, some, Text, text_eq, codes, ◌++◌, ◌==◌, if◌then◌else◌, arith,
  Option-cases, Bool-cases, inl, inr, ◌&&◌, sym, ◌∙◌, subst,
}

-- m[ns][name]
unfoldable pub find : Text → Text → Spaces → Option ApiObject
unfolding lookup
find ns name m = elim (lookup ns m) [ none ↦ none | some d ↦ lookup name d ]

pub lookup-ensure_map :
    (j ns : Text) (m : Spaces)
    → lookup j (ensure_map ns m)
      ≡ elim (lookup ns m) [ none ↦ if ns == j then some [] else lookup j m | some d ↦ lookup j m ]
unfolding ensure_map
lookup-ensure_map j ns m = ground (arith, lookup-insert j ns [] m)

pub find-ensure_map : (j n ns : Text) (m : Spaces) → find j n (ensure_map ns m) ≡ find j n m
unfolding find lookup
find-ensure_map j n ns m = ground (arith, lookup-ensure_map j ns m)

-- What put_in writes, where the map of the namespace is there
pub put_in-find :
    (ns name : Text) (o : ApiObject) (m : Spaces) (d : Dict Text ApiObject)
    → lookup ns m ≡ some d
    → (m' : Spaces) × (put_in ns name o m ≡ some m')
      × ((j n : Text)
          → find j n m'
            ≡ (if ns == j then (if name == n then some o else find j n m) else find j n m))
unfolding put_in find
put_in-find ns name o m d t = (
  insert ns (insert name o d) m,
  ground (arith, t),
  λ j n. ground (arith, lookup-insert j ns (insert name o d) m, lookup-insert n name o d),
)

-- The map of the namespace is there after ensure_map.
pub ensure_map-inner :
    (ns : Text) (m : Spaces) → (d : Dict Text ApiObject) × (lookup ns (ensure_map ns m) ≡ some d)
ensure_map-inner ns m = elim (Option-cases (lookup ns m)) [
  | inl t ↦ ([], ground (arith, lookup-ensure_map ns ns m))
  | inr (d, t) ↦ (d, ground (arith, lookup-ensure_map ns ns m))
]

-- What is in the first is in the second, perhaps as another object.
abbrev pub Grows : Spaces → Spaces → Type 0
Grows m m' = (j n : Text) → find j n m' ≡ none → find j n m ≡ none

pub Grows-trans : (m m' m'' : Spaces) → Grows m m' → Grows m' m'' → Grows m m''
Grows-trans m m' m'' g h j n t = g j n (h j n t)

pub ensure_map-Grows : (ns : Text) (m : Spaces) → Grows m (ensure_map ns m)
ensure_map-Grows ns m j n t = ground (arith, find-ensure_map j n ns m)

-- A write of one name into the map of a namespace, or into a new one
pub insert-Grows :
    (ns name : Text) (o : ApiObject) (m : Spaces)
    → Grows m (insert ns (insert name o (inner ns m)) m)
unfolding find lookup
insert-Grows ns name o m j n t =
    ground (
      arith,
      lookup-insert j ns (insert name o (inner ns m)) m,
      lookup-insert n name o (inner ns m),
    )

-- An object with this name in this namespace
abbrev pub IsOf : Text → Text → ApiObject → Type 0
IsOf ns name o = (text_at (codes "name") o.meta ≡ name) × (text_at (codes "namespace") o.meta ≡ ns)

-- What is found under a name in a namespace has this name and namespace.
abbrev pub NamedAt : Text → Text → Spaces → Type 0
NamedAt ns name m = (o : ApiObject) → find ns name m ≡ some o → IsOf ns name o

-- Nothing of the first store is gone in the second, and a role binding that has the name and the namespace
-- that it is found under is not replaced by one that has not.
pub record Keeps (s s' : MockStore) : Type 0 where
  pub spaces_in : (ns : Text) → lookup ns s'.spaces ≡ none → lookup ns s.spaces ≡ none
  pub accounts_in : Grows s.accounts s'.accounts
  pub secrets_in : Grows s.held s'.held
  pub roles_in : Grows s.roles s'.roles
  pub bindings_in : Grows s.bindings s'.bindings
  pub bindings_named : (j n : Text) → NamedAt j n s.bindings → NamedAt j n s'.bindings

pub Keeps-refl : (s : MockStore) → Keeps s s
Keeps-refl s = record {
  spaces_in = λ ns t. t;
  accounts_in = λ j n t. t;
  secrets_in = λ j n t. t;
  roles_in = λ j n t. t;
  bindings_in = λ j n t. t;
  bindings_named = λ j n h. h;
}

pub Keeps-trans : (s s' s'' : MockStore) → Keeps s s' → Keeps s' s'' → Keeps s s''
Keeps-trans s s' s'' g h = record {
  spaces_in = λ ns t. g.spaces_in ns (h.spaces_in ns t);
  accounts_in = λ j n t. g.accounts_in j n (h.accounts_in j n t);
  secrets_in = λ j n t. g.secrets_in j n (h.secrets_in j n t);
  roles_in = λ j n t. g.roles_in j n (h.roles_in j n t);
  bindings_in = λ j n t. g.bindings_in j n (h.bindings_in j n t);
  bindings_named = λ j n k. h.bindings_named j n (g.bindings_named j n k);
}

pub with_maps-Keeps : (ns : Text) (s : MockStore) → Keeps s (with_maps ns s)
unfolding with_maps
with_maps-Keeps ns s = record {
  spaces_in = λ j t. t;
  accounts_in = ensure_map-Grows ns s.accounts;
  secrets_in = ensure_map-Grows ns s.held;
  roles_in = ensure_map-Grows ns s.roles;
  bindings_in = ensure_map-Grows ns s.bindings;
  bindings_named = λ j n h o t. h o (sym (find-ensure_map j n ns s.bindings) ∙ t);
}

pub add_default-Keeps : (env : MockEnv) (ns : Text) (s : MockStore) → Keeps s (add_default env ns s)
unfolding add_default
add_default-Keeps env ns s = record {
  spaces_in = λ j t. t;
  accounts_in = insert-Grows ns _ _ s.accounts;
  secrets_in = insert-Grows ns _ _ s.held;
  roles_in = λ j n t. t;
  bindings_in = λ j n t. t;
  bindings_named = λ j n h. h;
}

-- A namespace itself, put in or replaced
pub put_space-Keeps :
    (ns : Text) (o : ApiObject) (v : ℕ) (s : MockStore)
    → Keeps s (record s { spaces = insert ns o s.spaces; rv = v })
put_space-Keeps ns o v s = record {
  spaces_in = λ j t. ground (arith, t, lookup-insert j ns o s.spaces);
  accounts_in = λ j n t. t;
  secrets_in = λ j n t. t;
  roles_in = λ j n t. t;
  bindings_in = λ j n t. t;
  bindings_named = λ j n h. h;
}

pub add_space-Keeps : (env : MockEnv) (ns : Text) (s : MockStore) → Keeps s (add_space env ns s)
unfolding add_space
add_space-Keeps env ns s =
    let o = space_of env ns (next_rv s.rv) in
    let added : MockStore = record s {
      spaces = insert ns o s.spaces;
      accounts = ensure_map ns s.accounts;
      held = ensure_map ns s.held;
      rv = next_rv s.rv;
    } in
    let first : Keeps s added = record {
      spaces_in = λ j t. ground (arith, t, lookup-insert j ns o s.spaces);
      accounts_in = ensure_map-Grows ns s.accounts;
      secrets_in = ensure_map-Grows ns s.held;
      roles_in = λ j n t. t;
      bindings_in = λ j n t. t;
      bindings_named = λ j n h. h;
    } in
    elim (lookup (codes "default") (inner ns added.accounts))
      as (λ o. Keeps s (elim o [ none ↦ add_default env ns added | some _ ↦ added ])) [
        | none ↦ Keeps-trans s added _ first (add_default-Keeps env ns added)
        | some o ↦ first
      ]

pub ensure_ns-Keeps : (env : MockEnv) (ns : Text) (s : MockStore) → Keeps s (ensure_ns env ns s)
unfolding ensure_ns
ensure_ns-Keeps env ns s =
    elim (lookup ns s.spaces)
      as (λ o.
        Keeps s (elim o [ none ↦ with_maps ns (add_space env ns s) | some _ ↦ with_maps ns s ])) [
          | none ↦
              Keeps-trans s _ _ (add_space-Keeps env ns s) (with_maps-Keeps ns (add_space env ns s))
          | some o ↦ with_maps-Keeps ns s
        ]

-- The roles and the bindings get a map for the namespace, and nothing else.
pub ensure_ns_roles :
    (env : MockEnv) (ns : Text) (s : MockStore)
    → ((ensure_ns env ns s).roles ≡ ensure_map ns s.roles)
      × ((ensure_ns env ns s).bindings ≡ ensure_map ns s.bindings)
unfolding ensure_ns with_maps add_space add_default
ensure_ns_roles env ns s = (ground arith, ground arith)

-- The second spaces are the first but for the object of one name in one namespace.
abbrev pub Written : Text → Text → ApiObject → Spaces → Spaces → Type 0
Written ns name o m m' =
    (j n : Text)
    → find j n m' ≡ (if ns == j then (if name == n then some o else find j n m) else find j n m)

pub Written-Grows :
    (ns name : Text) (o : ApiObject) (m m' : Spaces) → Written ns name o m m' → Grows m m'
Written-Grows ns name o m m' w j n t = ground (arith, t, w j n)

pub Written-self :
    (ns name : Text) (o : ApiObject) (m m' : Spaces)
    → Written ns name o m m'
    → find ns name m' ≡ some o
Written-self ns name o m m' w = let t = w ns name in ground (arith, t)

-- A write of an object that has the name and the namespace that it is written under
pub Written-NamedAt :
    (ns name : Text) (o : ApiObject) (m m' : Spaces)
    → Written ns name o m m'
    → IsOf ns name o
    → (j n : Text) → NamedAt j n m
    → NamedAt j n m'
Written-NamedAt ns name o m m' w (is_name, is_ns) j n h o' t =
    elim (Bool-cases (ns == j && name == n)) [
      | inr e ↦ let before : find j n m ≡ some o' = ground (arith, w j n, t, e) in h o' before
      | inl e ↦
          let same : o ≡ o' = ground (arith, w j n, t, e) in
          let at_ns : ns ≡ j = ground (arith, e) in
          let at_name : name ≡ n = ground (arith, e) in
          subst (λ x. IsOf j n x) same (is_name ∙ at_name, is_ns ∙ at_ns)
    ]

-- A write after the map of the namespace was made
pub put_in-Written :
    (ns name : Text) (o : ApiObject) (m : Spaces)
    → (m' : Spaces) × (put_in ns name o (ensure_map ns m) ≡ some m') × Written ns name o m m'
put_in-Written ns name o m =
    let (d, t) = ensure_map-inner ns m in
    let (m', e, w) = put_in-find ns name o (ensure_map ns m) d t in
    (m', e, λ j n. ground (arith, w j n, find-ensure_map j n ns m))

-- What a function that creates an object comes to: `part` is the part of the store that it writes.
abbrev pub Creates :
    (MockStore → Spaces) → Text → Text → MockStore → Option (MockStore × ApiObject) → Type 0
Creates part ns name s result =
    (s' : MockStore) × (o : ApiObject) × (result ≡ some (s', o))
    × IsOf ns name o
    × Written ns name o (part s) (part s')
    × Keeps s s'

pub create_role-Creates :
    (env : MockEnv) (ns name : Text) (rules : Values) (s : MockStore)
    → Creates (λ x. x.roles) ns name s (create_role env ns name rules s)
unfolding create_role get text_eq
create_role-Creates env ns name rules before =
    let s = ensure_ns env ns before in
    let kept = ensure_ns-Keeps env ns before in
    let o : ApiObject = record {
      kind = codes "Role";
      meta = metadata env name (codes "role-" ++ (ns ++ (b'-' ∷ name))) (in_space ns);
      version = next_rv s.rv;
      rest = field (codes "rules") (array rules) no_field;
    } in
    let (m', e, w) = put_in-Written ns name o before.roles in
    let e' : put_in ns name o s.roles ≡ some m' = rw (ensure_ns_roles env ns before).0 e in
    let named : IsOf ns name o = (refl, refl) in
    let s' : MockStore = record s { roles = m'; rv = next_rv s.rv } in
    (
      s',
      o,
      rw (create_role, e') refl,
      named,
      w,
      record {
        spaces_in = kept.spaces_in;
        accounts_in = kept.accounts_in;
        secrets_in = kept.secrets_in;
        roles_in = Written-Grows ns name o before.roles m' w;
        bindings_in = kept.bindings_in;
        bindings_named = kept.bindings_named;
      },
    )

pub create_role_binding-Creates :
    (env : MockEnv) (ns name role sa_ns sa_name : Text) (s : MockStore)
    → Creates (λ x. x.bindings) ns name s (create_role_binding env ns name role sa_ns sa_name s)
unfolding create_role_binding get text_eq
create_role_binding-Creates env ns name role sa_ns sa_name before =
    let s = ensure_ns env ns before in
    let kept = ensure_ns-Keeps env ns before in
    let o : ApiObject = record {
      kind = codes "RoleBinding";
      meta = metadata env name (codes "rb-" ++ (ns ++ (b'-' ∷ name))) (in_space ns);
      version = next_rv s.rv;
      rest = binding_body (codes "Role") role sa_ns sa_name;
    } in
    let (m', e, w) = put_in-Written ns name o before.bindings in
    let e' : put_in ns name o s.bindings ≡ some m' = rw (ensure_ns_roles env ns before).1 e in
    let named : IsOf ns name o = (refl, refl) in
    let s' : MockStore = record s { bindings = m'; rv = next_rv s.rv } in
    (
      s',
      o,
      rw (create_role_binding, e') refl,
      named,
      w,
      record {
        spaces_in = kept.spaces_in;
        accounts_in = kept.accounts_in;
        secrets_in = kept.secrets_in;
        roles_in = kept.roles_in;
        bindings_in = Written-Grows ns name o before.bindings m' w;
        bindings_named = λ j n h. Written-NamedAt ns name o before.bindings m' w named j n h;
      },
    )
