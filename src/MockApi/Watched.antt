-- ===== src/MockApi/Watched.antt =====
-- What a watch of main.go's mock API server shows of the objects that were posted to it.
use mathlib.Core.Path.{◌≡◌, refl, ap, ◌∙◌, subst}
use mathlib.Core.List.{Memᴰ}
use mathlib.Core.List.Memᴰ
use scale_cluster_agent.MockApi.{
  ApiObject, Spaces, MockStore, MockEnv, ensure_ns, create_role_binding, binding_body,
}
use scale_cluster_agent.MockApi.Handlers.{
  null, decoded, Event, added, watch_events, values_of, all_objects, Request, Reply, one, stream,
  created, meta_in, posted_name, post_binding, resource_handler, dispatch, bindings_handler, serve,
  Route, all_bindings, rbac_spaces, spaces_handler, parts_of, first_subject, role_name,
}
use scale_cluster_agent.MockApi.Stored.{
  Keeps, Keeps-refl, Keeps-trans, create_role_binding-Creates, find, Written-self, IsOf, NamedAt,
}
use scale_cluster_agent.MockApi.Served.{serve-Answers}
use scale_cluster_agent.Import.Value.{Fields, text_at}
use scale_cluster_agent.Prelude.Dict.{Dict, lookup}
use scale_cluster_agent.Prelude.{
  true, false, List, [], ◌∷◌, Option, none, some, Text, text_eq, codes, ◌==◌, arith, Option-cases,
  Bool-cases, inl, inr, if_both,
}

pub lookup-values_of :
    (name : Text) (d : Dict Text ApiObject) (o : ApiObject)
    → lookup name d ≡ some o
    → Memᴰ o (values_of d)
unfolding lookup
lookup-values_of name [] o t = absurd (ground (arith, t))
lookup-values_of name ((k, v) ∷ d) o t = elim (Bool-cases (k == name)) [
  | inl e ↦ Memᴰ.head (ground (arith, t, e))
  | inr e ↦ Memᴰ.tail (lookup-values_of name d o (ground (arith, t, e)))
]

pub find-all_objects :
    (ns name : Text) (m : Spaces) (o : ApiObject) → find ns name m ≡ some o → Memᴰ o (all_objects m)
unfolding find lookup
find-all_objects ns name [] o t = absurd (ground (arith, t))
find-all_objects ns name ((k, d) ∷ m) o t = elim (Bool-cases (k == ns)) [
  | inl e ↦ Memᴰ.append_left (all_objects m) (lookup-values_of name d o (ground (arith, t, e)))
  | inr e ↦ Memᴰ.append_right (values_of d) (find-all_objects ns name m o (ground (arith, t, e)))
]

pub watch_events-Mem :
    (o : ApiObject) (os : List ApiObject) → Memᴰ o os → Memᴰ (added o) (watch_events os)
unfolding watch_events
watch_events-Mem o [] m = elim m [ ]
watch_events-Mem o (p ∷ os) (Memᴰ.head e) =
    if_both (Memᴰ (added o)) _ (Memᴰ.head (ap added e)) (Memᴰ.head (ap added e))
watch_events-Mem o (p ∷ os) (Memᴰ.tail m) =
    let rest = watch_events-Mem o os m in
    if_both (Memᴰ (added o)) _ (Memᴰ.tail (Memᴰ.tail rest)) (Memᴰ.tail rest)

-- The answers to a sequence of requests, each to a pattern; `none` if one panics.
unfoldable pub run :
    MockEnv → ApiObject → List (Route × Request) → MockStore → Option (MockStore × List Reply)
unfolding serve
run env node [] s = some (s, [])
run env node ((route, r) ∷ rs) s = elim (serve env node route r s) [
  | none ↦ none
  | some (s1, reply) ↦ elim (run env node rs s1) [
    | none ↦ none
    | some (s2, replies) ↦ some (s2, reply ∷ replies)
  ]
]

-- No body is null.
abbrev pub Sound : List (Route × Request) → Type 0
Sound [] = Unit
Sound ((route, r) ∷ rs) = ¬ (r.payload ≡ null) × Sound rs

pub run-Answers :
    (env : MockEnv) (node : ApiObject) (rs : List (Route × Request)) (s : MockStore)
    → Sound rs
    → (s' : MockStore) × (replies : List Reply) × (run env node rs s ≡ some (s', replies))
      × Keeps s s'
unfolding run
run-Answers env node [] s h = (s, [], refl, Keeps-refl s)
run-Answers env node ((route, r) ∷ rs) s (h, hs) =
    let (s1, reply, e, kept) = serve-Answers env node route r s h in
    let (s2, replies, e', more) = run-Answers env node rs s1 hs in
    (s2, reply ∷ replies, rw (run, e, e') refl, Keeps-trans s s1 s2 kept more)

pub post_binding-named :
    (env : MockEnv) (ns name : Text) (obj : Fields) (s : MockStore)
    → text_at (codes "name") (meta_in obj) ≡ name
    → (name == []) ≡ false
    → post_binding env ns (decoded obj) s
      ≡ created (
          create_role_binding env ns name
            (role_name obj)
            (first_subject ns obj).0
            (first_subject ns obj).1
            s)
unfolding post_binding posted_name
post_binding-named env ns name obj s t h = ground (arith, t, h)

pub dispatch-binding :
    (env : MockEnv) (r : Request) (ns : Text) (s : MockStore)
    → r.method ≡ codes "POST"
    → dispatch env r (ns ∷ codes "rolebindings" ∷ []) s
      ≡ post_binding env ns r.payload (ensure_ns env ns s)
unfolding dispatch resource_handler text_eq
dispatch-binding env r ns s t = ground (arith, t)

pub bindings_handler-watch :
    (env : MockEnv) (r : Request) (s : MockStore)
    → (r.method == codes "POST") ≡ false
    → r.is_watch ≡ true
    → bindings_handler env r s ≡ some (s, stream (watch_events (all_objects s.bindings)))
unfolding bindings_handler
bindings_handler-watch env r s h t = ground (arith, h, t)

-- What is found in a store is found, perhaps as another object, in a store that keeps it.
pub Keeps-find :
    (s s' : MockStore) (ns name : Text) (o : ApiObject)
    → Keeps s s'
    → find ns name s.bindings ≡ some o
    → (o' : ApiObject) × (find ns name s'.bindings ≡ some o')
Keeps-find s s' ns name o kept t = elim (Option-cases (find ns name s'.bindings)) [
  | inl e ↦ absurd (let e' = kept.bindings_in ns name e in ground (arith, e', t))
  | inr p ↦ p
]

-- What the object of a new binding says
pub create_role_binding-body :
    (env : MockEnv) (ns name role sa_ns sa_name : Text) (s s' : MockStore) (o : ApiObject)
    → create_role_binding env ns name role sa_ns sa_name s ≡ some (s', o)
    → (o.kind ≡ codes "RoleBinding") × (o.rest ≡ binding_body (codes "Role") role sa_ns sa_name)
unfolding create_role_binding
create_role_binding-body env ns name role sa_ns sa_name s s' o h =
    (ground (arith, h), ground (arith, h))

-- A role binding with a name that is posted to a namespace is answered with 201 and an object, which is then in
-- the store: a role binding with this name and namespace, the posted role and the first posted subject, or its
-- defaults. After any further requests, none with the body null, a watch of all role bindings shows
-- an object that has this name and namespace as added.
pub serve-posted :
    (env : MockEnv) (node : ApiObject) (r w : Request) (rs : List (Route × Request))
    (ns name : Text) (obj : Fields) (s : MockStore)
    → r.method ≡ codes "POST"
    → r.payload ≡ decoded obj
    → parts_of r.path ≡ ns ∷ codes "rolebindings" ∷ []
    → text_at (codes "name") (meta_in obj) ≡ name
    → (name == []) ≡ false
    → Sound rs
    → (w.method == codes "POST") ≡ false
    → w.is_watch ≡ true
    → (s1 : MockStore) × (o : ApiObject) × (serve env node rbac_spaces r s ≡ some (s1, one 201 o))
      × (find ns name s1.bindings ≡ some o)
      × IsOf ns name o
      × (o.kind ≡ codes "RoleBinding")
      × (o.rest
          ≡ binding_body
              (codes "Role")
              (role_name obj)
              (first_subject ns obj).0
              (first_subject ns obj).1)
      × (s2 : MockStore) × (replies : List Reply) × (run env node rs s1 ≡ some (s2, replies))
      × (o' : ApiObject) × (find ns name s2.bindings ≡ some o')
      × IsOf ns name o'
      × (events : List Event) × (serve env node all_bindings w s2 ≡ some (s2, stream events))
      × Memᴰ (added o') events
unfolding serve spaces_handler
serve-posted env node r w rs ns name obj s post body path is_named given sound watch on =
    let sa = first_subject ns obj in
    let (s1, o, e, named, written, kept) =
      create_role_binding-Creates env ns name (role_name obj) sa.0 sa.1 (ensure_ns env ns s) in
    let answered : serve env node rbac_spaces r s ≡ some (s1, one 201 o) = rw path (
      dispatch-binding env r ns s post
      ∙ rw body (
          post_binding-named env ns name obj (ensure_ns env ns s) is_named given ∙ ap created e)) in
    let found : find ns name s1.bindings ≡ some o = Written-self ns name o _ s1.bindings written in
    let (is_binding, body') =
      create_role_binding-body env ns name (role_name obj) sa.0 sa.1 (ensure_ns env ns s) s1 o e in
    let (s2, replies, e', more) = run-Answers env node rs s1 sound in
    let (o', found') = Keeps-find s1 s2 ns name o more found in
    let at_first : NamedAt ns name s1.bindings = λ x t.
      let same : o ≡ x = ground (arith, found, t) in subst (λ y. IsOf ns name y) same named in
    let at_last = more.bindings_named ns name at_first in
    (
      s1,
      o,
      answered,
      found,
      named,
      is_binding,
      body',
      s2,
      replies,
      e',
      o',
      found',
      at_last o' found',
      _,
      bindings_handler-watch env w s2 watch on,
      watch_events-Mem o' (all_objects s2.bindings)
          (find-all_objects ns name s2.bindings o' found'),
    )
