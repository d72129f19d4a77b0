-- ===== src/MockApi/Served.antt =====
-- The handlers of main.go's mock API server: what they leave in the store.
use mathlib.Core.Path.{◌≡◌, refl, ap}
use scale_cluster_agent.MockApi.{ApiObject, Spaces, MockStore, MockEnv, ensure_ns, next_rv}
use scale_cluster_agent.MockApi.Handlers.{
  Body, bad, null, decoded, Request, Reply, one, Served, created, posted_name, post_binding,
  post_role, space_handler, replace_space, named_space, dispatch, resource_handler,
  bindings_handler, roles_handler, spaces_handler, serve, Route, rbac_kinds, all_roles,
  all_bindings, rbac_spaces, quotas, limits, all_accounts, all_secrets, nodes, path_space, parts_of,
  first_subject, role_name,
}
use scale_cluster_agent.MockApi.Stored.{
  Keeps, Keeps-refl, Keeps-trans, ensure_ns-Keeps, put_space-Keeps, Creates, create_role-Creates,
  create_role_binding-Creates,
}
use scale_cluster_agent.Import.Value.{Fields}
use scale_cluster_agent.Prelude.{
  List, [], ◌∷◌, Option, some, Text, text_eq, codes, ◌==◌, ◌||◌, arith, if_both,
}

-- A handler did not panic, and nothing of the store is gone.
abbrev pub Answers : MockStore → Served → Type 0
Answers s result = (s' : MockStore) × (reply : Reply) × (result ≡ some (s', reply)) × Keeps s s'

pub stays-Answers : (s : MockStore) (reply : Reply) → Answers s (some (s, reply))
stays-Answers s reply = (s, reply, refl, Keeps-refl s)

pub after-Answers :
    (s s1 : MockStore) (result : Served) → Keeps s s1 → Answers s1 result → Answers s result
after-Answers s s1 result kept (s', reply, e, more) = (s', reply, e, Keeps-trans s s1 s' kept more)

pub created-Answers :
    (part : MockStore → Spaces) (ns name : Text) (s : MockStore)
    (result : Option (MockStore × ApiObject))
    → Creates part ns name s result
    → Answers s (created result)
created-Answers part ns name s result (s', o, e, named, w, kept) =
    (s', one 201 o, ap created e, kept)

pub posted_name-Keeps :
    (env : MockEnv) (obj : Fields) (s : MockStore) → Keeps s (posted_name env obj s).1
unfolding posted_name
posted_name-Keeps env obj s = record {
  spaces_in = λ ns t. ground (arith, t);
  accounts_in = λ j n t. ground (arith, t);
  secrets_in = λ j n t. ground (arith, t);
  roles_in = λ j n t. ground (arith, t);
  bindings_in = λ j n t. ground (arith, t);
  bindings_named = λ j n h.
      let same : (posted_name env obj s).1.bindings ≡ s.bindings = ground arith in rw same h;
}

pub post_binding-Answers :
    (env : MockEnv) (ns : Text) (b : Body) (s : MockStore)
    → ¬ (b ≡ null)
    → Answers s (post_binding env ns b s)
unfolding post_binding
post_binding-Answers env ns bad s h = stays-Answers s _
post_binding-Answers env ns null s h = absurd (h refl)
post_binding-Answers env ns (decoded obj) s h =
    let (name, s') = posted_name env obj s in
    let kept : Keeps s s' = posted_name-Keeps env obj s in
    let (sa_ns, sa_name) = first_subject ns obj in
    if_both (Answers s) (name == []) (s', _, refl, kept)
      (after-Answers s s' _ kept (
        created-Answers (λ x. x.bindings) ns name s' _
          (create_role_binding-Creates env ns name (role_name obj) sa_ns sa_name s')))

pub post_role-Answers :
    (env : MockEnv) (ns : Text) (b : Body) (s : MockStore)
    → ¬ (b ≡ null)
    → Answers s (post_role env ns b s)
unfolding post_role
post_role-Answers env ns bad s h = stays-Answers s _
post_role-Answers env ns null s h = absurd (h refl)
post_role-Answers env ns (decoded obj) s h =
    let (name, s') = posted_name env obj s in
    let kept : Keeps s s' = posted_name-Keeps env obj s in
    if_both (Answers s) (name == []) (s', _, refl, kept)
      (after-Answers s s' _ kept
        (created-Answers (λ x. x.roles) ns name s' _ (create_role-Creates env ns name _ s')))

pub bindings_handler-Answers :
    (env : MockEnv) (r : Request) (s : MockStore)
    → ¬ (r.payload ≡ null)
    → Answers s (bindings_handler env r s)
unfolding bindings_handler
bindings_handler-Answers env r s h =
    if_both (Answers s) (r.method == codes "POST")
      (post_binding-Answers env (path_space r.path) r.payload s h)
      (if_both (Answers s) r.is_watch (stays-Answers s _) (stays-Answers s _))

pub replace_space-Answers :
    (ns : Text) (b : Body) (s : MockStore) → ¬ (b ≡ null) → Answers s (replace_space ns b s)
unfolding replace_space
replace_space-Answers ns bad s h = stays-Answers s _
replace_space-Answers ns null s h = absurd (h refl)
replace_space-Answers ns (decoded obj) s h = (_, _, refl, put_space-Keeps ns _ (next_rv s.rv) s)

pub named_space-Answers :
    (env : MockEnv) (r : Request) (ns : Text) (s : MockStore)
    → ¬ (r.payload ≡ null)
    → Answers s (named_space env r ns s)
unfolding named_space space_handler
named_space-Answers env r ns s h =
    let s1 = ensure_ns env ns s in
    if_both (Answers s) (ns == []) (stays-Answers s _) (
      after-Answers s s1 _ (ensure_ns-Keeps env ns s) (
        if_both (Answers s1) (r.method == codes "GET") (stays-Answers s1 _) (
          if_both (Answers s1) (r.method == codes "PUT" || r.method == codes "PATCH")
            (replace_space-Answers ns r.payload s1 h) (stays-Answers s1 _))))

pub resource_handler-Answers :
    (env : MockEnv) (r : Request) (ns res : Text) (s : MockStore)
    → ¬ (r.payload ≡ null)
    → Answers s (resource_handler env r ns res s)
unfolding resource_handler
resource_handler-Answers env r ns res s h =
    if_both (Answers s) (res == codes "roles")
      (if_both (Answers s) (r.method == codes "POST") (post_role-Answers env ns r.payload s h)
        (stays-Answers s _))
      (if_both (Answers s) (res == codes "rolebindings")
        (if_both (Answers s) (r.method == codes "POST") (post_binding-Answers env ns r.payload s h)
          (stays-Answers s _))
        (stays-Answers s _))

pub dispatch-Answers :
    (env : MockEnv) (r : Request) (ps : List Text) (s : MockStore)
    → ¬ (r.payload ≡ null)
    → Answers s (dispatch env r ps s)
unfolding dispatch
dispatch-Answers env r [] s h = stays-Answers s _
dispatch-Answers env r (ns ∷ []) s h = named_space-Answers env r ns s h
dispatch-Answers env r (ns ∷ res ∷ ps) s h =
    if_both (Answers s) (res == []) (named_space-Answers env r ns s h) (
      after-Answers s _ _ (ensure_ns-Keeps env ns s)
        (resource_handler-Answers env r ns res (ensure_ns env ns s) h))

-- A request whose body is not null, if it has one, to any pattern, in any state of the store: the handler does
-- not panic, it answers, and no namespace, account, secret, role or role binding is gone afterwards.
pub serve-Answers :
    (env : MockEnv) (node : ApiObject) (route : Route) (r : Request) (s : MockStore)
    → ¬ (r.payload ≡ null)
    → Answers s (serve env node route r s)
unfolding serve roles_handler spaces_handler
serve-Answers env node rbac_kinds r s h = stays-Answers s _
serve-Answers env node all_roles r s h =
    if_both (Answers s) r.is_watch (stays-Answers s _) (stays-Answers s _)
serve-Answers env node all_bindings r s h = bindings_handler-Answers env r s h
serve-Answers env node rbac_spaces r s h = dispatch-Answers env r (parts_of r.path) s h
serve-Answers env node quotas r s h = stays-Answers s _
serve-Answers env node limits r s h = stays-Answers s _
serve-Answers env node all_accounts r s h = stays-Answers s _
serve-Answers env node all_secrets r s h = stays-Answers s _
serve-Answers env node nodes r s h = stays-Answers s _
