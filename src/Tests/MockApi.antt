-- ===== src/Tests/MockApi.antt =====
-- Tests of the mock API server: main.go.
use scale_cluster_agent.MockApi.{ApiObject, MockStore, MockEnv, binding_body}
use scale_cluster_agent.MockApi.Secrets.{empty_store, node_of}
use scale_cluster_agent.MockApi.Handlers.{
  first_subject, Request, bad, decoded, null, all_bindings, rbac_spaces, Reply, one, stream, Event,
  added, serve, parts_of, path_space, spaces_prefix,
}
use scale_cluster_agent.MockApi.Stored.{find, IsOf}
use scale_cluster_agent.MockApi.Watched.{run, serve-posted}
use mathlib.Core.List.{Memᴰ}
use scale_cluster_agent.Import.Value.{Fields, no_field, field, string, object, get}
use scale_cluster_agent.Strings.{has_prefix, split}
use scale_cluster_agent.Prelude.{
  ◌≡◌, refl, true, false, List, [], ◌∷◌, ◌++◌, none, some, text_eq, nat_eq, codes, arith,
}

abbrev env : MockEnv
env = record {
  hash = λ t. t;
  now = codes "2024-01-01T00:00:00Z";
  random = λ k n. codes "abcde";
  cert = codes "pem";
  encode = λ t. t;
}

abbrev node : ApiObject
node = (node_of env empty_store).0

abbrev obj : Fields
obj =
    field (codes "metadata") (object (field (codes "name") (string (codes "rb")) no_field)) no_field

abbrev post : Request
post = record {
  method = codes "POST";
  path = spaces_prefix ++ codes "team/rolebindings";
  is_watch = false;
  payload = decoded obj;
}

abbrev get_team : Request
get_team = record {
  method = codes "GET";
  path = spaces_prefix ++ codes "team";
  is_watch = false;
  payload = bad;
}

abbrev watch : Request
watch = record { method = codes "GET"; path = []; is_watch = true; payload = bad }

parts-example : parts_of post.path ≡ codes "team" ∷ codes "rolebindings" ∷ []
unfolding parts_of has_prefix split text_eq
parts-example = refl

serve-posted_example :
    (s1 : MockStore) × (o : ApiObject) × (serve env node rbac_spaces post empty_store
      ≡ some (s1, one 201 o))
    × (find (codes "team") (codes "rb") s1.bindings ≡ some o)
    × IsOf (codes "team") (codes "rb") o
    × (o.kind ≡ codes "RoleBinding")
    × (o.rest ≡ binding_body (codes "Role") [] (codes "team") (codes "cattle"))
    × (s2 : MockStore) × (replies : List Reply) × (run env node
          ((rbac_spaces, get_team) ∷ (rbac_spaces, post) ∷ [])
          s1
        ≡ some (s2, replies))
    × (o' : ApiObject) × (find (codes "team") (codes "rb") s2.bindings ≡ some o')
    × IsOf (codes "team") (codes "rb") o'
    × (events : List Event) × (serve env node all_bindings watch s2 ≡ some (s2, stream events))
    × Memᴰ (added o') events
unfolding text_eq get first_subject
serve-posted_example =
    serve-posted env node post watch ((rbac_spaces, get_team) ∷ (rbac_spaces, post) ∷ [])
      (codes "team") (codes "rb") obj empty_store refl refl parts-example refl refl
      (grind arith, (grind arith, tt)) refl refl

-- A role binding that is posted to the path of all namespaces goes into "default".
path_space-example :
    path_space (codes "/apis/rbac.authorization.k8s.io/v1/rolebindings") ≡ codes "default"
unfolding path_space parts_of has_prefix split text_eq
path_space-example = refl

-- A body that is null
null-example : serve env node rbac_spaces (record post { payload = null }) empty_store ≡ none
unfolding serve parts_of has_prefix split text_eq
null-example = refl
