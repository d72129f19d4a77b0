-- ===== src/Tests/Fetch.antt =====
-- Tests of the import of a manifest and of the token of an account: main.go.
use scale_cluster_agent.Tenant.{short_suffix, is_alphanumeric}
use scale_cluster_agent.Strings.{to_lower, lower_byte, cons_head}
use scale_cluster_agent.Import.Value.{Fields, string, object, field, no_field, get}
use scale_cluster_agent.Import.Names.{kind_of, name_of}
use scale_cluster_agent.Import.Fetch.{
  trim_bytes, FetchAnswers, get_import_yaml, ApplyAnswers, apply_import_yaml,
}
use scale_cluster_agent.Import.Fetch.Isolated.{
  identities, taken, applied, apply_import_yaml-isolated,
}
use scale_cluster_agent.Credentials.Api.{ApiAnswers, ListedSecret, get_token_from_api, api_cluster}
use scale_cluster_agent.Credentials.Api.Laws.{
  IsAt, IsTokenOf, own_namespace, own_account, get_token_from_api-IsTokenOf,
}
use scale_cluster_agent.Prelude.Results.{ok}
use scale_cluster_agent.Prelude.{
  zero, suc, ◌≡◌, ◌≢◌, refl, ap, ◌∙◌, Bool, true, false, List, [], ◌∷◌, none, some, Text, text_eq,
  nat_eq, codes, contains, All, arith,
}

trim_bytes-example : trim_bytes (codes "https://r//") b'/' ≡ codes "https://r"
unfolding trim_bytes
trim_bytes-example = refl

abbrev answers : FetchAnswers
answers = record {
  token = some (codes "t");
  request_ok = true;
  respond = λ url. some (200, some (codes "kind: Role"));
  directory_ok = true;
}

get_import_yaml-example :
    (get_import_yaml answers (codes "https://r/") (codes "c-1") []).urls
    ≡ codes "https://r/v3/import/t_c-1.yaml" ∷ []
unfolding get_import_yaml
get_import_yaml-example = refl

-- A small language of manifests: the kinds and the names one after the other, each with 0 at its end.
abbrev manifest : Text → Text → Fields
manifest kind name =
    field (codes "kind") (string kind)
      (field (codes "metadata") (object (field (codes "name") (string name) no_field)) no_field)

abbrev ended : Text → Text → Text
ended [] rest = zero ∷ rest
ended (c ∷ s) rest = suc c ∷ ended s rest

abbrev encode : List Fields → Text
encode [] = []
encode (d ∷ ds) = ended (kind_of d) (ended (name_of d) (encode ds))

abbrev pieces : Text → List Text
pieces [] = []
pieces (zero ∷ s) = [] ∷ pieces s
pieces (suc c ∷ s) = cons_head c (pieces s)

abbrev documents : List Text → List Fields
documents [] = []
documents (kind ∷ []) = []
documents (kind ∷ name ∷ ps) = manifest kind name ∷ documents ps

abbrev decode : Text → List Fields × Bool
decode text = (documents (pieces text), true)

pieces-ended : (s rest : Text) → pieces (ended s rest) ≡ s ∷ pieces rest
unfolding cons_head
pieces-ended [] rest = refl
pieces-ended (c ∷ s) rest = ap (cons_head c) (pieces-ended s rest)

identity_of-manifest :
    (kind name : Text)
    → ◌≡◌ {A = Text × Text}
        (kind_of (manifest kind name), name_of (manifest kind name))
        (kind, name)
unfolding get text_eq
identity_of-manifest kind name = refl

kept : (docs : List Fields) → identities (decode (encode docs)).0 ≡ identities docs
kept [] = refl
kept (d ∷ ds) =
    let split =
      pieces-ended (kind_of d) (ended (name_of d) (encode ds))
      ∙ ap (λ (ps : List Text). kind_of d ∷ ps) (pieces-ended (name_of d) (encode ds)) in
    ap (λ (ps : List Text). identities (documents ps)) split
    ∙ ap (λ (p : Text × Text). p ∷ identities (documents (pieces (encode ds))))
        (identity_of-manifest (kind_of d) (name_of d))
    ∙ ap (λ (ps : List (Text × Text)). (kind_of d, name_of d) ∷ ps) (kept ds)

abbrev cluster_apply : Bool → ApplyAnswers
cluster_apply readable = record {
  decode = λ text. ((decode text).0, readable);
  encode = encode;
  exists = λ name. true;
  apply_ok = λ name text. true;
}

abbrev roles : Text
roles = encode (manifest (codes "ClusterRole") (codes "cattle-admin") ∷ [])

suffixes-ne : short_suffix (codes "c-1") ≢ short_suffix (codes "c-2")
unfolding short_suffix is_alphanumeric to_lower lower_byte
suffixes-ne = ground arith

apply_import_yaml-isolated_example :
    All
      (λ n.
        contains
          (taken (
            applied
              (cluster_apply true)
              (apply_import_yaml
                (cluster_apply true)
                true
                (codes "main")
                (codes "c-2")
                []
                roles).0))
          n
        ≡ false)
      (taken (
        applied
          (cluster_apply true)
          (apply_import_yaml (cluster_apply true) true (codes "main") (codes "c-1") [] roles).0))
apply_import_yaml-isolated_example =
    apply_import_yaml-isolated (cluster_apply true) (codes "main") (codes "c-1") (codes "c-2") []
      roles roles kept suffixes-ne refl refl

-- TokenRequest fails, and of the two secrets the second is the token of the tenant's account.
abbrev secret : Text → Text → ListedSecret
secret account token = record {
  name = codes "s";
  annotations = (codes "kubernetes.io/service-account.name", account) ∷ [];
  type_name = codes "kubernetes.io/service-account-token";
  contents = (codes "token", token) ∷ [];
}

abbrev api : ApiAnswers
api = record {
  kubeconfig = λ name. some (codes "k");
  temp_ok = true;
  parse_kubeconfig = λ text. some (record { ca_data = codes "ca"; ca_file = [] } ∷ []);
  decode = λ text. some text;
  read_file = λ path. none;
  raw_ca = none;
  pki_ca = λ name. none;
  has_account = λ namespace account. true;
  create_token = λ namespace account. none;
  secrets = λ namespace. some (codes "l");
  parse_secrets = λ text.
      some (secret (codes "other") (codes "x") ∷ secret (codes "cattle-c1") (codes "y") ∷ []);
}

token_found :
    get_token_from_api api true (codes "main") (codes "c-1") [] ≡ ok (codes "ca", codes "y")
unfolding get_token_from_api to_lower lower_byte
token_found = refl

get_token_from_api-IsTokenOf_example :
    IsAt api
      (api_cluster true (codes "main") (codes "c-1") [])
      (own_namespace true (codes "c-1"))
      (own_account true (codes "c-1"))
      (codes "ca")
    × IsTokenOf api (own_namespace true (codes "c-1")) (own_account true (codes "c-1")) (codes "y")
get_token_from_api-IsTokenOf_example =
    get_token_from_api-IsTokenOf api true (codes "main") (codes "c-1") [] (codes "ca") (codes "y")
      token_found
