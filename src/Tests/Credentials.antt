-- ===== src/Tests/Credentials.antt =====
-- Tests of the extraction of a token: main.go.
use scale_cluster_agent.Types.{KwokCluster}
use scale_cluster_agent.Tenant.{tenant_namespace}
use scale_cluster_agent.Strings.Trim.{fields}
use scale_cluster_agent.Credentials.{
  Query, first_token, secret_names, token_of, Get, get, known_id, target,
  extract_service_account_token,
}
use scale_cluster_agent.Credentials.Laws.{IsAt, IsRead, extract_service_account_token-IsAt}
use scale_cluster_agent.Strings.{split, join, to_lower}
use scale_cluster_agent.Prelude.Int.{pos}
use scale_cluster_agent.Prelude.{
  ◌≡◌, refl, true, [], ◌∷◌, Option, none, some, Text, codes, All, arith,
}

abbrev kwok : KwokCluster
kwok = record {
  name = codes "rancher-c-m-1-8001";
  cluster_id = codes "c-m-1";
  port = pos 8001;
  kubeconfig = [];
  status = codes "running";
  created_at = 0;
  config = none;
}

-- The first command fails, as kubectl knows no patterns, and there are two secrets.
abbrev answer : Query → Option Text
answer (first_token pattern) = none
answer secret_names = some (codes "sa cattle-credentials-1")
answer (token_of name) = some (codes " dG9r ")

abbrev kubectl : Get → Option Text
kubectl g = answer g.query

-- A decoder that takes its argument as it is.
abbrev plain : Text → Option Text
plain = some

fields-example : fields (codes " ab  c ") ≡ codes "ab" ∷ codes "c" ∷ []
unfolding fields
fields-example = refl

known_id-example : known_id (record kwok { cluster_id = [] }) ≡ codes "c-m-1"
unfolding known_id split join
known_id-example = refl

extract-example : extract_service_account_token kubectl plain true true (codes "main") kwok ≡ (
  get (target true (codes "main") kwok) (first_token (codes "cattle-credentials-*-cm1"))
      ∷ get (target true (codes "main") kwok) secret_names
      ∷ get (target true (codes "main") kwok) (token_of (codes "cattle-credentials-1"))
      ∷ [],
  some (codes "dG9r"),
)
unfolding extract_service_account_token to_lower
extract-example = refl

extract_service_account_token-IsAt_example :
    All
      (IsAt (codes "main") (tenant_namespace (codes "c-m-1")))
      (extract_service_account_token kubectl plain true true (codes "main") kwok).0
    × IsRead kubectl plain
        (extract_service_account_token kubectl plain true true (codes "main") kwok).0
        (extract_service_account_token kubectl plain true true (codes "main") kwok).1
extract_service_account_token-IsAt_example =
    extract_service_account_token-IsAt kubectl plain true (codes "main") kwok (ground arith)
