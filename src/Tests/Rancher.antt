-- ===== src/Tests/Rancher.antt =====
-- Tests of the calls of Rancher and of the names of tenants: main.go.
use scale_cluster_agent.Strings.{to_lower, lower_byte}
use scale_cluster_agent.Tenant.{
  IsLabelText, short_suffix, tenant_namespace, tenant_sa_name, is_alphanumeric,
  tenant_namespace-IsLabelText,
}
use scale_cluster_agent.Rancher.{
  Response, Codec, find_cluster_id_by_name, create_cluster_in_rancher, get_cluster_token,
  first_named, list_once, trimmed, panics,
}
use scale_cluster_agent.Rancher.Laws.{Attempts, get_cluster_token-Attempts}
use scale_cluster_agent.Prelude.{
  ℕ, ◌≤◌, ◌≡◌, refl, [], ◌∷◌, Option, some, text_eq, nat_eq, codes, length,
}

abbrev codec : Codec
codec = record {
  read_id = λ t. some t;
  read_code = λ t. t;
  read_clusters = λ t. some ((codes "c-1", t) ∷ (codes "c-2", codes "b") ∷ []);
  read_tokens = λ t. some (t ∷ []);
}

abbrev refused : Response
refused = record { status = 422; body = codes "NotUnique" }

abbrev list : Response
list = record { status = 200; body = codes "a" }

adopted :
    create_cluster_in_rancher codec (some refused) (some list) (codes "b") ≡ some (codes "c-2")
unfolding create_cluster_in_rancher find_cluster_id_by_name first_named to_lower lower_byte text_eq
    nat_eq
adopted = refl

-- A token of one character.
abbrev answer : ℕ → Option Response
answer n = some list

short_token : get_cluster_token codec answer ≡ panics
unfolding get_cluster_token list_once trimmed text_eq nat_eq
short_token = refl

get_cluster_token-Attempts_example : Attempts codec answer 5 1 (get_cluster_token codec answer)
get_cluster_token-Attempts_example = get_cluster_token-Attempts codec answer

suffix : short_suffix (codes "c-M-AbCd1234") ≡ codes "cmabcd1234"
unfolding short_suffix to_lower lower_byte is_alphanumeric
suffix = refl

tenant_namespace-IsLabelText_example :
    IsLabelText (tenant_namespace (codes "c-abc12"))
    × (length (tenant_namespace (codes "c-abc12")) ≤ 24)
    × IsLabelText (tenant_sa_name (codes "c-abc12"))
    × (length (tenant_sa_name (codes "c-abc12")) ≤ 17)
tenant_namespace-IsLabelText_example = tenant_namespace-IsLabelText (codes "c-abc12")
