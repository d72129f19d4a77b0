-- ===== src/Rancher.antt =====
-- main.go: the calls of Rancher's API that decide something: createClusterInRancher with
-- findClusterIDByName, and getClusterToken. A response is a status and a body, and `none` is an error
-- of the request. Unmarshal is an argument for each type that is read.
pub mod Laws
use scale_cluster_agent.Strings.{to_lower}
use scale_cluster_agent.Strings.Trim.{trim_space}
use scale_cluster_agent.Prelude.{
  ℕ, zero, suc, ◌+◌, Bool, true, false, not, ◌&&◌, ◌||◌, List, [], ◌∷◌, Option, none, some, Text,
  text_eq, nat_eq, codes, ◌==◌, leb, length, if◌then◌else◌,
}

pub record Response : Type 0 where
  pub status : ℕ
  pub body : Text

-- What Unmarshal reads: the "id" of a created cluster, empty if it is missing; the "code" of an error;
-- the IDs and the names of a list of clusters; and the tokens of a list, before they are trimmed.
pub record Codec : Type 0 where
  pub read_id : Text → Option Text
  pub read_code : Text → Text
  pub read_clusters : Text → Option (List (Text × Text))
  pub read_tokens : Text → Option (List Text)

-- The loop of findClusterIDByName
unfoldable pub first_named : Text → List (Text × Text) → Option Text
first_named name [] = none
first_named name ((id, n) ∷ cs) =
    let rest = first_named name cs in if n == name then some id else rest

-- findClusterIDByName; `none` is any error
unfoldable pub find_cluster_id_by_name : Codec → Option Response → Text → Option Text
unfolding first_named
find_cluster_id_by_name k none name = none
find_cluster_id_by_name k (some r) name =
    if r.status == 200
    then elim (k.read_clusters r.body) [ none ↦ none | some cs ↦ first_named name cs ]
    else none

-- strings.EqualFold(errObj.Code, "NotUnique")
abbrev pub is_not_unique : Codec → Response → Bool
is_not_unique k r = r.status == 422 && to_lower (k.read_code r.body) == codes "notunique"

-- An ID that is not empty
abbrev pub non_empty : Option Text → Option Text
non_empty none = none
non_empty (some []) = none
non_empty (some (c ∷ s)) = some (c ∷ s)

-- createClusterInRancher, with the answers to the request that creates and, where it is sent, to the
-- one that lists; `none` is any error
unfoldable pub create_cluster_in_rancher :
    Codec → Option Response → Option Response → Text → Option Text
create_cluster_in_rancher k none listed name = none
create_cluster_in_rancher k (some r) listed name =
    let adopted = non_empty (find_cluster_id_by_name k listed name) in
    if r.status == 200 || r.status == 201
    then non_empty (k.read_id r.body)
    else (if is_not_unique k r then adopted else none)

-- The tokens of listOnce that are not blank
unfoldable pub trimmed : List Text → List Text
unfolding trim_space
trimmed [] = []
trimmed (t ∷ ts) = let rest = trimmed ts in if trim_space t == [] then rest else trim_space t ∷ rest

-- listOnce; `none` is any error
unfoldable pub list_once : Codec → Option Response → Option (List Text)
unfolding trimmed
list_once k none = none
list_once k (some r) =
    if r.status == 200
    then elim (k.read_tokens r.body) [ none ↦ none | some ts ↦ some (trimmed ts) ]
    else none

-- What getClusterToken comes to. Its log message cuts the token at ten characters, and cutting a
-- shorter one is a panic.
pub data TokenResult : Type 0 where
  token : Text → TokenResult
  panics no_token : TokenResult

-- The log message, then the result.
unfoldable pub log_token : Text → TokenResult
log_token t = if leb 10 (length t) then token t else panics

-- The attempts that are left, with the answer to each
unfoldable pub attempt_tokens : Codec → (ℕ → Option Response) → ℕ → ℕ → TokenResult
unfolding list_once log_token
attempt_tokens k answer zero attempt = no_token
attempt_tokens k answer (suc n) attempt =
    let rest = attempt_tokens k answer n (attempt + 1) in
    elim (list_once k (answer attempt)) [
      | none ↦ rest
      | some [] ↦ rest
      | some (t ∷ ts) ↦ log_token t
    ]

-- getClusterToken
unfoldable pub get_cluster_token : Codec → (ℕ → Option Response) → TokenResult
unfolding attempt_tokens
get_cluster_token k answer = attempt_tokens k answer 5 1
