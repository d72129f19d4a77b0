-- ===== src/Rancher/Laws.antt =====
-- What createClusterInRancher and getClusterToken return.
use scale_cluster_agent.Rancher.{
  Response, Codec, first_named, find_cluster_id_by_name, is_not_unique, non_empty,
  create_cluster_in_rancher, list_once, TokenResult, token, panics, no_token, log_token,
  attempt_tokens, get_cluster_token,
}
use scale_cluster_agent.Prelude.{
  ℕ, zero, suc, ◌+◌, ◌≤◌, ◌<◌, ◌≡◌, ◌≢◌, ◌⊎◌, inl, inr, refl, true, List, [], ◌∷◌, Option, none,
  some, Text, text_eq, nat_eq, ◌==◌, ◌||◌, length, leb, Bool-cases, Option-cases, arith, subst,
}

-- A cluster's ID stands in the list, and no cluster before it has the name.
abbrev pub IsFirstNamed : Text → Text → List (Text × Text) → Type 0
IsFirstNamed name id [] = ⊥
IsFirstNamed name id ((i, n) ∷ cs) =
    ((n ≡ name) × (i ≡ id)) ⊎ ((n ≢ name) × IsFirstNamed name id cs)

first_named-IsFirstNamed :
    (name id : Text) (cs : List (Text × Text))
    → first_named name cs ≡ some id
    → IsFirstNamed name id cs
unfolding first_named
first_named-IsFirstNamed name id [] h = absurd (cc h)
first_named-IsFirstNamed name id ((i, n) ∷ cs) h =
    ground (arith, first_named-IsFirstNamed name id cs)

-- Where an ID of createClusterInRancher can come from.
abbrev pub IsAnswered : Codec → Response → Option Response → Text → Text → Type 0
IsAnswered k r listed name id =
    (((r.status ≡ 200) ⊎ (r.status ≡ 201)) × (k.read_id r.body ≡ some id))
    ⊎ ((is_not_unique k r ≡ true)
        × (l : Response) × (cs : List (Text × Text)) × (listed ≡ some l)
        × (l.status ≡ 200)
        × (k.read_clusters l.body ≡ some cs)
        × IsFirstNamed name id cs)

non_empty-some : (o : Option Text) (id : Text) → non_empty o ≡ some id → (o ≡ some id) × (id ≢ [])
non_empty-some none id h = absurd (cc h)
non_empty-some (some []) id h = absurd (cc h)
non_empty-some (some (c ∷ s)) id h = (h, ground arith)

find-named :
    (k : Codec) (listed : Option Response) (name id : Text)
    → find_cluster_id_by_name k listed name ≡ some id
    → (l : Response) × (cs : List (Text × Text)) × (listed ≡ some l)
      × (l.status ≡ 200)
      × (k.read_clusters l.body ≡ some cs)
      × IsFirstNamed name id cs
unfolding find_cluster_id_by_name
find-named k none name id h = absurd (cc h)
find-named k (some l) name id h = elim (Bool-cases (l.status == 200)) [
  | inr e ↦ absurd (cc (rw (find_cluster_id_by_name, e) at h))
  | inl e ↦ elim (Option-cases (k.read_clusters l.body)) [
    | inl u ↦ absurd (cc (rw (find_cluster_id_by_name, e, u) at h))
    | inr (cs, u) ↦ (
      l,
      cs,
      refl,
      ground arith,
      u,
      first_named-IsFirstNamed name id cs (rw (find_cluster_id_by_name, e, u) at h),
    )
  ]
]

-- An ID that createClusterInRancher returns is not empty, and Rancher has given it: for the new
-- cluster, or, where it says that the name is not unique, for the first cluster of its list that has
-- exactly this name.
pub create_cluster_in_rancher-IsAnswered :
    (k : Codec) (r : Response) (listed : Option Response) (name id : Text)
    → create_cluster_in_rancher k (some r) listed name ≡ some id
    → (id ≢ []) × IsAnswered k r listed name id
unfolding create_cluster_in_rancher
create_cluster_in_rancher-IsAnswered k r listed name id h =
    elim (Bool-cases (r.status == 200 || r.status == 201)) [
      | inl e ↦
          let (f, d) =
            non_empty-some (k.read_id r.body) id (rw (create_cluster_in_rancher, e) at h) in
          (d, inl (ground arith, f))
      | inr e ↦ elim (Bool-cases (is_not_unique k r)) [
        | inl u ↦
            let (f, d) =
              non_empty-some (find_cluster_id_by_name k listed name) id
                (rw (create_cluster_in_rancher, e, u) at h) in
            let (l, cs, a, b, c, first) = find-named k listed name id f in
            (d, inr (u, l, cs, a, b, c, first))
        | inr u ↦ absurd (cc (rw (create_cluster_in_rancher, e, u) at h))
      ]
    ]

-- No answer from `attempt` on, within n attempts, has a token.
abbrev pub NoTokens : Codec → (ℕ → Option Response) → ℕ → ℕ → Type 0
NoTokens k answer zero attempt = Unit
NoTokens k answer (suc n) attempt =
    ((list_once k (answer attempt) ≡ none) ⊎ (list_once k (answer attempt) ≡ some []))
    × NoTokens k answer n (attempt + 1)

-- What the attempts come to: the first token that an answer has, or a panic if it is shorter than ten
-- characters, or an error if no answer has one.
abbrev pub Attempts : Codec → (ℕ → Option Response) → ℕ → ℕ → TokenResult → Type 0
Attempts k answer n attempt no_token = NoTokens k answer n attempt
Attempts k answer n attempt (token t) =
    (m : ℕ) × (ts : List Text) × (m < n)
    × NoTokens k answer m attempt
    × (list_once k (answer (attempt + m)) ≡ some (t ∷ ts))
    × (10 ≤ length t)
Attempts k answer n attempt panics =
    (m : ℕ) × (t : Text) × (ts : List Text) × (m < n)
    × NoTokens k answer m attempt
    × (list_once k (answer (attempt + m)) ≡ some (t ∷ ts))
    × (length t < 10)

-- An attempt without a token, before what the others come to.
Attempts-skip :
    (k : Codec) (answer : ℕ → Option Response) (n attempt : ℕ) (r : TokenResult)
    → (list_once k (answer attempt) ≡ none) ⊎ (list_once k (answer attempt) ≡ some [])
    → Attempts k answer n (attempt + 1) r
    → Attempts k answer (suc n) attempt r
Attempts-skip k answer n attempt no_token h g = (h, g)
Attempts-skip k answer n attempt (token t) h (m, ts, lt, before, e, long) =
    let same : attempt + 1 + m ≡ attempt + suc m = omega arith in
    (
      suc m,
      ts,
      omega arith,
      (h, before),
      subst (λ i. list_once k (answer i) ≡ some (t ∷ ts)) same e,
      long,
    )
Attempts-skip k answer n attempt panics h (m, t, ts, lt, before, e, short) =
    let same : attempt + 1 + m ≡ attempt + suc m = omega arith in
    (
      suc m,
      t,
      ts,
      omega arith,
      (h, before),
      subst (λ i. list_once k (answer i) ≡ some (t ∷ ts)) same e,
      short,
    )

-- An attempt with a token.
Attempts-found :
    (k : Codec) (answer : ℕ → Option Response) (n attempt : ℕ) (t : Text) (ts : List Text)
    → list_once k (answer attempt) ≡ some (t ∷ ts)
    → Attempts k answer (suc n) attempt (log_token t)
unfolding log_token
Attempts-found k answer n attempt t ts e =
    let same : attempt ≡ attempt + 0 = omega arith in
    let here = subst (λ i. list_once k (answer i) ≡ some (t ∷ ts)) same e in
    elim (Bool-cases (leb 10 (length t))) [
      | inl f ↦ rw (log_token, f) (0, ts, omega arith, tt, here, ground arith)
      | inr f ↦ rw (log_token, f) (0, t, ts, omega arith, tt, here, ground arith)
    ]

attempt_tokens-Attempts :
    (k : Codec) (answer : ℕ → Option Response) (n attempt : ℕ)
    → Attempts k answer n attempt (attempt_tokens k answer n attempt)
unfolding attempt_tokens
attempt_tokens-Attempts k answer zero attempt = tt
attempt_tokens-Attempts k answer (suc n) attempt =
    let rest = attempt_tokens k answer n (attempt + 1) in
    let ih = attempt_tokens-Attempts k answer n (attempt + 1) in
    elim (Option-cases (list_once k (answer attempt))) [
      | inl e ↦ rw (attempt_tokens, e) (Attempts-skip k answer n attempt rest (inl e) ih)
      | inr ([], e) ↦ rw (attempt_tokens, e) (Attempts-skip k answer n attempt rest (inr e) ih)
      | inr (t ∷ ts, e) ↦ rw (attempt_tokens, e) (Attempts-found k answer n attempt t ts e)
    ]

-- getClusterToken makes at most five attempts and takes the first token of the first answer that has
-- one: it returns a token of ten characters or more, panics on a shorter one, and fails only if none
-- of the five answers has a token.
pub get_cluster_token-Attempts :
    (k : Codec) (answer : ℕ → Option Response) → Attempts k answer 5 1 (get_cluster_token k answer)
unfolding get_cluster_token
get_cluster_token-Attempts k answer = attempt_tokens-Attempts k answer 5 1
