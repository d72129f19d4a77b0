-- ===== src/Strings/Trim.antt =====
-- More of Go's `strings`: TrimSpace, ToUpper, Index, Fields, and `%d` for an int. White space and letters are
-- those of ASCII.
use scale_cluster_agent.Strings.{itoa, cons_head}
use scale_cluster_agent.Prelude.Int.{ℤ, pos, negsuc}
use scale_cluster_agent.Prelude.{
  ℕ, suc, ◌-◌, Bool, ◌&&◌, ◌||◌, List, [], ◌∷◌, Option, none, some, Text, ◌==◌, nat_eq, leb,
  if◌then◌else◌,
}

unfoldable pub is_space : ℕ → Bool
unfolding nat_eq
is_space c = leb 9 c && leb c 13 || c == b' '

unfoldable pub trim_left : Text → Text
unfolding is_space
trim_left [] = []
trim_left (c ∷ s) = let rest = trim_left s in if is_space c then rest else c ∷ s

-- Only white space is left out if nothing but white space follows.
unfoldable pub cons_trimmed : ℕ → Text → Text
unfolding is_space
cons_trimmed c [] = if is_space c then [] else c ∷ []
cons_trimmed c (d ∷ s) = c ∷ d ∷ s

unfoldable pub trim_right : Text → Text
unfolding cons_trimmed
trim_right [] = []
trim_right (c ∷ s) = cons_trimmed c (trim_right s)

-- strings.TrimSpace(s)
unfoldable pub trim_space : Text → Text
unfolding trim_left trim_right
trim_space s = trim_right (trim_left s)

-- strings.Index(s, sep) for a separator of one byte; -1 is `none`
unfoldable pub index : Text → ℕ → Option ℕ
unfolding nat_eq
index [] sep = none
index (c ∷ s) sep =
    let rest = elim (index s sep) as (λ _. Option ℕ) [ none ↦ none | some i ↦ some (suc i) ] in
    if c == sep then some 0 else rest

-- strings.ToUpper(s)
unfoldable pub to_upper : Text → Text
to_upper [] = []
to_upper (c ∷ s) = (if leb b'a' c && leb c b'z' then c - 32 else c) ∷ to_upper s

-- fmt.Sprintf("%d", n)
unfoldable pub itoa_int : ℤ → Text
unfolding itoa
itoa_int (pos n) = itoa n
itoa_int (negsuc n) = b'-' ∷ itoa (suc n)

-- strings.Fields(s): the words between white space.
unfoldable pub fields : Text → List Text
unfolding is_space cons_head
fields [] = []
fields (c ∷ []) = if is_space c then [] else (c ∷ []) ∷ []
fields (c ∷ d ∷ s) =
    let rest = fields (d ∷ s) in
    if is_space c then rest else (if is_space d then (c ∷ []) ∷ rest else cons_head c rest)
