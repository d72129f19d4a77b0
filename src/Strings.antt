-- ===== src/Strings.antt =====
-- The functions of Go's packages `strings` and `strconv` and of `fmt.Sprintf("%d")` that the program
-- uses, on texts as lists of bytes. The proofs are in the modules below this one.
pub mod Parts
pub mod Numbers
pub mod Trim
use scale_cluster_agent.Prelude.Int.{ℤ, pos, negsuc}
use scale_cluster_agent.Prelude.{
  ℕ, zero, suc, ◌+◌, ◌-◌, ◌*◌, ◌/◌, ◌%◌, ◌^◌, Bool, true, false, ◌&&◌, ◌||◌, List, [], ◌∷◌, ◌++◌,
  Option, none, some, Text, ◌==◌, nat_eq, ltb, leb, length, if◌then◌else◌,
}

-- strings.HasPrefix(s, p)
unfoldable pub has_prefix : Text → Text → Bool
unfolding nat_eq
has_prefix s [] = true
has_prefix [] (x ∷ p) = false
has_prefix (c ∷ s) (x ∷ p) = x == c && has_prefix s p

-- strings.LastIndex(s, sep) for a separator of one byte; -1 is `none`
unfoldable pub last_index : Text → ℕ → Option ℕ
unfolding nat_eq
last_index [] sep = none
last_index (c ∷ s) sep = elim (last_index s sep) [
  | some i ↦ some (suc i)
  | none ↦ if c == sep then some 0 else none
]

unfoldable pub cons_head : ℕ → List Text → List Text
cons_head c [] = (c ∷ []) ∷ []
cons_head c (p ∷ ps) = (c ∷ p) ∷ ps

-- strings.Split(s, sep) for a separator of one byte
unfoldable pub split : Text → ℕ → List Text
unfolding nat_eq cons_head
split [] sep = [] ∷ []
split (c ∷ s) sep = let rest = split s sep in if c == sep then [] ∷ rest else cons_head c rest

-- strings.Join(parts, sep)
unfoldable pub join : List Text → ℕ → Text
join [] sep = []
join (p ∷ []) sep = p
join (p ∷ q ∷ ps) sep = p ++ (sep ∷ join (q ∷ ps) sep)

is_digit : ℕ → Bool
is_digit c = leb b'0' c && leb c b'9'

-- The number that the digits of the text continue.
unfoldable pub scan : Text → ℕ → Option ℕ
unfolding is_digit
scan [] n = some n
scan (c ∷ s) n = let rest = scan s (n * 10 + (c - b'0')) in if is_digit c then rest else none

-- One or more digits, in range.
unfoldable pub magnitude : ℕ → Text → Option ℕ
unfolding scan
magnitude limit [] = none
magnitude limit (c ∷ s) = elim (scan (c ∷ s) 0) [
  | none ↦ none
  | some n ↦ if ltb limit n then none else some n
]

abbrev pub max_int : ℕ
max_int = 2 ^ 63 - 1

negate : ℕ → ℤ
negate zero = pos 0
negate (suc n) = negsuc n

-- strconv.Atoi(s); any error is `none`
unfoldable pub atoi : Text → Option ℤ
unfolding nat_eq magnitude negate
atoi [] = none
atoi (c ∷ s) =
    if c == b'-'
    then elim (magnitude (suc max_int) s) [ none ↦ none | some n ↦ some (negate n) ]
    else if c == b'+'
    then elim (magnitude max_int s) [ none ↦ none | some n ↦ some (pos n) ]
    else elim (magnitude max_int (c ∷ s)) [ none ↦ none | some n ↦ some (pos n) ]

-- The digits of a number in front of a text. A number below the fuel has enough.
unfoldable pub digits : ℕ → ℕ → Text → Text
digits zero n out = out
digits (suc f) n out =
    let rest = digits f (n / 10) ((b'0' + n % 10) ∷ out) in
    if ltb n 10 then (b'0' + n) ∷ out else rest

-- fmt.Sprintf("%d", n)
unfoldable pub itoa : ℕ → Text
unfolding digits
itoa n = digits (suc n) n []

-- The rest of a text with `old` replaced, where the next `skip` bytes belong to one replaced already.
unfoldable pub replace_from : Text → Text → ℕ → Text → Text
unfolding has_prefix
replace_from old new skip [] = []
replace_from old new (suc skip) (c ∷ s) = replace_from old new skip s
replace_from old new zero (c ∷ s) = elim (has_prefix (c ∷ s) old) [
  | true ↦ new ++ replace_from old new (length old - 1) s
  | false ↦ c ∷ replace_from old new 0 s
]

-- strings.ReplaceAll(s, old, new) for an `old` that is not empty
unfoldable pub replace_all : Text → Text → Text → Text
unfolding replace_from
replace_all s old new = replace_from old new 0 s

-- strings.Contains(s, sub)
unfoldable pub contains_text : Text → Text → Bool
unfolding has_prefix
contains_text [] sub = has_prefix [] sub
contains_text (c ∷ s) sub = has_prefix (c ∷ s) sub || contains_text s sub

unfoldable pub lower_byte : ℕ → ℕ
lower_byte c = if leb b'A' c && leb c b'Z' then c + 32 else c

-- strings.ToLower(s) on ASCII
unfoldable pub to_lower : Text → Text
unfolding lower_byte
to_lower [] = []
to_lower (c ∷ s) = lower_byte c ∷ to_lower s
