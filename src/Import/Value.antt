-- ===== src/Import/Value.antt =====
-- A decoded YAML document, as Go has it: strings, other scalars, maps and slices.
use scale_cluster_agent.Prelude.{
  ◌≡◌, [], Option, none, some, Text, text_eq, ◌==◌, if◌then◌else◌, arith,
}

mutual
  pub data Value : Type 0 where
    string : Text → Value
    scalar : Text → Value
    object : Fields → Value
    array : Values → Value

  pub data Fields : Type 0 where
    no_field : Fields
    field : Text → Value → Fields → Fields

  pub data Values : Type 0 where
    no_value : Values
    value : Value → Values → Values

-- m[key]
unfoldable pub get : Text → Fields → Option Value
get key no_field = none
get key (field k v fs) = let rest = get key fs in if k == key then some v else rest

-- m[key] = v
unfoldable pub set : Text → Value → Fields → Fields
set key v no_field = field key v no_field
set key v (field k w fs) =
    let rest = set key v fs in if k == key then field k v fs else field k w rest

-- The type assertions, with the value where they hold
abbrev pub as_string : Option Value → Option Text
as_string (some (string s)) = some s
as_string _ = none

abbrev pub as_object : Option Value → Option Fields
as_object (some (object fs)) = some fs
as_object _ = none

abbrev pub as_array : Option Value → Option Values
as_array (some (array vs)) = some vs
as_array _ = none

-- name, _ := m[key].(string)
abbrev pub text_at : Text → Fields → Text
text_at key fs = elim (as_string (get key fs)) [ none ↦ [] | some s ↦ s ]

pub get-set :
    (key other : Text) (v : Value) (fs : Fields)
    → get key (set other v fs) ≡ (if other == key then some v else get key fs)
unfolding get set
get-set key other v no_field = ground arith
get-set key other v (field k w fs) = ground (arith, get-set key other v fs)
