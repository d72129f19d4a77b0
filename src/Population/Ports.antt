-- ===== src/Population/Ports.antt =====
-- The ports of a service: the text of cluster.yaml, such as "80:30080/TCP,443/TCP", and the names that
-- the program makes for them.
pub mod Unique
use scale_cluster_agent.Strings.{split, last_index, atoi}
use scale_cluster_agent.Strings.Trim.{trim_space, to_upper, index, itoa_int}
use scale_cluster_agent.Strings.{itoa}
use scale_cluster_agent.Prelude.Int.{ℤ, pos}
use scale_cluster_agent.Prelude.{
  ℕ, zero, suc, ◌+◌, Bool, true, false, List, [], ◌∷◌, ◌++◌, Option, none, some, Text, text_eq,
  codes, ◌==◌, length, take, drop, contains, map, if◌then◌else◌,
}

pub record Port : Type 0 where
  pub name : Text
  pub number : ℤ
  pub protocol : Text

-- fmt.Sprintf("%s-%d", baseName, portIndex)
abbrev pub candidate : Text → ℕ → Text
candidate base i = base ++ (b'-' ∷ itoa i)

-- The loop that looks for a name that is not seen yet, with the rounds that are left: the name, and
-- the index that was used last.
unfoldable pub fresh_name : List Text → Text → ℕ → Text → ℕ → Text × ℕ
fresh_name seen base zero name i = (name, i)
fresh_name seen base (suc n) name i =
    let rest = fresh_name seen base n (candidate base (suc i)) (suc i) in
    if contains seen name then rest else (name, i)

-- The protocol behind the last "/", and what is before it.
unfoldable pub split_protocol : Text → Text × Text
split_protocol raw = elim (last_index raw b'/') [
  | none ↦ (raw, codes "TCP")
  | some slash ↦ (trim_space (take slash raw), to_upper (trim_space (drop (suc slash) raw)))
]

-- What is before the first ":".
unfoldable pub drop_node_port : Text → Text
drop_node_port raw = elim (index raw b':') [ none ↦ raw | some colon ↦ take colon raw ]

-- One part of the text: the number and the protocol, if it has a number.
unfoldable pub parse_part : Text → Option (ℤ × Text)
unfolding split_protocol drop_node_port
parse_part part =
    let (raw, protocol) = split_protocol (trim_space part) in
    if trim_space part == [] then none else elim (atoi (trim_space (drop_node_port raw))) [
      | none ↦ none
      | some number ↦ some (number, protocol)
    ]

-- The loop over the parts, with the names that are seen and portIndex.
unfoldable pub ports_loop : List Text → List Text → ℕ → List Port
unfolding fresh_name parse_part
ports_loop [] seen i = []
ports_loop (part ∷ parts) seen i = elim (parse_part part) [
  | none ↦ ports_loop parts seen i
  | some (number, protocol) ↦
      let base = b'p' ∷ itoa_int number in
      let (name, i') = fresh_name seen base (suc (length seen)) base i in
      record { name = name; number = number; protocol = protocol }
      ∷ ports_loop parts (name ∷ seen) i'
]

abbrev pub fallback : Port
fallback = record { name = codes "p80"; number = pos 80; protocol = codes "TCP" }

-- added == 0
abbrev pub or_fallback : List Port → List Port
or_fallback [] = fallback ∷ []
or_fallback (p ∷ ps) = p ∷ ps

-- The entries of the service's list of ports.
unfoldable pub service_ports : Text → List Port
unfolding ports_loop
service_ports ports =
    let found = ports_loop (split ports 44) [] 0 in or_fallback (if ports == [] then [] else found)
