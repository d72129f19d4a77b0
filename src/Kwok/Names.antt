-- ===== src/Kwok/Names.antt =====
-- The names of the KWOK clusters, which are the names of their directories: CreateCluster makes them
-- of an ID and a port, and four other functions of kwok_integration.go take them apart, each in its
-- own way.
pub mod Laws
use scale_cluster_agent.Strings.{has_prefix, last_index, split, join, atoi, itoa}
use scale_cluster_agent.Prelude.Int.{ℤ}
use scale_cluster_agent.Prelude.{
  ℕ, suc, ◌-◌, List, [], ◌∷◌, ◌++◌, Option, none, some, Text, codes, leb, length, take, drop,
  if◌then◌else◌,
}

abbrev pub rancher_prefix : Text
rancher_prefix = codes "rancher-"

-- fmt.Sprintf("rancher-%s-%d", clusterID, port)
unfoldable pub dir_name : Text → ℕ → Text
dir_name id port = rancher_prefix ++ (id ++ (b'-' ∷ itoa port))

-- What lies before the last "-" and behind it, where the first part is longer than the prefix.
unfoldable pub parse_at : Text → ℕ → Option (Text × ℤ)
parse_at name last_dash =
    if leb last_dash (length rancher_prefix)
    then none
    else elim (atoi (drop (suc last_dash) name)) [
      | none ↦ none
      | some port ↦
          some (take (last_dash - length rancher_prefix) (drop (length rancher_prefix) name), port)
    ]

-- The ID and the port as RehydrateFromDisk reads them.
unfoldable pub parse_dir : Text → Option (Text × ℤ)
unfolding parse_at
parse_dir name =
    if has_prefix name rancher_prefix
    then elim (last_index name b'-') [ none ↦ none | some last_dash ↦ parse_at name last_dash ]
    else none

-- parts[:len(parts)-1]
abbrev pub but_last : List Text → List Text
but_last [] = []
but_last (p ∷ []) = []
but_last (p ∷ q ∷ ps) = p ∷ but_last (q ∷ ps)

-- parts[len(parts)-1]; the program takes it of a list that is not empty
abbrev pub last_part : List Text → Text
last_part [] = []
last_part (p ∷ []) = p
last_part (p ∷ q ∷ ps) = last_part (q ∷ ps)

-- strings.Join(parts[1:len(parts)-1], "-"), where there are three parts: CleanupOldClusters and
-- RestoreClusterRecord
unfoldable pub middle_id : Text → Option Text
middle_id name =
    let parts = split name b'-' in
    if leb 3 (length parts) then some (join (but_last (drop 1 parts)) b'-') else none

-- The port of a directory in findNextAvailablePortLocked, which wants four parts.
unfoldable pub disk_port : Text → Option ℤ
disk_port name =
    let parts = split name b'-' in if leb 4 (length parts) then atoi (last_part parts) else none

-- The port of a directory in the helper tryLoad of RestoreClusterRecord, which wants three.
unfoldable pub load_port : Text → Option ℤ
load_port name =
    let parts = split name b'-' in if leb 3 (length parts) then atoi (last_part parts) else none
