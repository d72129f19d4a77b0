-- ===== src/Kwok/Disk/Laws.antt =====
-- RehydrateFromDisk and RestoreClusterRecord: what the map holds afterwards.
use scale_cluster_agent.Types.{KwokCluster}
use scale_cluster_agent.Strings.{max_int}
use scale_cluster_agent.Kwok.Names.{dir_name, parse_dir}
use scale_cluster_agent.Kwok.Names.Laws.{parse_dir-dir_name}
use scale_cluster_agent.Kwok.Manager.{Manager, Entry}
use scale_cluster_agent.Kwok.Manager.Cleanup.{dirs}
use scale_cluster_agent.Kwok.Disk.{
  Disk, found_cluster, rehydrate_entry, rehydrate_loop, rehydrate_from_disk,
}
use scale_cluster_agent.Prelude.Dict.{lookup, lookup-insert}
use scale_cluster_agent.Prelude.Int.{ℤ, pos}
use scale_cluster_agent.Prelude.{
  ℕ, ◌≤◌, ◌≡◌, ◌≢◌, ◌∙◌, true, List, [], ◌∷◌, Option, none, some, Text, text_eq, contains, ◌==◌,
  if◌then◌else◌, arith,
}

abbrev pub or_else : Option KwokCluster → Option KwokCluster → Option KwokCluster
or_else (some c) other = some c
or_else none other = other

-- The record for an ID of the first directory whose name reads as that ID.
pub first_found : Disk → List Entry → Text → Option KwokCluster
unfolding text_eq
first_found d [] id = none
first_found d (e ∷ es) id =
    let rest = first_found d es id in
    if e.is_dir
    then elim (parse_dir e.name) [
      | none ↦ rest
      | some (i, port) ↦ if i == id then some (found_cluster d e.name id port) else rest
    ]
    else rest

rehydrate_entry-lookup :
    (d : Disk) (e : Entry) (es : List Entry) (m : Manager) (id : Text)
    → or_else (lookup id (rehydrate_entry d e m).0.clusters) (first_found d es id)
      ≡ or_else (lookup id m.clusters) (first_found d (e ∷ es) id)
unfolding rehydrate_entry first_found
rehydrate_entry-lookup d e es m id = grind (arith, lookup-insert)

rehydrate_loop-lookup :
    (d : Disk) (es : List Entry) (m : Manager) (id : Text)
    → lookup id (rehydrate_loop d es m).0.clusters
      ≡ or_else (lookup id m.clusters) (first_found d es id)
unfolding rehydrate_loop
rehydrate_loop-lookup d [] m id = unfold first_found in ground arith
rehydrate_loop-lookup d (e ∷ es) m id =
    rehydrate_loop-lookup d es (rehydrate_entry d e m).0 id ∙ rehydrate_entry-lookup d e es m id

-- After a scan of a directory that can be read, an ID has the record that it had, or else that of
-- the first directory whose name reads as the ID, or else none.
pub rehydrate_from_disk-lookup :
    (d : Disk) (es : List Entry) (m : Manager) (id : Text)
    → lookup id (rehydrate_from_disk d (some es) m).0.clusters
      ≡ or_else (lookup id m.clusters) (first_found d es id)
unfolding rehydrate_from_disk
rehydrate_from_disk-lookup d es m id = rehydrate_loop-lookup d es m id

-- Every directory that is read as the ID has the name.
abbrev pub OnlyDir : List Entry → Text → Text → Type 0
OnlyDir [] id name = Unit
OnlyDir (e ∷ es) id name =
    ((port : ℤ) → e.is_dir ≡ true → parse_dir e.name ≡ some (id, port) → e.name ≡ name)
    × OnlyDir es id name

first_found-only :
    (d : Disk) (es : List Entry) (id name : Text) (port : ℤ)
    → parse_dir name ≡ some (id, port)
    → contains (dirs es) name ≡ true
    → OnlyDir es id name
    → first_found d es id ≡ some (found_cluster d name id port)
unfolding first_found
first_found-only d [] id name port p h only = cc
first_found-only d (e ∷ es) id name port p h only =
    grind (arith, only.0, first_found-only d es id name port)

-- A restart: with an ID that is not recorded and a directory in which CreateCluster's name for the ID
-- and a port is the only one that reads as the ID, the scan records the ID with that name and that
-- port, where the ID is not empty and the port is in the range of `int`.
pub rehydrate_from_disk-restart :
    (d : Disk) (es : List Entry) (m : Manager) (id : Text) (port : ℕ)
    → id ≢ []
    → port ≤ max_int
    → lookup id m.clusters ≡ none
    → contains (dirs es) (dir_name id port) ≡ true
    → OnlyDir es id (dir_name id port)
    → lookup id (rehydrate_from_disk d (some es) m).0.clusters
      ≡ some (found_cluster d (dir_name id port) id (pos port))
rehydrate_from_disk-restart d es m id port ne fits new h only =
    rehydrate_from_disk-lookup d es m id
    ∙ rw new (
        first_found-only d es id (dir_name id port) (pos port) (parse_dir-dir_name id port ne fits)
          h only)
