-- ===== src/Kwok/Disk.antt =====
-- RehydrateFromDisk and RestoreClusterRecord of kwok_integration.go: the manager's map rebuilt from the
-- directory of the KWOK clusters.
pub mod Laws
use scale_cluster_agent.Types.{KwokCluster}
use scale_cluster_agent.Strings.{has_prefix}
use scale_cluster_agent.Kwok.Names.{rancher_prefix, parse_dir, middle_id, load_port}
use scale_cluster_agent.Kwok.Manager.{Manager, Entry, Listing, Command, start}
use scale_cluster_agent.Prelude.Dict.{lookup, insert}
use scale_cluster_agent.Prelude.Int.{ℤ}
use scale_cluster_agent.Prelude.{
  ℕ, Bool, not, true, false, ◌&&◌, List, [], ◌∷◌, ◌++◌, Option, none, some, Text, text_eq, codes,
  ◌==◌, if◌then◌else◌,
}

-- What the outside world answers: the time at which an entry is reached, whether kubectl reaches the
-- cluster of that name, whether its kubeconfig exists, and the path of the directory.
pub record Disk : Type 0 where
  pub now : Text → ℕ
  pub reachable : Text → Bool
  pub has_kubeconfig : Text → Bool
  pub clusters_dir : Text

-- filepath.Join(clustersDir, name, "kubeconfig.yaml")
kubeconfig_path : Disk → Text → Text
kubeconfig_path d name = d.clusters_dir ++ (codes "/" ++ (name ++ codes "/kubeconfig.yaml"))

-- The record that both functions make of a directory.
pub found_cluster : Disk → Text → Text → ℤ → KwokCluster
unfolding kubeconfig_path
found_cluster d name id port = record {
  name = name;
  cluster_id = id;
  port = port;
  kubeconfig = kubeconfig_path d name;
  status = codes "Ready";
  created_at = d.now name;
  config = none;
}

-- A cluster that is in the map already stays as it is.
add_missing : Disk → Text → Text → ℤ → Manager → Manager
add_missing d name id port m = elim (lookup id m.clusters) [
  | some c ↦ m
  | none ↦ record m { clusters = insert id (found_cluster d name id port) m.clusters }
]

-- One round of the loop over the entries.
rehydrate_entry : Disk → Entry → Manager → Manager × List Command
unfolding add_missing
rehydrate_entry d e m = if not e.is_dir then (m, []) else elim (parse_dir e.name) [
  | none ↦ (m, [])
  | some (id, port) ↦
      (add_missing d e.name id port m, if d.reachable e.name then [] else start e.name ∷ [])
]

rehydrate_loop : Disk → List Entry → Manager → Manager × List Command
unfolding rehydrate_entry
rehydrate_loop d [] m = (m, [])
rehydrate_loop d (e ∷ es) m =
    let (m', cs) = rehydrate_entry d e m in
    let (m'', cs') = rehydrate_loop d es m' in (m'', cs ++ cs')

-- RehydrateFromDisk
unfoldable pub rehydrate_from_disk : Disk → Listing → Manager → Manager × List Command
unfolding rehydrate_loop
rehydrate_from_disk d listing m = elim listing [ none ↦ (m, []) | some es ↦ rehydrate_loop d es m ]

-- tryLoad, before it writes the map
load_record : Disk → Text → Text → Option KwokCluster
load_record d id name = elim (load_port name) [
  | none ↦ none
  | some port ↦ if d.has_kubeconfig name then some (found_cluster d name id port) else none
]

-- The loop over the entries: the first directory of the ID that loads.
restore_loop : Disk → Text → List Entry → Option KwokCluster
unfolding load_record text_eq
restore_loop d id [] = none
restore_loop d id (e ∷ es) =
    let rest = restore_loop d id es in
    if e.is_dir && has_prefix e.name rancher_prefix
    then elim (middle_id e.name) [
      | none ↦ rest
      | some cid ↦
          if cid == id
          then elim (load_record d id e.name) [ none ↦ rest | some c ↦ some c ]
          else rest
    ]
    else rest

-- A name given is tried first; the empty name stands for none.
restore_named : Disk → Text → Text → Option KwokCluster
unfolding load_record text_eq
restore_named d id kwok_name = if kwok_name == codes "" then none else load_record d id kwok_name

-- A cluster that was loaded goes into the map; `none` is an error.
store_loaded : Manager → Text → Option KwokCluster → Option (Manager × KwokCluster)
store_loaded m id none = none
store_loaded m id (some c) = some (record m { clusters = insert id c m.clusters }, c)

-- RestoreClusterRecord
unfoldable pub restore_cluster_record :
    Disk → Listing → Manager → Text → Text → Option (Manager × KwokCluster)
unfolding restore_loop restore_named store_loaded
restore_cluster_record d listing m id kwok_name = elim (lookup id m.clusters) [
  | some c ↦ some (m, c)
  | none ↦ elim (restore_named d id kwok_name) [
    | some c ↦ store_loaded m id (some c)
    | none ↦ elim listing [ none ↦ none | some es ↦ store_loaded m id (restore_loop d id es) ]
  ]
]
