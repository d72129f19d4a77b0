-- ===== src/Kwok/Manager.antt =====
-- KWOKClusterManager of kwok_integration.go. A method takes the manager and what the outside world
-- answers (the directory of the clusters, and the outcome of each command that may fail), and returns
-- the manager, the kwokctl commands that it has run, in order, and its result. A method holds the mutex
-- all along, so that it is one step, but for CreateCluster, which lets go of it while its commands run.
pub mod Ports
pub mod Create
pub mod Cleanup
pub mod Distinct
use scale_cluster_agent.Types.{KwokCluster, ClusterInfo, ClusterConfig, Node, Pod}
use scale_cluster_agent.Strings.{has_prefix}
use scale_cluster_agent.Kwok.Names.{
  rancher_prefix, dir_name, parse_dir, middle_id, disk_port, load_port,
}
use scale_cluster_agent.Kwok.Populate.{World, PopulateError, populate_cluster_data}
use scale_cluster_agent.Prelude.Results.{Result, ok, err}
use scale_cluster_agent.Prelude.Dict.{Dict, lookup, insert, erase}
use scale_cluster_agent.Prelude.Int.{ℤ, pos, int_eq}
use scale_cluster_agent.Prelude.{
  ℕ, zero, suc, ◌+◌, ◌≡◌, Bool, true, false, not, ◌&&◌, ◌||◌, List, [], ◌∷◌, ◌++◌, map, Option,
  none, some, Text, text_eq, nat_eq, codes, ◌==◌, contains, if◌then◌else◌,
}

pub record Manager : Type 0 where
  pub clusters : Dict Text KwokCluster
  pub base_port : ℕ
  pub kwokctl_path : Text
  pub kwok_path : Text
  pub audit_enabled : Bool

-- NewKWOKClusterManager
pub new_manager : Text → Text → ℕ → Bool → Manager
new_manager kwokctl_path kwok_path base_port audit_enabled = record {
  clusters = [];
  base_port = base_port;
  kwokctl_path = kwokctl_path;
  kwok_path = kwok_path;
  audit_enabled = audit_enabled;
}

-- A directory entry of ~/.kwok/clusters; a directory that cannot be read is `none`.
pub record Entry : Type 0 where
  pub name : Text
  pub is_dir : Bool

abbrev pub Listing : Type 0
Listing = Option (List Entry)

-- kwokctl create, start, stop and delete cluster
pub data Command : Type 0 where
  create : Text → ℕ → Command
  start stop delete : Text → Command

-- deleteKWOKCluster: errors of either command are only logged
abbrev pub delete_kwok_cluster : Text → List Command
delete_kwok_cluster name = stop name ∷ delete name ∷ []

-- The ports of the entries of the disk that look like those of the agent's clusters.
pub disk_ports : List Entry → List ℤ
disk_ports [] = []
disk_ports (e ∷ es) =
    let rest = disk_ports es in
    if e.is_dir && has_prefix e.name rancher_prefix
    then elim (disk_port e.name) [ none ↦ rest | some port ↦ port ∷ rest ]
    else rest

unfoldable pub used_ports : Manager → Listing → List ℤ
unfolding disk_ports
used_ports m listing =
    map (λ (id, c). c.port) m.clusters ++ elim listing [ none ↦ [] | some es ↦ disk_ports es ]

-- for port := p; n rounds; port += 10
pub first_free : List ℤ → ℕ → ℕ → ℕ
first_free used zero port = 0
first_free used (suc n) port =
    let rest = first_free used n (port + 10) in if contains used (pos port) then rest else port

-- findNextAvailablePortLocked: the loop runs below basePort+10000 in steps of 10, so 1000 rounds
abbrev pub rounds : ℕ
rounds = 1000

unfoldable pub find_next_available_port : Manager → Listing → ℕ
unfolding used_ports first_free
find_next_available_port m listing = first_free (used_ports m listing) rounds m.base_port

-- What CreateCluster meets on its way.
pub record Answers : Type 0 where
  pub timed_out : Bool
  pub create_ok : Bool
  pub ready_ok : Bool
  pub connect_ok : Bool
  pub kubeconfig : Option Text
  pub world : World
  pub now : ℕ

pub data CreateError : Type 0 where
  already_exists no_port cancelled create_failed not_ready not_connected no_kubeconfig : CreateError
  not_populated : PopulateError → CreateError

pub record Created : Type 0 where
  pub manager : Manager
  pub commands : List Command
  pub result : Result CreateError KwokCluster

abbrev fail : Manager → List Command → CreateError → Created
fail m cs e = record { manager = m; commands = cs; result = err e }

-- The record of a cluster that is up goes into the map before the cluster is populated.
record_cluster : Answers → Manager → Text → KwokCluster → List Command → Created
record_cluster a m cluster_name c cs =
    let m' = record m { clusters = insert c.cluster_id c m.clusters } in
    elim (populate_cluster_data a.world cluster_name) [
      | ok done ↦ record { manager = m'; commands = cs; result = ok c }
      | err e ↦ fail m' (cs ++ delete_kwok_cluster c.name) (not_populated e)
    ]

pub create_on : Answers → Manager → Text → Text → Option ClusterInfo → ℕ → Created
unfolding record_cluster nat_eq
create_on a m cluster_name id config port =
    let dir = dir_name id port in
    let cs = create dir port ∷ [] in
    let undone = cs ++ delete_kwok_cluster dir in
    if port == 0
    then fail m [] no_port
    else if a.timed_out
    then fail m [] cancelled
    else if not a.create_ok
    then fail m cs create_failed
    else if not a.ready_ok
    then fail m undone not_ready
    else if not a.connect_ok
    then fail m undone not_connected
    else elim a.kubeconfig [
      | none ↦ fail m undone no_kubeconfig
      | some kubeconfig ↦
          record_cluster a m cluster_name
            (record {
              name = dir;
              cluster_id = id;
              port = pos port;
              kubeconfig = kubeconfig;
              status = codes "Ready";
              created_at = a.now;
              config = config;
            })
            cs
    ]

-- CreateCluster, which holds the mutex while it looks for the ID and a port in the manager as it is
-- `before`, and again from the record of the cluster on, in the manager as it is `after` its commands;
-- what other methods do in between is in `after`.
unfoldable pub create_cluster_between :
    Answers → Listing → Manager → Manager → Text → Text → Option ClusterInfo → Created
unfolding create_on
create_cluster_between a listing before after cluster_name id config =
    elim (lookup id before.clusters) [
      | some c ↦ fail after [] already_exists
      | none ↦ create_on a after cluster_name id config (find_next_available_port before listing)
    ]

-- CreateCluster, where no other method runs in between
unfoldable pub create_cluster :
    Answers → Listing → Manager → Text → Text → Option ClusterInfo → Created
unfolding create_cluster_between
create_cluster a listing m cluster_name id config =
    create_cluster_between a listing m m cluster_name id config

-- DeleteCluster: `none` is the error of an unknown ID
unfoldable pub delete_cluster : Manager → Text → Option (Manager × List Command)
delete_cluster m id = elim (lookup id m.clusters) [
  | none ↦ none
  | some c ↦ some (record m { clusters = erase id m.clusters }, delete_kwok_cluster c.name)
]

pub get_cluster : Manager → Text → Option KwokCluster
get_cluster m id = lookup id m.clusters

pub list_clusters : Manager → List KwokCluster
list_clusters m = map (λ (id, c). c) m.clusters

pub get_cluster_port : Manager → Text → Option ℤ
unfolding get_cluster
get_cluster_port m id = elim (get_cluster m id) [ none ↦ none | some c ↦ some c.port ]

cleanup_commands : Dict Text KwokCluster → List Command
cleanup_commands [] = []
cleanup_commands ((id, c) ∷ d) = delete_kwok_cluster c.name ++ cleanup_commands d

-- Cleanup
pub cleanup : Manager → Manager × List Command
unfolding cleanup_commands
cleanup m = (record m { clusters = [] }, cleanup_commands m.clusters)

-- The ID that CleanupOldClusters finds in a name is one of the active ones.
pub is_active : List Text → Text → Bool
is_active active name = elim (middle_id name) [ none ↦ false | some id ↦ contains active id ]

cleanup_old : List Text → List Entry → List Command
unfolding is_active
cleanup_old active [] = []
cleanup_old active (e ∷ es) =
    let rest = cleanup_old active es in
    if e.is_dir && has_prefix e.name rancher_prefix && not (is_active active e.name)
    then delete_kwok_cluster e.name ++ rest
    else rest

-- CleanupOldClusters: the set of active IDs as a list; `none` is the error of an unreadable directory
unfoldable pub cleanup_old_clusters : List Text → Listing → Option (List Command)
unfolding cleanup_old
cleanup_old_clusters active listing = elim listing [
  | none ↦ none
  | some es ↦ some (cleanup_old active es)
]
