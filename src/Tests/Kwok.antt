-- ===== src/Tests/Kwok.antt =====
-- Tests of the KWOK manager: kwok_integration.go.
use scale_cluster_agent.Types.{KwokCluster, ClusterConfig, ClusterInfo}
use scale_cluster_agent.Strings.{itoa, atoi, has_prefix, split}
use scale_cluster_agent.Kwok.Names.{dir_name, disk_port}
use scale_cluster_agent.Kwok.Populate.{unreadable, populate_cluster_data}
use scale_cluster_agent.Kwok.Manager.{
  Manager, Entry, Answers, already_exists, not_populated, find_next_available_port, create_cluster,
  create_cluster_between, Listing,
}
use scale_cluster_agent.Kwok.Manager.Create.{Leaves, undone, create_cluster-err}
use scale_cluster_agent.Kwok.Manager.Distinct.{
  DistinctPorts, create_cluster-DistinctPorts, create_cluster-stale, create_cluster-race,
}
use scale_cluster_agent.Kwok.Disk.{Disk, found_cluster, rehydrate_from_disk}
use scale_cluster_agent.Kwok.Disk.Laws.{rehydrate_from_disk-restart}
use scale_cluster_agent.Prelude.Results.{err}
use scale_cluster_agent.Prelude.Dict.{lookup, lookup-nil}
use scale_cluster_agent.Prelude.Int.{pos, int_eq}
use scale_cluster_agent.Prelude.{
  ◌≡◌, refl, true, false, List, [], ◌∷◌, Option, none, some, Text, text_eq, nat_eq, codes, arith,
}

abbrev pub sample_id : Text
sample_id = codes "c-abc12"

abbrev local_id : Text
local_id = codes "local"

sample_name : dir_name sample_id 8001 ≡ codes "rancher-c-abc12-8001"
unfolding dir_name itoa
sample_name = refl

abbrev pub fresh : Manager
fresh = record {
  clusters = [];
  base_port = 8001;
  kwokctl_path = codes "./kwokctl";
  kwok_path = codes "./kwok";
  audit_enabled = false;
}

abbrev pub on_disk : List Entry
on_disk = record { name = codes "rancher-c-abc12-8001"; is_dir = true } ∷ []

next_port : find_next_available_port fresh (some on_disk) ≡ 8011
unfolding find_next_available_port disk_port int_eq has_prefix split atoi
next_port = refl

abbrev config_text : Text
config_text = codes "name: {{cluster-name}}"

abbrev one_pod : Text → Option ClusterConfig
one_pod text = some (record { name = text; nodes = []; pods = [] })

abbrev pub all_well : Answers
all_well = record {
  timed_out = false;
  create_ok = true;
  ready_ok = true;
  connect_ok = true;
  kubeconfig = some (codes "kc");
  world = record {
    config_file = some config_text;
    unmarshal = one_pod;
    namespace_ok = λ ns. true;
    node_ok = λ n. true;
    pod_ok = λ p. true;
  };
  now = 7;
}

abbrev no_config : Answers
no_config = record all_well {
  world = record {
    config_file = none;
    unmarshal = one_pod;
    namespace_ok = λ ns. true;
    node_ok = λ n. true;
    pod_ok = λ p. true;
  };
}

abbrev new_cluster : KwokCluster
new_cluster = record {
  name = dir_name sample_id 8001;
  cluster_id = sample_id;
  port = pos 8001;
  kubeconfig = codes "kc";
  status = codes "Ready";
  created_at = 7;
  config = none;
}

create_cluster-err_example :
    Leaves fresh sample_id
      (find_next_available_port fresh none)
      (create_cluster_between no_config none fresh fresh (codes "a") sample_id none)
      (not_populated unreadable)
unfolding create_cluster_between find_next_available_port populate_cluster_data lookup
create_cluster-err_example =
    create_cluster-err no_config none fresh fresh (codes "a") sample_id none
      (not_populated unreadable) refl

no_cluster-DistinctPorts : DistinctPorts fresh
no_cluster-DistinctPorts = record {
  at = λ i j c d hi hj same. absurd (cc (hi, lookup-nil {V = KwokCluster} i));
}

create_cluster-DistinctPorts_example :
    DistinctPorts (create_cluster all_well none fresh (codes "a") sample_id none).manager
create_cluster-DistinctPorts_example =
    create_cluster-DistinctPorts all_well none fresh (codes "a") sample_id none
      no_cluster-DistinctPorts

create_cluster-stale_example :
    ((create_cluster_between no_config none fresh fresh (codes "a") sample_id none).commands
      ≡ undone
          (dir_name sample_id (find_next_available_port fresh none))
          (find_next_available_port fresh none))
    × ((before' after' : Manager) (a' : Answers) (listing' : Listing) (name' : Text)
          (config' : Option ClusterInfo)
        → lookup sample_id before'.clusters
          ≡ lookup sample_id
              (create_cluster_between no_config none fresh fresh
                (codes "a")
                sample_id
                none).manager.clusters
        → create_cluster_between a' listing' before' after' name' sample_id config'
          ≡ record { manager = after'; commands = []; result = err already_exists })
unfolding create_cluster_between find_next_available_port populate_cluster_data lookup
create_cluster-stale_example =
    create_cluster-stale no_config none fresh fresh (codes "a") sample_id none {e = unreadable} refl

-- Two clusters whose attempts overlap
abbrev raced : Text → KwokCluster
raced id = record {
  name = dir_name id 8001;
  cluster_id = id;
  port = pos 8001;
  kubeconfig = codes "kc";
  status = codes "Ready";
  created_at = 7;
  config = none;
}

abbrev first_raced : Manager
first_raced =
    (create_cluster_between all_well none fresh fresh (codes "a") (codes "c") none).manager

create_cluster-race_example :
    (lookup
        (codes "c")
        (create_cluster_between all_well none fresh first_raced
          (codes "b")
          (codes "cc")
          none).manager.clusters
      ≡ some (raced (codes "c")))
    × (lookup
          (codes "cc")
          (create_cluster_between all_well none fresh first_raced
            (codes "b")
            (codes "cc")
            none).manager.clusters
        ≡ some (raced (codes "cc")))
    × ((raced (codes "c")).port ≡ (raced (codes "cc")).port)
unfolding create_cluster_between find_next_available_port populate_cluster_data lookup
create_cluster-race_example =
    create_cluster-race all_well all_well none fresh (codes "a") (codes "b") (codes "c")
      (codes "cc") none none (raced (codes "c")) (raced (codes "cc")) (cc) refl refl

abbrev with_main : List Entry
with_main = record { name = codes "main-cluster"; is_dir = true } ∷ on_disk

abbrev pub disk : Disk
disk = record {
  now = λ name. 9;
  reachable = λ name. true;
  has_kubeconfig = λ name. true;
  clusters_dir = codes "/home/u/.kwok/clusters";
}

rehydrate_from_disk-restart_example :
    lookup sample_id (rehydrate_from_disk disk (some on_disk) fresh).0.clusters
    ≡ some (found_cluster disk (dir_name sample_id 8001) sample_id (pos 8001))
unfolding dir_name itoa lookup text_eq
rehydrate_from_disk-restart_example =
    rehydrate_from_disk-restart disk on_disk fresh sample_id 8001 (cc) (omega arith) refl refl
      (λ port d p. refl, tt)
