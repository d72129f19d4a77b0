-- ===== src/Tests/Restart.antt =====
-- A test of a restart.
use scale_cluster_agent.Kwok.Names.{dir_name}
use scale_cluster_agent.Strings.{itoa}
use scale_cluster_agent.Kwok.Manager.{create_cluster}
use scale_cluster_agent.Kwok.Disk.{rehydrate_from_disk}
use scale_cluster_agent.Agent.{store}
use scale_cluster_agent.Agent.Setup.{Calls, run_complete_cluster_setup, run_setup}
use scale_cluster_agent.Restart.{is_created, rehydrate-run_setup}
use scale_cluster_agent.Tests.Kwok.{fresh, on_disk, sample_id, all_well, disk}
use scale_cluster_agent.Tests.Agent.{calls, no_clusters, new_a, a_name}
use scale_cluster_agent.Prelude.Dict.{lookup, insert}
use scale_cluster_agent.Prelude.{◌≡◌, refl, true, false, none, some, text_eq, nat_eq, codes, arith}

abbrev after_restart : Calls
after_restart = record calls {
  multi_tenant = false;
  kwok_ok =
      is_created
        (create_cluster all_well none (rehydrate_from_disk disk (some on_disk) fresh).0 a_name
          sample_id none).result;
}

rehydrate-run_setup_example :
    lookup 0
      (run_setup
        (λ m. true)
        a_name
        0
        (run_complete_cluster_setup after_restart)
        true
        (store a_name new_a no_clusters)).objects
    ≡ some (record new_a { status = codes "failed" })
unfolding dir_name itoa lookup text_eq store insert nat_eq
rehydrate-run_setup_example =
    rehydrate-run_setup disk on_disk fresh sample_id 8001 all_well none a_name none after_restart
      (λ m. true) a_name 0 true (store a_name new_a no_clusters) new_a (cc) (omega arith) refl refl
      (λ port d p. refl, tt) refl refl (λ h. absurd (cc h)) refl
