-- ===== src/Restart.antt =====
-- A restart in the middle of a setup without multi-tenancy: RehydrateFromDisk of kwok_integration.go
-- and the setup that main starts again meet in CreateCluster.
use scale_cluster_agent.Types.{ClusterInfo, KwokCluster}
use scale_cluster_agent.Strings.{max_int}
use scale_cluster_agent.Kwok.Names.{dir_name}
use scale_cluster_agent.Kwok.Manager.{
  Manager, Entry, Listing, Answers, CreateError, create_cluster, create_cluster_between,
}
use scale_cluster_agent.Kwok.Manager.Cleanup.{dirs}
use scale_cluster_agent.Kwok.Disk.{Disk, rehydrate_from_disk}
use scale_cluster_agent.Kwok.Disk.Laws.{OnlyDir, rehydrate_from_disk-restart}
use scale_cluster_agent.Agent.{Agent, template}
use scale_cluster_agent.Agent.Setup.{Calls, run_complete_cluster_setup, run_setup}
use scale_cluster_agent.Agent.Setup.Outcome.{succeeds}
use scale_cluster_agent.Agent.Setup.Resume.{final}
use scale_cluster_agent.Agent.Setup.Final.{run_setup-final}
use scale_cluster_agent.Population.Calls.{Manifest}
use scale_cluster_agent.Prelude.Results.{Result, ok, err}
use scale_cluster_agent.Prelude.Dict.{lookup}
use scale_cluster_agent.Prelude.{
  ℕ, ◌≤◌, ◌≡◌, ◌≢◌, ◌∙◌, ap, Bool, true, false, refl, List, [], Option, none, some, Text, text_eq,
  nat_eq, codes, contains, arith,
}

-- kwokErr == nil, in the goroutine of the setup that calls CreateCluster
abbrev pub is_created : Result CreateError KwokCluster → Bool
is_created (ok c) = true
is_created (err e) = false

create_cluster-recorded :
    (a : Answers) (listing : Listing) (m : Manager) (cluster_name id : Text)
    (config : Option ClusterInfo) (c : KwokCluster)
    → lookup id m.clusters ≡ some c
    → is_created (create_cluster a listing m cluster_name id config).result ≡ false
unfolding create_cluster
create_cluster-recorded a listing m cluster_name id config c h =
    rw (is_created, create_cluster, create_cluster_between, h) refl

no_backing : (w : Calls) → w.multi_tenant ≡ false → w.kwok_ok ≡ false → succeeds w ≡ false
no_backing w t k = rw (t, k) (ground arith)

-- Without multi-tenancy: if CreateCluster's directory for a cluster is on the disk at a restart, as
-- the only one that reads as its ID, where the ID is not empty and was not recorded and the port is in
-- the range of `int`, then a setup of an object that is not the template's, in which CreateCluster is
-- called on what RehydrateFromDisk has found, comes to "failed", whatever else it meets.
pub rehydrate-run_setup :
    (d : Disk) (es : List Entry) (m : Manager) (id : Text) (port : ℕ) (a : Answers)
    (listing : Listing) (cluster_name : Text) (config : Option ClusterInfo) (w : Calls)
    (applies : Manifest → Bool) (cluster : Text) (p : ℕ) (saves : Bool) (agent : Agent)
    (ci : ClusterInfo)
    → id ≢ []
    → port ≤ max_int
    → lookup id m.clusters ≡ none
    → contains (dirs es) (dir_name id port) ≡ true
    → OnlyDir es id (dir_name id port)
    → w.multi_tenant ≡ false
    → w.kwok_ok
      ≡ is_created
          (create_cluster a listing
            (rehydrate_from_disk d (some es) m).0
            cluster_name
            id
            config).result
    → lookup template agent.clusters ≢ some p
    → lookup p agent.objects ≡ some ci
    → lookup p (run_setup applies cluster p (run_complete_cluster_setup w) saves agent).objects
      ≡ some (record ci { status = codes "failed" })
rehydrate-run_setup d es m id port a listing cluster_name config w applies cluster p saves agent ci
      ne fits new on only single called other h =
    let m' = (rehydrate_from_disk d (some es) m).0 in
    let found = rehydrate_from_disk-restart d es m id port ne fits new on only in
    let refused = create_cluster-recorded a listing m' cluster_name id config _ found in
    run_setup-final applies cluster w p saves agent ci other h
    ∙ ap (λ s. some (record ci { status = final s })) (no_backing w single (called ∙ refused))
