-- ===== src/Tests/Startup.antt =====
-- Tests of the start of the agent: main.go.
use scale_cluster_agent.Types.{Config}
use scale_cluster_agent.Agent.{template, info, store}
use scale_cluster_agent.Agent.Separate.{IsSeparate}
use scale_cluster_agent.Kwok.Names.{dir_name}
use scale_cluster_agent.Kwok.Manager.{Entry, Command, cleanup_old_clusters}
use scale_cluster_agent.Kwok.Manager.Cleanup.{touched}
use scale_cluster_agent.Persist.{restored}
use scale_cluster_agent.Proxy.Invariant.{IsOwned}
use scale_cluster_agent.Configuration.Sources.{no_config}
use scale_cluster_agent.Startup.{
  chosen_template, loaded_clusters, loaded_entries, StartAnswers, start_agent, start_proxies,
  start_up, cleanup_tick,
}
use scale_cluster_agent.Startup.Ready.{start_up-Ready}
use scale_cluster_agent.Startup.Ticks.{cleanup_tick-kept}
use scale_cluster_agent.Tests.Agent.{a_name, new_a, no_clusters}
use scale_cluster_agent.Tests.Kwok.{disk, on_disk}
use scale_cluster_agent.Tests.Proxy.{world}
use scale_cluster_agent.Tests.Readiness.{answers}
use scale_cluster_agent.Prelude.Dict.{lookup, insert}
use scale_cluster_agent.Prelude.{
  ◌≡◌, ◌≢◌, List, refl, true, false, [], ◌∷◌, none, some, Text, text_eq, nat_eq, codes, contains,
}

abbrev config : Config
config = no_config

abbrev start : StartAnswers
start = record {
  kwokctl_path = codes "./kwokctl";
  kwok_path = codes "./kwok";
  disk = disk;
  listing = some on_disk;
  main_cluster = answers;
  loaded = restored (record {
    clusters = (a_name, some new_a) ∷ [];
    proxy_ports = (codes "c-1", 8441) ∷ [];
    version = codes "1";
  });
  cluster_yaml = none;
  worlds = λ id. world;
}

start_up-Ready_example :
    IsSeparate (start_agent config start)
    × (info (start_agent config start) template ≡ some (chosen_template none))
    × ((n : Text)
        → n ≢ template
        → info (start_agent config start) n ≡ lookup n (loaded_clusters start.loaded))
    × ((n : Text) → n ≢ template → lookup n (loaded_entries start.loaded) ≢ some none)
    × IsOwned (start_proxies config start (start_agent config start))
unfolding start_up
start_up-Ready_example =
    start_up-Ready config start (start_agent config start)
      (start_proxies config start (start_agent config start)) refl

-- The directory of the cluster, and another one
abbrev old_dirs : List Entry
old_dirs =
    record { name = dir_name (codes "c-1") 8001; is_dir = true }
    ∷ record { name = dir_name (codes "c-9") 8002; is_dir = true }
    ∷ []

abbrev commands : List Command
commands = elim (cleanup_tick (store a_name new_a no_clusters) (some old_dirs)) [
  | none ↦ []
  | some cs ↦ cs
]

cleanup_tick-kept_example : contains (touched commands) (dir_name (codes "c-1") 8001) ≡ false
unfolding cleanup_tick cleanup_old_clusters store insert lookup text_eq nat_eq
cleanup_tick-kept_example =
    cleanup_tick-kept (store a_name new_a no_clusters) old_dirs {cs = commands} a_name new_a 8001
      refl refl (λ h. absurd (cc h))
