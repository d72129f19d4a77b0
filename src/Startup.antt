-- ===== src/Startup.antt =====
-- main of main.go: from the start of the agent to its loops.
pub mod Default
pub mod Ready
pub mod Ticks
use scale_cluster_agent.Types.{Config, ClusterInfo}
use scale_cluster_agent.Kwok.Manager.{Manager, Listing, Command, new_manager, cleanup_old_clusters}
use scale_cluster_agent.Kwok.Disk.{Disk, rehydrate_from_disk}
use scale_cluster_agent.Kwok.Main.{MainAnswers, MainError, ensure_main_cluster}
use scale_cluster_agent.Persist.{Payload, Loaded, first_run, load_error, restored}
use scale_cluster_agent.Proxy.{Proxies, World, start_proxy_for_cluster}
use scale_cluster_agent.Agent.{Agent, template, store}
use scale_cluster_agent.Startup.Default.{default_template}
use scale_cluster_agent.Prelude.Dict.{Dict, lookup}
use scale_cluster_agent.Prelude.Int.{ℤ, pos, negsuc}
use scale_cluster_agent.Prelude.{
  ℕ, zero, suc, Bool, true, false, List, [], ◌∷◌, Option, none, some, Text, text_eq, nat_eq, codes,
  ltb, ◌==◌, if◌then◌else◌,
}

-- The agent before anything is loaded
abbrev pub new_agent : Manager → Agent
new_agent m = record {
  objects = [];
  next_object = 0;
  clusters = [];
  kwok = m;
  connect_cancels = [];
  active_connections = [];
  connecting = [];
  saved = [];
}

-- a.clusters = payload.Clusters: an object for each
abbrev pub load_clusters : Dict Text ClusterInfo → Agent → Agent
load_clusters [] a = a
load_clusters ((name, c) ∷ d) a = store name c (load_clusters d a)

-- What LoadState leaves in the agent; of an error nothing is kept.
abbrev pub loaded_entries : Loaded → Dict Text (Option ClusterInfo)
loaded_entries first_run = []
loaded_entries load_error = []
loaded_entries (restored q) = q.clusters

-- The entries that are not null; the template's is replaced at once, so that it counts for nothing.
unfoldable pub known : Dict Text (Option ClusterInfo) → Dict Text ClusterInfo
known [] = []
known ((name, none) ∷ d) = known d
known ((name, some ci) ∷ d) = (name, ci) ∷ known d

abbrev pub loaded_clusters : Loaded → Dict Text ClusterInfo
loaded_clusters l = known (loaded_entries l)

-- Whether the loops of main meet a null, which they dereference
unfoldable pub has_null : Dict Text (Option ClusterInfo) → Bool
unfolding text_eq
has_null [] = false
has_null ((name, none) ∷ d) = let rest = has_null d in if name == template then rest else true
has_null ((name, some ci) ∷ d) = has_null d

abbrev pub loaded_ports : Loaded → Dict Text ℕ
loaded_ports first_run = []
loaded_ports load_error = []
loaded_ports (restored q) = q.proxy_ports

-- loadClusterTemplate: cluster.yaml as it was read and decoded, or the default
abbrev pub chosen_template : Option ClusterInfo → ClusterInfo
chosen_template none = default_template
chosen_template (some t) = t

-- agent.nextProxyPort
abbrev pub first_proxy_port : ℤ → ℕ
first_proxy_port (pos zero) = 8440
first_proxy_port (pos (suc n)) = suc n
first_proxy_port (negsuc n) = 8440

abbrev pub new_proxies : Config → Loaded → Proxies
new_proxies config l = record {
  ports = loaded_ports l;
  servers = [];
  cmds = [];
  next_port = first_proxy_port config.proxy_base_port;
  reserved = [];
  has_main_url = false;
}

-- The loop that restarts proxies, over the records of the map: `worlds` is what each start meets.
unfoldable pub restart_proxies : (Text → World) → List ClusterInfo → Proxies → Proxies
unfolding start_proxy_for_cluster
restart_proxies worlds [] p = p
restart_proxies worlds (ci ∷ cs) p =
    let id = ci.cluster_id in
    let restarted = elim (lookup id p.ports) as (λ _. Proxies) [
      | none ↦ p
      | some port ↦ if ltb 0 port then (start_proxy_for_cluster (worlds id) true id port p).0 else p
    ] in
    restart_proxies worlds cs (if id == [] then p else restarted)

-- The records of the map
unfoldable pub infos : Dict ℕ ClusterInfo → Dict Text ℕ → List ClusterInfo
infos objects [] = []
infos objects ((name, p) ∷ d) =
    let rest = infos objects d in elim (lookup p objects) [ none ↦ rest | some ci ↦ ci ∷ rest ]

-- What the start meets.
pub record StartAnswers : Type 0 where
  pub kwokctl_path : Text
  pub kwok_path : Text
  pub disk : Disk
  pub listing : Listing
  pub main_cluster : MainAnswers
  pub loaded : Loaded
  pub cluster_yaml : Option ClusterInfo
  pub worlds : Text → World

-- The KWOK manager, with what RehydrateFromDisk finds
unfoldable pub start_manager : Config → StartAnswers → Manager
unfolding rehydrate_from_disk
start_manager config w =
    (rehydrate_from_disk w.disk w.listing
      (new_manager w.kwokctl_path w.kwok_path 8001 config.audit)).0

-- The agent with its clusters and its template
unfoldable pub start_agent : Config → StartAnswers → Agent
unfolding start_manager store
start_agent config w =
    store template (chosen_template w.cluster_yaml)
      (load_clusters (loaded_clusters w.loaded) (new_agent (start_manager config w)))

-- The proxies once the loop has restarted them, which it does only with multi-tenancy
unfoldable pub start_proxies : Config → StartAnswers → Agent → Proxies
unfolding restart_proxies infos
start_proxies config w a =
    let p = new_proxies config w.loaded in
    if config.multi_tenant then restart_proxies w.worlds (infos a.objects a.clusters) p else p

-- With multi-tenancy, main ends where there is no main cluster.
unfoldable pub with_main :
    Bool → Option MainError → Option (Agent × Proxies) → Option (Agent × Proxies)
with_main false e started = started
with_main true none started = started
with_main true (some e) started = none

-- A null is a panic.
unfoldable pub without_null : Bool → Agent × Proxies → Option (Agent × Proxies)
without_null false started = some started
without_null true started = none

-- main up to its loops; `none` where it ends at once, since there is no main cluster, or by a panic over a
-- cluster that is null in the state file.
unfoldable pub start_up : Config → StartAnswers → Option (Agent × Proxies)
unfolding start_agent start_proxies ensure_main_cluster start_manager has_null with_main
    without_null
start_up config w =
    let a = start_agent config w in
    let main =
      ensure_main_cluster (start_manager config w) w.main_cluster config.main_cluster_name
        config.main_api_port in
    with_main config.multi_tenant main.1
      (without_null (has_null (loaded_entries w.loaded)) (a, start_proxies config w a))

-- The IDs of the agent's clusters, for the cleanup
unfoldable pub active_ids : List ClusterInfo → List Text
active_ids [] = []
active_ids (ci ∷ cs) =
    let rest = active_ids cs in if ci.cluster_id == [] then rest else ci.cluster_id ∷ rest

-- A tick of the goroutine that cleans up old KWOK clusters; an error is only logged.
unfoldable pub cleanup_tick : Agent → Listing → Option (List Command)
unfolding active_ids infos cleanup_old_clusters
cleanup_tick a listing = cleanup_old_clusters (active_ids (infos a.objects a.clusters)) listing
