-- ===== src/Agent.antt =====
-- main.go: the agent's map of clusters with its HTTP handlers and the watcher of deletions in Rancher.
-- The map holds pointers, which the setup of a cluster keeps too, so the objects are in a store:
-- a pointer is a number, and `next_object` the first that is not used yet. Each function is one step,
-- which runs to its end while no other code touches the maps; the two handlers that call Rancher on
-- their way, without a lock, are also there for an agent that changes meanwhile.
pub mod Separate
pub mod Template
pub mod Handlers
pub mod Listing
pub mod Watcher
pub mod Reconciled
pub mod Runs
pub mod Stale
pub mod Reconnect
pub mod Records
pub mod Refines
pub mod Setup
use scale_cluster_agent.Types.{ClusterInfo, NodeInfo, PodInfo, bare_cluster}
use scale_cluster_agent.Strings.{replace_all}
use scale_cluster_agent.Kwok.Manager.{Manager, Command, delete_cluster}
use scale_cluster_agent.Prelude.Dict.{Dict, lookup, insert, erase}
use scale_cluster_agent.Prelude.Int.{ℤ, pos, negsuc}
use scale_cluster_agent.Prelude.{
  ℕ, zero, suc, ◌+◌, Bool, true, false, not, ◌&&◌, ◌||◌, List, [], ◌∷◌, ◌++◌, map, Option, none,
  some, Text, text_eq, nat_eq, codes, ◌==◌, length, contains, if◌then◌else◌,
}

-- The fields of ScaleAgent that the handlers and the watcher use. `connect_cancels`, `connecting` and
-- `active_connections` are known by their keys; `saved` is what the state file holds of the clusters.
pub record Agent : Type 0 where
  pub objects : Dict ℕ ClusterInfo
  pub next_object : ℕ
  pub clusters : Dict Text ℕ
  pub kwok : Manager
  pub connect_cancels : Dict Text Bool
  pub active_connections : Dict Text Bool
  pub connecting : Dict Text Bool
  pub saved : Dict Text (Option ClusterInfo)

abbrev pub template : Text
template = codes "template"

-- a.clusters[name], with what the pointer points to
abbrev pub info : Agent → Text → Option ClusterInfo
info a name = elim (lookup name a.clusters) [ none ↦ none | some p ↦ lookup p a.objects ]

-- The clusters of the payload; what a pointer to nothing gives is null
unfoldable pub snapshot : Dict ℕ ClusterInfo → Dict Text ℕ → Dict Text (Option ClusterInfo)
snapshot objects [] = []
snapshot objects ((name, p) ∷ d) = (name, lookup p objects) ∷ snapshot objects d

-- SaveState, as the handlers call it: an error is ignored, and then the file is as it was.
unfoldable pub save : Bool → Agent → Agent
save done a = if done then record a { saved = snapshot a.objects a.clusters } else a

-- healthHandler: the number of clusters that it reports
unfoldable pub health : Agent → ℤ
health a = elim (length a.clusters) [ zero ↦ negsuc 0 | suc n ↦ pos n ]

-- The names of listClustersHandler
unfoldable pub names : Dict Text ℕ → List Text
names [] = []
names ((name, p) ∷ d) = let rest = names d in if name == template then rest else name ∷ rest

-- listClustersHandler: the names and the count
unfoldable pub list_clusters_handler : Agent → List Text × ℕ
list_clusters_handler a = (names a.clusters, length (names a.clusters))

-- The handler of GET /clusters/{name}
pub data Got : Type 0 where
  missing_name not_found : Got
  got : ClusterInfo → Got

unfoldable pub get_handler : Agent → Text → Got
get_handler a [] = missing_name
get_handler a (c ∷ s) = elim (info a (c ∷ s)) [ none ↦ not_found | some ci ↦ got ci ]

abbrev pub placeholder : Text
placeholder = codes "{{cluster-name}}"

abbrev pub named_node : Text → NodeInfo → NodeInfo
named_node name n = record n { name = replace_all n.name placeholder name }

abbrev pub named_pod : Text → PodInfo → PodInfo
named_pod name p = record p { node = replace_all p.node placeholder name }

-- createClusterFromTemplate; `copy` is what Marshal and Unmarshal make of a record
unfoldable pub create_cluster_from_template :
    (ClusterInfo → ClusterInfo) → Agent → Text → ClusterInfo
create_cluster_from_template copy a name = elim (info a template) [
  | none ↦ bare_cluster name
  | some tmpl ↦
      let out = copy tmpl in
      record out {
        nodes = map (named_node name) out.nodes;
        pods = map (named_pod name) out.pods;
        name = name;
      }
]

-- a.clusters[name] = &c
unfoldable pub store : Text → ClusterInfo → Agent → Agent
store name c a = record a {
  objects = insert a.next_object c a.objects;
  next_object = suc a.next_object;
  clusters = insert name a.next_object a.clusters;
}

pub data CreateResponse : Type 0 where
  invalid_body name_required conflict rancher_failed : CreateResponse
  created : Text → CreateResponse

-- createClusterHandler: `body` is the name in the decoded request, `registered` the ID that
-- createClusterInRancher returns; `none` is an error of either. The name is looked up in the agent as it
-- is `before` the call of Rancher, and the object stored in the agent as it is `after` it. After
-- `created`, the setup of the object is started.
unfoldable pub create_between :
    (ClusterInfo → ClusterInfo)
    → Option Text
    → Option Text
    → Bool
    → Agent
    → Agent
    → Agent × CreateResponse
create_between copy none registered saves before after = (after, invalid_body)
create_between copy (some []) registered saves before after = (after, name_required)
create_between copy (some (c ∷ s)) registered saves before after =
    let name = c ∷ s in
    elim (lookup name before.clusters) [
      | some p ↦ (after, conflict)
      | none ↦ elim registered [
        | none ↦ (after, rancher_failed)
        | some id ↦
            let ci = create_cluster_from_template copy before name in
            (save saves (store name (record ci { cluster_id = id; name = name }) after), created id)
      ]
    ]

-- createClusterHandler, where nothing else happens during the call
unfoldable pub create_cluster_handler :
    (ClusterInfo → ClusterInfo) → Option Text → Option Text → Bool → Agent → Agent × CreateResponse
unfolding create_between
create_cluster_handler copy body registered saves a = create_between copy body registered saves a a

-- deleteClusterFromRancher: whether it returns no error, with the answer of the server
unfoldable pub delete_cluster_from_rancher : Agent → Text → Bool → Bool
delete_cluster_from_rancher a name answer = elim (info a name) [
  | none ↦ false
  | some ci ↦ not (ci.cluster_id == []) && answer
]

pub data DeleteResponse : Type 0 where
  invalid_name unknown_cluster delete_failed deleted : DeleteResponse

-- deleteClusterHandler, with the agent as it is `before` and `after` the call of Rancher
unfoldable pub delete_between : Text → Bool → Bool → Agent → Agent → Agent × DeleteResponse
unfolding delete_cluster_from_rancher
delete_between name answer saves before after =
    if name == [] || name == template
    then (after, invalid_name)
    else elim (lookup name before.clusters) [
      | none ↦ (after, unknown_cluster)
      | some p ↦
          if delete_cluster_from_rancher before name answer
          then (save saves (record after { clusters = erase name after.clusters }), deleted)
          else (after, delete_failed)
    ]

-- deleteClusterHandler, where nothing else happens during the call
unfoldable pub delete_cluster_handler : Text → Bool → Bool → Agent → Agent × DeleteResponse
unfolding delete_between
delete_cluster_handler name answer saves a = delete_between name answer saves a a

-- ci.Status = status, then SaveState, as in the setup of a cluster: the object may be out of the map
unfoldable pub set_status : ℕ → Text → Bool → Agent → Agent
set_status p status saves a = elim (lookup p a.objects) [
  | none ↦ a
  | some ci ↦ save saves (record a { objects = insert p (record ci { status = status }) a.objects })
]

-- The test of reconcileRancherDeletions
unfoldable pub is_gone : List Text → Agent → Text × ℕ → Bool
is_gone existing a (name, p) = elim (lookup p a.objects) [
  | none ↦ false
  | some ci ↦ not (name == template || ci.cluster_id == []) && not (contains existing ci.cluster_id)
]

-- toDelete
unfoldable pub to_delete : List Text → Agent → Dict Text ℕ → List Text
to_delete existing a [] = []
to_delete existing a ((name, p) ∷ d) =
    let rest = to_delete existing a d in if is_gone existing a (name, p) then name ∷ rest else rest

-- a.kwokManager.DeleteCluster(ci.ClusterID) of an ID that is not empty, whose error is ignored
unfoldable pub delete_kwok : Text → Manager → Manager × List Command
delete_kwok id m =
    if id == [] then (m, []) else elim (delete_cluster m id) [ none ↦ (m, []) | some r ↦ r ]

-- ci.ClusterID
abbrev pub cluster_id_of : Agent → Text → Text
cluster_id_of a name = elim (info a name) [ none ↦ [] | some ci ↦ ci.cluster_id ]

-- One round of the second loop of reconcileRancherDeletions
unfoldable pub clean_up : Bool → Text → Agent → Agent × List Command
clean_up saves name a =
    let (kwok, commands) = delete_kwok (cluster_id_of a name) a.kwok in
    (
      save saves (record a {
        connect_cancels = erase name a.connect_cancels;
        active_connections = erase name a.active_connections;
        connecting = erase name a.connecting;
        kwok = kwok;
        clusters = erase name a.clusters;
      }),
      commands,
    )

unfoldable pub clean_up_all : Bool → List Text → Agent → Agent × List Command
clean_up_all saves [] a = (a, [])
clean_up_all saves (name ∷ ns) a =
    let (a', cs) = clean_up saves name a in
    let (a'', ds) = clean_up_all saves ns a' in (a'', cs ++ ds)

-- reconcileRancherDeletions, with the IDs that Rancher has answered; without an answer it returns
unfoldable pub reconcile_rancher_deletions :
    Option (List Text) → Bool → Agent → Agent × List Command
reconcile_rancher_deletions none saves a = (a, [])
reconcile_rancher_deletions (some existing) saves a =
    clean_up_all saves (to_delete existing a a.clusters) a
