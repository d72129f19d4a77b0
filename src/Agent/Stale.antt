-- ===== src/Agent/Stale.antt =====
-- An answer of Rancher that was fetched before a cluster was created.
use scale_cluster_agent.Types.{ClusterInfo}
use scale_cluster_agent.Agent.{
  Agent, template, info, created, create_between, create_cluster_from_template,
  create_cluster_handler, reconcile_rancher_deletions, store,
}
use scale_cluster_agent.Agent.Separate.{IsSeparate, save-kept}
use scale_cluster_agent.Agent.Handlers.{
  create_cluster_handler-Creates, create_cluster_handler-cases, create_between-stored,
}
use scale_cluster_agent.Agent.Watcher.{reconcile_rancher_deletions-info}
use scale_cluster_agent.Prelude.Dict.{NodupKeys, insert-NodupKeys}
use mathlib.Core.Option.{some-injective}
use scale_cluster_agent.Prelude.{
  sym, ◌≡◌, ◌≢◌, Bool, false, inl, inr, List, [], Option, none, some, Text, text_eq, nat_eq, ◌==◌,
  ◌||◌, contains, arith,
}

store-NodupKeys :
    (name : Text) (c : ClusterInfo) (a : Agent)
    → NodupKeys a.clusters
    → NodupKeys (store name c a).clusters
unfolding store
store-NodupKeys name c a h = insert-NodupKeys name a.next_object a.clusters h

pub create_cluster_handler-NodupKeys :
    (copy : ClusterInfo → ClusterInfo) (body registered : Option Text) (saves : Bool) (a : Agent)
    → NodupKeys a.clusters
    → NodupKeys (create_cluster_handler copy body registered saves a).0.clusters
create_cluster_handler-NodupKeys copy body registered saves a h =
    elim (create_cluster_handler-cases copy body registered saves a) [
      | inl e ↦ rw e h
      | inr (name, c, free, named, e) ↦
          rw (e, (save-kept saves (store name c a)).1) (store-NodupKeys name c a h)
    ]

-- If the watcher has fetched its list before a cluster is created, with an ID that is not empty and a
-- name that is not the template's, and compares it afterwards, the new cluster is taken out, although
-- Rancher has it.
pub create-watch :
    (copy : ClusterInfo → ClusterInfo) (name id : Text) (registered : Option Text) (saves : Bool)
    (a : Agent) (existing : List Text)
    → IsSeparate a
    → NodupKeys a.clusters
    → name ≢ template
    → id ≢ []
    → contains existing id ≡ false
    → (create_cluster_handler copy (some name) registered saves a).1 ≡ created id
    → info
        (reconcile_rancher_deletions
          (some existing)
          saves
          (create_cluster_handler copy (some name) registered saves a).0).0
        name
      ≡ none
create-watch copy name id registered saves a existing s d t i fresh h =
    let b = (create_cluster_handler copy (some name) registered saves a).0 in
    let done = rw h at (create_cluster_handler-Creates copy (some name) registered saves a s) in
    let gone =
      reconcile_rancher_deletions-info (some existing) saves b name
        (create_cluster_handler-NodupKeys copy (some name) registered saves a d) in
    let (name', same, nonempty, reg, free, stored, others, saved) = done in
    let stored' = rw (sym (some-injective name name' same)) at stored in
    let guard : (name == template || id == []) ≡ false = ground arith in
    rw (stored', guard, fresh) at gone

-- Two requests that create a cluster with the same name, the second of which looks the name up before the
-- first has stored its cluster: if both are answered with "created", the record of the first, with its ID,
-- is replaced by that of the second.
pub create_between-race :
    (copy : ClusterInfo → ClusterInfo) (name id1 id2 : Text) (registered1 registered2 : Option Text)
    (saves : Bool) (a : Agent)
    → (create_between copy (some name) registered1 saves a a).1 ≡ created id1
    → (create_between copy
        (some name)
        registered2
        saves
        a
        (create_between copy (some name) registered1 saves a a).0).1
      ≡ created id2
    → (info (create_between copy (some name) registered1 saves a a).0 name
        ≡ some
            (record (create_cluster_from_template copy a name) { cluster_id = id1; name = name }))
      × (info
            (create_between copy
              (some name)
              registered2
              saves
              a
              (create_between copy (some name) registered1 saves a a).0).0
            name
          ≡ some
              (record (create_cluster_from_template copy a name) { cluster_id = id2; name = name }))
create_between-race copy name id1 id2 registered1 registered2 saves a h k = (
  create_between-stored copy name id1 registered1 saves a a h,
  create_between-stored copy name id2 registered2 saves a _ k,
)
