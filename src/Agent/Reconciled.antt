-- ===== src/Agent/Reconciled.antt =====
-- reconcileRancherDeletions: all that a round of the watcher leaves.
use scale_cluster_agent.Agent.{Agent, template, info, cluster_id_of, clean_up}
use mathlib.Core.List.{Memᴰ}
use mathlib.Core.List.Memᴰ
use scale_cluster_agent.Types.{KwokCluster}
use scale_cluster_agent.Kwok.Manager.{Manager, Command, delete}
use scale_cluster_agent.Prelude.Dict.{Dict, lookup}
use scale_cluster_agent.Prelude.{
  ◌≡◌, Bool, false, List, [], Option, none, some, Text, text_eq, nat_eq, ◌==◌, ◌||◌, contains,
  if◌then◌else◌, true, ◌≢◌, not, ◌&&◌,
}

-- A map of the connections from which a round of the loop takes the name.
abbrev Loses : (Agent → Dict Text Bool) → Type 0
Loses part =
    (saves : Bool) (name n : Text) (a : Agent)
    → lookup n (part (clean_up saves name a).0) ≡ (if name == n then none else lookup n (part a))

abbrev at_kwok : Text → Agent → Option KwokCluster
at_kwok j a = lookup j a.kwok.clusters

-- Whether a name goes: it is not the template's, and its cluster has an ID that Rancher has not answered.
abbrev pub goes : List Text → Agent → Text → Bool
goes existing a n = elim (info a n) [
  | none ↦ false
  | some ci ↦ not (n == template || ci.cluster_id == []) && not (contains existing ci.cluster_id)
]

-- A round with an answer: the names that go lose their records and what is known of their connections,
-- their KWOK clusters are deleted, and nothing else is touched.
pub record IsReconciled (existing : List Text) (a b : Agent) (commands : List Command)
    : Type 0 where
  pub records : (n : Text) → info b n ≡ (if goes existing a n then none else info a n)
  pub cancels :
      (n : Text)
      → lookup n b.connect_cancels
        ≡ (if goes existing a n then none else lookup n a.connect_cancels)
  pub active :
      (n : Text)
      → lookup n b.active_connections
        ≡ (if goes existing a n then none else lookup n a.active_connections)
  pub waiting :
      (n : Text)
      → lookup n b.connecting ≡ (if goes existing a n then none else lookup n a.connecting)
  pub no_backing :
      (n : Text) → goes existing a n ≡ true → lookup (cluster_id_of a n) b.kwok.clusters ≡ none
  pub deletes :
      (n : Text) (c : KwokCluster)
      → goes existing a n ≡ true
      → lookup (cluster_id_of a n) a.kwok.clusters ≡ some c
      → Memᴰ (delete c.name) commands
  pub backing :
      (id : Text)
      → id ≢ []
      → ((n : Text) → goes existing a n ≡ true → cluster_id_of a n ≢ id)
      → lookup id b.kwok.clusters ≡ lookup id a.kwok.clusters

-- What a round leaves, with an answer and without.
abbrev pub Reconciles : Option (List Text) → Agent → Agent × List Command → Type 0
Reconciles none a r = r ≡ (a, [])
Reconciles (some existing) a r = IsReconciled existing a r.0 r.1
