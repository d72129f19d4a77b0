-- ===== src/Kwok/Manager/Distinct.antt =====
-- No two clusters of the map share a port: an invariant of methods that run one after the other.
-- What attempts that overlap may do to it, and what a cluster that could not be populated does to the
-- next attempt.
use scale_cluster_agent.Types.{KwokCluster, ClusterInfo}
use scale_cluster_agent.Kwok.Names.{dir_name}
use scale_cluster_agent.Kwok.Populate.{PopulateError}
use scale_cluster_agent.Kwok.Manager.{
  Manager, Listing, Command, Answers, already_exists, not_populated, used_ports,
  find_next_available_port, create_on, create_cluster, create_cluster_between, delete_cluster,
}
use scale_cluster_agent.Kwok.Manager.Create.{
  undone, create_cluster-new, create_cluster-old, create_cluster-err, create_between-old,
  create_between-ok, port_free,
}
use scale_cluster_agent.Prelude.Results.{ok, err}
use scale_cluster_agent.Prelude.Dict.{Dict, lookup, lookup-insert, lookup-insert_self, lookup-erase}
use scale_cluster_agent.Prelude.Int.{ℤ, pos, int_eq}
use scale_cluster_agent.Prelude.{
  ℕ, ◌≡◌, ◌≢◌, ◌⊎◌, inl, inr, sym, ap, ◌∙◌, true, List, [], ◌∷◌, ◌++◌, map, Option, some, Text,
  text_eq, contains, Option-cases, arith,
}

contains-append : (xs ys : List ℤ) (x : ℤ) → contains xs x ≡ true → contains (xs ++ ys) x ≡ true
contains-append [] ys x h = cc
contains-append (y ∷ xs) ys x h = ground (arith, contains-append xs ys x)

contains-ports :
    (id : Text) (d : Dict Text KwokCluster) {c : KwokCluster}
    → lookup id d ≡ some c
    → contains (map (λ (i, k). k.port) d) c.port ≡ true
unfolding lookup
contains-ports id [] h = cc
contains-ports id ((j, k) ∷ d) {c} h = ground (arith, contains-ports id d {c = c})

-- The port of a cluster of the map is in use.
used_ports-lookup :
    (m : Manager) (listing : Listing) (id : Text) {c : KwokCluster}
    → lookup id m.clusters ≡ some c
    → contains (used_ports m listing) c.port ≡ true
unfolding used_ports
used_ports-lookup m listing id h = contains-append _ _ _ (contains-ports id m.clusters h)

pub record DistinctPorts (m : Manager) : Type 0 where
  pub at :
      (i j : Text) (c d : KwokCluster)
      → lookup i m.clusters ≡ some c
      → lookup j m.clusters ≡ some d
      → c.port ≡ d.port
      → i ≡ j

-- A cluster of the map after an attempt was there before, or has the new ID and the port found.
abbrev FromBefore : Manager → Text → ℕ → Text → KwokCluster → Type 0
FromBefore m id port j d =
    (lookup j m.clusters ≡ some d) ⊎ ((j ≡ id) × (port ≢ 0) × (d.port ≡ pos port))

module _ (a : Answers) (listing : Listing) (m : Manager) (cluster_name id : Text)
    (config : Option ClusterInfo) where
  create_on-FromBefore :
      (port : ℕ) (j : Text) (d : KwokCluster)
      → lookup j (create_on a m cluster_name id config port).manager.clusters ≡ some d
      → FromBefore m id port j d
  unfolding create_on
  create_on-FromBefore port j d h = grind (arith, lookup-insert)

  create_cluster-FromBefore :
      (j : Text) (d : KwokCluster)
      → lookup j (create_cluster a listing m cluster_name id config).manager.clusters ≡ some d
      → FromBefore m id (find_next_available_port m listing) j d
  create_cluster-FromBefore j d h = elim (Option-cases (lookup id m.clusters)) [
    | inr (c, old) ↦ inl (rw (create_cluster-old a listing m cluster_name id config old) at h)
    | inl new ↦
        create_on-FromBefore (find_next_available_port m listing) j d
          (rw (create_cluster-new a listing m cluster_name id config new) at h)
  ]

  -- A cluster that was there has another port than the one found.
  not_found_port :
      (j : Text) (c d : KwokCluster)
      → lookup j m.clusters ≡ some c
      → find_next_available_port m listing ≢ 0
      → d.port ≡ pos (find_next_available_port m listing)
      → c.port ≢ d.port
  not_found_port j c d old ne new same = cc (
    used_ports-lookup m listing j old,
    port_free a listing m m cluster_name id config ne,
    same ∙ new,
  )

  -- Whatever an attempt to create a cluster comes to, during which no other method runs: no two clusters
  -- share a port afterwards if none did before.
  pub create_cluster-DistinctPorts :
      DistinctPorts m → DistinctPorts (create_cluster a listing m cluster_name id config).manager
  create_cluster-DistinctPorts v = record {
    at = λ i j c d hi hj same. elim (create_cluster-FromBefore i c hi) [
      | inl old ↦ elim (create_cluster-FromBefore j d hj) [
        | inl old' ↦ v.at i j c d old old' same
        | inr (at, ne, new) ↦ absurd (not_found_port i c d old ne new same)
      ]
      | inr (at, ne, new) ↦ elim (create_cluster-FromBefore j d hj) [
        | inl old' ↦ absurd (not_found_port j d c old' ne new (sym same))
        | inr (at', ne', new') ↦ at ∙ sym at'
      ]
    ];
  }

-- An attempt that cannot populate its cluster returns an error, after it has stopped and deleted what it
-- created; but as long as no other method changes what is recorded under that ID, any attempt with it is
-- refused with "already exists", runs no command and changes nothing, whatever it would meet.
pub create_cluster-stale :
    (a : Answers) (listing : Listing) (m after : Manager) (cluster_name id : Text)
    (config : Option ClusterInfo) {e : PopulateError}
    → (create_cluster_between a listing m after cluster_name id config).result
      ≡ err (not_populated e)
    → ((create_cluster_between a listing m after cluster_name id config).commands
        ≡ undone
            (dir_name id (find_next_available_port m listing))
            (find_next_available_port m listing))
      × ((before' after' : Manager) (a' : Answers) (listing' : Listing) (name' : Text)
            (config' : Option ClusterInfo)
          → lookup id before'.clusters
            ≡ lookup id
                (create_cluster_between a listing m after cluster_name id config).manager.clusters
          → create_cluster_between a' listing' before' after' name' id config'
            ≡ record { manager = after'; commands = []; result = err already_exists })
create_cluster-stale a listing m after cluster_name id config {e} h =
    let (c, same_id, port, name, manager, commands) =
      create_cluster-err a listing m after cluster_name id config (not_populated e) h in
    (
      commands,
      λ before' after' a' listing' name' config' same.
          create_between-old a' listing' before' after' name' id config' {c = c} (
            same
            ∙ (ap (λ x. lookup id x.clusters) manager ∙ lookup-insert_self id c after.clusters)),
    )

-- Two attempts for clusters with different IDs, the second of which looks for its port before the first has
-- made its directory and recorded its cluster: if both succeed, both are recorded, with the same port.
pub create_cluster-race :
    (a b : Answers) (listing : Listing) (m : Manager) (name1 name2 id1 id2 : Text)
    (config1 config2 : Option ClusterInfo) (c d : KwokCluster)
    → id1 ≢ id2
    → (create_cluster_between a listing m m name1 id1 config1).result ≡ ok c
    → (create_cluster_between b listing m
        (create_cluster_between a listing m m name1 id1 config1).manager
        name2
        id2
        config2).result
      ≡ ok d
    → (lookup id1
          (create_cluster_between b listing m
            (create_cluster_between a listing m m name1 id1 config1).manager
            name2
            id2
            config2).manager.clusters
        ≡ some c)
      × (lookup id2
            (create_cluster_between b listing m
              (create_cluster_between a listing m m name1 id1 config1).manager
              name2
              id2
              config2).manager.clusters
          ≡ some d)
      × (c.port ≡ d.port)
create_cluster-race a b listing m name1 name2 id1 id2 config1 config2 c d ne h k =
    let m1 = (create_cluster_between a listing m m name1 id1 config1).manager in
    let first = create_between-ok a listing m m name1 id1 config1 {c = c} h in
    let second = create_between-ok b listing m m1 name2 id2 config2 {c = d} k in
    let (new1, free1, port1, dir1, manager1, commands1) = first in
    let (new2, free2, port2, dir2, manager2, commands2) = second in
    let at1 : lookup id1 m1.clusters ≡ some c =
      ap (λ x. lookup id1 x.clusters) manager1 ∙ lookup-insert_self id1 c m.clusters in
    (
      ap (λ x. lookup id1 x.clusters) manager2
          ∙ (lookup-insert id1 id2 d m1.clusters ∙ ground (arith, ne, at1)),
      ap (λ x. lookup id2 x.clusters) manager2 ∙ lookup-insert_self id2 d m1.clusters,
      port1 ∙ sym port2,
    )

-- Deleting a cluster keeps the ports distinct.
pub delete_cluster-DistinctPorts :
    (m : Manager) (id : Text) {m' : Manager} {cs : List Command}
    → DistinctPorts m
    → delete_cluster m id ≡ some (m', cs)
    → DistinctPorts m'
unfolding delete_cluster
delete_cluster-DistinctPorts m id v h = record {
  at = λ i j c d hi hj same.
      ground (arith, v.at i j c d, lookup-erase i id m.clusters, lookup-erase j id m.clusters);
}
