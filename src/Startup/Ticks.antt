-- ===== src/Startup/Ticks.antt =====
-- The periodic cleanup of old KWOK clusters.
use scale_cluster_agent.Types.{ClusterInfo}
use scale_cluster_agent.Agent.{Agent, info}
use scale_cluster_agent.Kwok.Names.{dir_name}
use scale_cluster_agent.Kwok.Manager.{Entry, Command}
use scale_cluster_agent.Kwok.Manager.Cleanup.{touched, cleanup_old_clusters-touched}
use scale_cluster_agent.Startup.{infos, active_ids, cleanup_tick}
use scale_cluster_agent.Prelude.Dict.{Dict, lookup, lookup-nil, lookup-cons}
use scale_cluster_agent.Prelude.{
  ℕ, ◌≡◌, ◌≢◌, inl, inr, true, false, List, [], ◌∷◌, some, Text, text_eq, nat_eq, contains, ◌==◌,
  Bool-cases, Option-cases, arith,
}

-- The ID of a record of the map is an active one.
contains-active_ids :
    (objects : Dict ℕ ClusterInfo) (d : Dict Text ℕ) (name : Text) (p : ℕ) (ci : ClusterInfo)
    → lookup name d ≡ some p
    → lookup p objects ≡ some ci
    → ci.cluster_id ≢ []
    → contains (active_ids (infos objects d)) ci.cluster_id ≡ true
unfolding active_ids infos
contains-active_ids objects [] name p ci h k ne = absurd (ground (arith, lookup-nil {V = ℕ} name))
contains-active_ids objects ((n, q) ∷ d) name p ci h k ne =
    let head = lookup-cons name n q d in
    let given : (ci.cluster_id == []) ≡ false = ground arith in
    elim (Bool-cases (n == name)) [
      | inl e ↦
          let same : q ≡ p = ground arith in rw (same, infos, k, active_ids, given) (ground arith)
      | inr e ↦
          let there : lookup name d ≡ some p = ground arith in
          let ih = contains-active_ids objects d name p ci there k ne in
          elim (Option-cases (lookup q objects)) [
            | inl f ↦ rw (infos, f) ih
            | inr (c, f) ↦ elim (Bool-cases (c.cluster_id == [])) [
              | inl g ↦ rw (infos, f, active_ids, g) ih
              | inr g ↦ rw (infos, f, active_ids, g) (ground arith)
            ]
          ]
    ]

-- A tick of the cleanup never acts on the directory that CreateCluster makes for the ID of a cluster
-- in the agent's map, whatever its port.
pub cleanup_tick-kept :
    (a : Agent) (es : List Entry) {cs : List Command} (name : Text) (ci : ClusterInfo) (port : ℕ)
    → cleanup_tick a (some es) ≡ some cs
    → info a name ≡ some ci
    → ci.cluster_id ≢ []
    → contains (touched cs) (dir_name ci.cluster_id port) ≡ false
unfolding cleanup_tick
cleanup_tick-kept a es name ci port h k ne = elim (Option-cases (lookup name a.clusters)) [
  | inl e ↦ absurd (cc (rw (info, e) at k))
  | inr (p, e) ↦
      let object = rw (info, e) at k in
      let active = contains-active_ids a.objects a.clusters name p ci e object ne in
      let acts =
        (cleanup_old_clusters-touched (active_ids (infos a.objects a.clusters)) es h).0
          ci.cluster_id port in
      ground arith
]
