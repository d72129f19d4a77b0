-- ===== src/Kwok/Manager/Create.antt =====
-- CreateCluster and DeleteCluster: what is recorded, what is undone, and that ports stay distinct.
use scale_cluster_agent.Types.{KwokCluster, ClusterInfo}
use scale_cluster_agent.Kwok.Names.{dir_name}
use scale_cluster_agent.Kwok.Manager.{
  Manager, Listing, Command, create, stop, delete, Answers, CreateError, already_exists, no_port,
  cancelled, create_failed, not_ready, not_connected, no_kubeconfig, not_populated, Created,
  used_ports, find_next_available_port, create_on, create_cluster, create_cluster_between,
}
use scale_cluster_agent.Kwok.Manager.Ports.{find_next_available_port-first}
use scale_cluster_agent.Prelude.Results.{ok, err}
use scale_cluster_agent.Prelude.Dict.{lookup, insert}
use scale_cluster_agent.Prelude.Int.{pos, int_eq}
use scale_cluster_agent.Prelude.{
  ℕ, ◌≡◌, ◌≢◌, inl, inr, subst, refl, false, List, [], ◌∷◌, Option, none, some, Text, text_eq,
  contains, codes, Option-cases, arith,
}

-- What a success has done: the record of a new ID under the name that is made of the ID and of a
-- port that was not in use, and one command.
abbrev pub IsFresh : Listing → Manager → Manager → Text → Created → KwokCluster → Type 0
IsFresh listing m after id r c =
    (lookup id m.clusters ≡ none)
    × (contains (used_ports m listing) c.port ≡ false)
    × (c.port ≡ pos (find_next_available_port m listing))
    × (c.name ≡ dir_name id (find_next_available_port m listing))
    × (r.manager ≡ record after { clusters = insert id c after.clusters })
    × (r.commands ≡ create c.name (find_next_available_port m listing) ∷ [])

module _ (a : Answers) (m : Manager) (cluster_name id : Text) (config : Option ClusterInfo) where
  create_on-ok :
      (port : ℕ) {c : KwokCluster}
      → (create_on a m cluster_name id config port).result ≡ ok c
      → (port ≢ 0)
        × (c.port ≡ pos port)
        × (c.name ≡ dir_name id port)
        × ((create_on a m cluster_name id config port).manager
            ≡ record m { clusters = insert id c m.clusters })
        × ((create_on a m cluster_name id config port).commands ≡ create c.name port ∷ [])
  unfolding create_on
  create_on-ok port h = ground arith

abbrev pub undone : Text → ℕ → List Command
undone dir port = create dir port ∷ stop dir ∷ delete dir ∷ []

-- What each failure leaves of a cluster with that ID and port, in the manager as it is after the
-- commands. A cluster that could not be populated is deleted, and stays in the map.
abbrev pub Leaves : Manager → Text → ℕ → Created → CreateError → Type 0
Leaves m id port r already_exists = (r.manager ≡ m) × (r.commands ≡ [])
Leaves m id port r no_port = (r.manager ≡ m) × (r.commands ≡ [])
Leaves m id port r cancelled = (r.manager ≡ m) × (r.commands ≡ [])
Leaves m id port r create_failed =
    (r.manager ≡ m) × (r.commands ≡ create (dir_name id port) port ∷ [])
Leaves m id port r not_ready = (r.manager ≡ m) × (r.commands ≡ undone (dir_name id port) port)
Leaves m id port r not_connected = (r.manager ≡ m) × (r.commands ≡ undone (dir_name id port) port)
Leaves m id port r no_kubeconfig = (r.manager ≡ m) × (r.commands ≡ undone (dir_name id port) port)
Leaves m id port r (not_populated e) =
    (c : KwokCluster) × (c.cluster_id ≡ id)
    × (c.port ≡ pos port)
    × (c.name ≡ dir_name id port)
    × (r.manager ≡ record m { clusters = insert id c m.clusters })
    × (r.commands ≡ undone (dir_name id port) port)

module _ (a : Answers) (m : Manager) (cluster_name id : Text) (config : Option ClusterInfo) where
  create_on-err :
      (port : ℕ) (e : CreateError)
      → (create_on a m cluster_name id config port).result ≡ err e
      → Leaves m id port (create_on a m cluster_name id config port) e
  unfolding create_on
  create_on-err port (not_populated e) h = elim (Option-cases a.kubeconfig) [
    | inl k ↦ absurd (ground (arith, h, k))
    | inr (text, k) ↦
        let c : KwokCluster = record {
          name = dir_name id port;
          cluster_id = id;
          port = pos port;
          kubeconfig = text;
          status = codes "Ready";
          created_at = a.now;
          config = config;
        } in
        (c, refl, refl, refl, ground (arith, h, k), ground (arith, h, k))
  ]
  create_on-err port already_exists h = ground arith
  create_on-err port no_port h = ground arith
  create_on-err port cancelled h = ground arith
  create_on-err port create_failed h = ground arith
  create_on-err port not_ready h = ground arith
  create_on-err port not_connected h = ground arith
  create_on-err port no_kubeconfig h = ground arith

module _ (a : Answers) (listing : Listing) (m after : Manager) (cluster_name id : Text)
    (config : Option ClusterInfo) where
  pub create_between-new :
      lookup id m.clusters ≡ none
      → create_cluster_between a listing m after cluster_name id config
        ≡ create_on a after cluster_name id config (find_next_available_port m listing)
  unfolding create_cluster_between
  create_between-new h = rw (h, create_cluster_between)

  pub create_between-old :
      {c : KwokCluster}
      → lookup id m.clusters ≡ some c
      → create_cluster_between a listing m after cluster_name id config
        ≡ record { manager = after; commands = []; result = err already_exists }
  unfolding create_cluster_between
  create_between-old h = rw (h, create_cluster_between)

  pub port_free :
      find_next_available_port m listing ≢ 0
      → contains (used_ports m listing) (pos (find_next_available_port m listing)) ≡ false
  port_free ne = elim (find_next_available_port-first m listing) [
    | inl (zero_port, all) ↦ absurd (ne zero_port)
    | inr (k, lt, at, free, all) ↦ free
  ]

  -- A success records one new cluster, under the port that was found and
  -- the name made of it, with one command; before, the ID was not recorded and the port not in use.
  pub create_between-ok :
      {c : KwokCluster}
      → (create_cluster_between a listing m after cluster_name id config).result ≡ ok c
      → IsFresh listing m after id
          (create_cluster_between a listing m after cluster_name id config)
          c
  create_between-ok {c} e = elim (Option-cases (lookup id m.clusters)) [
    | inr (d, old) ↦ absurd (cc (rw (create_between-old old) at e))
    | inl new ↦
        let (ne, port, name, manager, commands) =
          create_on-ok a after cluster_name id config (find_next_available_port m listing)
            (rw (create_between-new new) at e) in
        rw (create_between-new new) (new, rw port (port_free ne), port, name, manager, commands)
  ]

  -- The error of an attempt says what it left, whatever other methods did while its commands ran:
  -- nothing but the commands, which stop and delete what was created and did not work, or, where the
  -- cluster could not be populated, the record of this cluster too, and nothing else.
  pub create_cluster-err :
      (e : CreateError)
      → (create_cluster_between a listing m after cluster_name id config).result ≡ err e
      → Leaves after id
          (find_next_available_port m listing)
          (create_cluster_between a listing m after cluster_name id config)
          e
  create_cluster-err e h = elim (Option-cases (lookup id m.clusters)) [
    | inr (d, old) ↦ rw (create_between-old old) (
        let e' : already_exists ≡ e = cc (rw (create_between-old old) at h) in
        subst
          (λ x.
            Leaves after id (find_next_available_port m listing)
              (record { manager = after; commands = []; result = err already_exists }) x)
          e' (refl, refl))
    | inl new ↦ rw (create_between-new new) (
        create_on-err a after cluster_name id config (find_next_available_port m listing) e
          (rw (create_between-new new) at h))
  ]

module _ (a : Answers) (listing : Listing) (m : Manager) (cluster_name id : Text)
    (config : Option ClusterInfo) where
  pub create_cluster-new :
      lookup id m.clusters ≡ none
      → create_cluster a listing m cluster_name id config
        ≡ create_on a m cluster_name id config (find_next_available_port m listing)
  unfolding create_cluster
  create_cluster-new h = create_between-new a listing m m cluster_name id config h

  pub create_cluster-old :
      {c : KwokCluster}
      → lookup id m.clusters ≡ some c
      → create_cluster a listing m cluster_name id config
        ≡ record { manager = m; commands = []; result = err already_exists }
  unfolding create_cluster
  create_cluster-old h = create_between-old a listing m m cluster_name id config h

  pub create_cluster-ok :
      {c : KwokCluster}
      → (create_cluster a listing m cluster_name id config).result ≡ ok c
      → IsFresh listing m m id (create_cluster a listing m cluster_name id config) c
  unfolding create_cluster
  create_cluster-ok e = create_between-ok a listing m m cluster_name id config e
