-- ===== src/Kwok/Manager/Cleanup.antt =====
-- CleanupOldClusters: which directories it touches.
use scale_cluster_agent.Strings.{has_prefix}
use scale_cluster_agent.Strings.Parts.{has_prefix-append}
use scale_cluster_agent.Kwok.Names.{rancher_prefix, dir_name}
use scale_cluster_agent.Kwok.Names.Laws.{middle_id-dir_name}
use scale_cluster_agent.Kwok.Manager.{
  Entry, Command, create, start, stop, delete, is_active, cleanup_old, cleanup_old_clusters,
}
use scale_cluster_agent.Prelude.{
  ℕ, ◌≡◌, refl, true, false, not, ◌&&◌, List, [], ◌∷◌, some, Text, text_eq, contains, if◌then◌else◌,
  arith,
}

-- The names of the clusters that the commands act on.
abbrev pub touched : List Command → List Text
touched [] = []
touched (create name port ∷ cs) = name ∷ touched cs
touched (start name ∷ cs) = name ∷ touched cs
touched (stop name ∷ cs) = name ∷ touched cs
touched (delete name ∷ cs) = name ∷ touched cs

-- The names of the entries that are directories.
abbrev pub dirs : List Entry → List Text
dirs [] = []
dirs (e ∷ es) = if e.is_dir then e.name ∷ dirs es else dirs es

cleanup_old-touched :
    (active : List Text) (es : List Entry) (name : Text)
    → contains (touched (cleanup_old active es)) name
      ≡ (contains (dirs es) name && (has_prefix name rancher_prefix && not (is_active active name)))
unfolding cleanup_old
cleanup_old-touched active [] name = refl
cleanup_old-touched active (e ∷ es) name = ground (arith, cleanup_old-touched active es name)

is_active-dir_name :
    (active : List Text) (id : Text) (port : ℕ)
    → is_active active (dir_name id port) ≡ contains active id
unfolding is_active
is_active-dir_name active id port = rw (middle_id-dir_name id port, is_active)

dir_name-prefix : (id : Text) (port : ℕ) → has_prefix (dir_name id port) rancher_prefix ≡ true
unfolding dir_name
dir_name-prefix id port = has_prefix-append rancher_prefix _

-- On a directory that can be read, the cleanup acts on the directory of an ID and a port exactly if
-- it is there and the ID is not active, and it acts on no name without the prefix "rancher-".
pub cleanup_old_clusters-touched :
    (active : List Text) (es : List Entry) {cs : List Command}
    → cleanup_old_clusters active (some es) ≡ some cs
    → ((id : Text) (port : ℕ)
        → contains (touched cs) (dir_name id port)
          ≡ (contains (dirs es) (dir_name id port) && not (contains active id)))
      × ((name : Text)
          → has_prefix name rancher_prefix ≡ false
          → contains (touched cs) name ≡ false)
unfolding cleanup_old_clusters
cleanup_old_clusters-touched active es {cs} h =
    let e : cleanup_old active es ≡ cs = ground arith in
    (
      λ id port. rw (
        ← e,
        cleanup_old-touched active es (dir_name id port),
        dir_name-prefix id port,
        is_active-dir_name active id port,
      ),
      λ name other. rw (← e, cleanup_old-touched active es name, other) (ground arith),
    )
