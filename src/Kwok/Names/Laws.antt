-- ===== src/Kwok/Names/Laws.antt =====
-- The readers of a directory's name agree with its writer and with one another.
use scale_cluster_agent.Strings.{has_prefix, last_index, split, join, atoi, itoa}
use scale_cluster_agent.Strings.{max_int}
use scale_cluster_agent.Strings.Parts.{
  has_prefix-append, has_prefix-split, drop-suc-length, take-append, length-split,
  Lacks-of_contains, take-length, last_index-append, last_index-split, split-Lacks, split-append,
  split-ne-nil, join-split,
}
use scale_cluster_agent.Strings.Numbers.{itoa-Lacks, atoi-itoa}
use scale_cluster_agent.Prelude.Int.{ℤ, pos}
use scale_cluster_agent.Kwok.Names.{
  rancher_prefix, dir_name, parse_at, parse_dir, but_last, last_part, middle_id, disk_port,
  load_port,
}
use scale_cluster_agent.Prelude.{
  ℕ, suc, ◌-◌, ◌≤◌, ◌≡◌, ◌≢◌, refl, sym, subst, ap, ◌∙◌, List, [], ◌∷◌, ◌++◌, Option, none, some,
  Text, codes, leb, length, take, drop, if◌then◌else◌, Bool-cases, nat_eq, contains, Option-cases,
  inl, inr, ◌<◌, arith, length-append, Lacks,
}

but_last-append : (ps : List Text) (x : Text) → but_last (ps ++ (x ∷ [])) ≡ ps
but_last-append [] x = refl
but_last-append (p ∷ []) x = refl
but_last-append (p ∷ q ∷ ps) x = ap (◌∷◌ p) (but_last-append (q ∷ ps) x)

last_part-append : (ps : List Text) (x : Text) → last_part (ps ++ (x ∷ [])) ≡ x
last_part-append [] x = refl
last_part-append (p ∷ []) x = refl
last_part-append (p ∷ q ∷ ps) x = last_part-append (q ∷ ps) x

-- The parts of a name: the prefix's, those of the ID, and the last.
pub split-name :
    (id last : Text)
    → Lacks b'-' last
    → split (rancher_prefix ++ (id ++ (b'-' ∷ last))) b'-'
      ≡ codes "rancher" ∷ (split id b'-' ++ (last ∷ []))
split-name id last h =
    split-append b'-' (codes "rancher") (id ++ (b'-' ∷ last))
    ∙ rw (split-append b'-' id last, split-Lacks b'-' last h)
        (rw (split-Lacks b'-' (codes "rancher") (omega arith)))

length-last : (id last : Text) → 2 ≤ length (split id b'-' ++ (last ∷ []))
length-last id last =
    let (p, ps, e) = split-ne-nil b'-' id in rw e (omega (arith, length-append ps (last ∷ [])))

-- With `parts` named, the tests on their number are arithmetic.
middle_of-parts :
    (p : Text) (ps : List Text) (last : Text)
    → 2 ≤ length (ps ++ (last ∷ []))
    → (if leb 3 (length (p ∷ (ps ++ (last ∷ []))))
        then some (join (but_last (drop 1 (p ∷ (ps ++ (last ∷ []))))) b'-')
        else none)
      ≡ some (join ps b'-')
middle_of-parts p ps last h = rw (but_last-append ps last) (ground arith)

port_of-parts :
    (p : Text) (ps : List Text) (last : Text)
    → 2 ≤ length (ps ++ (last ∷ []))
    → (if leb 3 (length (p ∷ (ps ++ (last ∷ []))))
        then atoi (last_part (p ∷ (ps ++ (last ∷ []))))
        else none)
      ≡ atoi last
port_of-parts p [] last h = absurd (omega arith)
port_of-parts p (q ∷ ps) last h = rw (last_part-append (q ∷ ps) last) (ground arith)

pub middle_id-name :
    (id last : Text)
    → Lacks b'-' last
    → middle_id (rancher_prefix ++ (id ++ (b'-' ∷ last))) ≡ some id
unfolding middle_id
middle_id-name id last h =
    rw (split-name id last h, middle_id)
      (middle_of-parts (codes "rancher") (split id b'-') last (length-last id last)
        ∙ ap some (join-split b'-' id))

load_port-name :
    (id last : Text)
    → Lacks b'-' last
    → load_port (rancher_prefix ++ (id ++ (b'-' ∷ last))) ≡ atoi last
unfolding load_port
load_port-name id last h =
    rw (split-name id last h, load_port)
      (port_of-parts (codes "rancher") (split id b'-') last (length-last id last))

abbrev with_port : Text → Option ℤ → Option (Text × ℤ)
with_port id none = none
with_port id (some port) = some (id, port)

parse_at-name :
    (c : ℕ) (id last : Text)
    → parse_at (rancher_prefix ++ ((c ∷ id) ++ (b'-' ∷ last))) (length (rancher_prefix ++ (c ∷ id)))
      ≡ with_port (c ∷ id) (atoi last)
unfolding parse_at
parse_at-name c id last = rw (drop-suc-length id b'-' last) (
    ground (
      arith,
      ap (λ (n : ℕ). take n ((c ∷ id) ++ (b'-' ∷ last)))
          (let e : length (rancher_prefix ++ (c ∷ id)) - 8 ≡ length (c ∷ id) = omega arith in e),
      take-length (c ∷ id) (b'-' ∷ last),
    ))

parse_dir-name :
    (c : ℕ) (id last : Text)
    → Lacks b'-' last
    → parse_dir (rancher_prefix ++ ((c ∷ id) ++ (b'-' ∷ last))) ≡ with_port (c ∷ id) (atoi last)
unfolding parse_dir
parse_dir-name c id last h =
    rw
      (
        has_prefix-append rancher_prefix ((c ∷ id) ++ (b'-' ∷ last)),
        last_index-append b'-' (rancher_prefix ++ (c ∷ id)) last h,
      )
      (parse_at-name c id last)

-- RehydrateFromDisk reads back the ID and the port from which CreateCluster made the name, where the
-- ID is not empty and the port is in the range of `int`.
pub parse_dir-dir_name :
    (id : Text) (port : ℕ)
    → id ≢ []
    → port ≤ max_int
    → parse_dir (dir_name id port) ≡ some (id, pos port)
unfolding dir_name
parse_dir-dir_name [] port ne h = absurd (ne refl)
parse_dir-dir_name (c ∷ id) port ne h =
    parse_dir-name c id (itoa port) (itoa-Lacks port) ∙ ap (with_port (c ∷ id)) (atoi-itoa port h)

parse_at_inv :
    (name : Text) (i : ℕ) {id : Text} {port : ℤ}
    → parse_at name i ≡ some (id, port)
    → (length rancher_prefix < i)
      × (atoi (drop (suc i) name) ≡ some port)
      × (id ≡ take (i - length rancher_prefix) (drop (length rancher_prefix) name))
unfolding parse_at
parse_at_inv name i h = ground arith

-- Behind the prefix, a cut of the name is a cut of its rest.
cut_rest :
    (rest v : Text) (i : ℕ)
    → length rancher_prefix < i
    → rancher_prefix ++ rest ≡ take i (rancher_prefix ++ rest) ++ v
    → rest ≡ take (i - length rancher_prefix) rest ++ v
cut_rest rest v i h e =
    rw (take-append rancher_prefix rest i (omega arith)) at (ap (drop (length rancher_prefix)) e)

-- A name that is the prefix, an ID, a "-" and a last part that reads as the port.
abbrev pub IsNameOf : Text → Text → ℤ → Type 0
IsNameOf name id port =
    (last : Text) × (name ≡ rancher_prefix ++ (id ++ (b'-' ∷ last)))
    × Lacks b'-' last
    × (atoi last ≡ some port)

parsed_at :
    (name : Text) (i : ℕ) {id : Text} {port : ℤ}
    → name ≡ rancher_prefix ++ drop (length rancher_prefix) name
    → last_index name b'-' ≡ some i
    → parse_at name i ≡ some (id, port)
    → IsNameOf name id port
parsed_at name i pre e h =
    let (gt, a, t) = parse_at_inv name i h in
    let (cut, lacks) = last_index-split b'-' name e in
    let tail : Text = b'-' ∷ drop (suc i) name in
    let c =
      cut_rest (drop (length rancher_prefix) name) tail i gt
        (subst (λ (n : Text). n ≡ take i n ++ tail) pre cut) in
    (
      drop (suc i) name,
      pre ∙ ap (λ u. rancher_prefix ++ u) (c ∙ ap (λ u. u ++ tail) (sym t)),
      lacks,
      a,
    )

parsed_name :
    (name : Text) {id : Text} {port : ℤ} → parse_dir name ≡ some (id, port) → IsNameOf name id port
unfolding parse_dir
parsed_name name h = elim (Bool-cases (has_prefix name rancher_prefix)) [
  | inr f ↦ absurd (cc (rw (f, parse_dir) at h))
  | inl t ↦ elim (Option-cases (last_index name b'-')) [
    | inl e ↦ absurd (cc (rw (t, e, parse_dir) at h))
    | inr (i, e) ↦
        parsed_at name i (has_prefix-split name rancher_prefix t) e (rw (t, e, parse_dir) at h)
  ]
]

-- Whatever the name of a directory, the ID and the port that RehydrateFromDisk reads are those that
-- CleanupOldClusters compares with the active ones and that RestoreClusterRecord loads.
pub middle_id-parse_dir :
    (name : Text) (id : Text) (port : ℤ)
    → parse_dir name ≡ some (id, port)
    → (middle_id name ≡ some id) × (load_port name ≡ some port)
middle_id-parse_dir name id port h =
    let (last, e, lacks, a) = parsed_name name h in
    (rw e (middle_id-name id last lacks), rw e (load_port-name id last lacks ∙ a))

four_parts :
    (p : Text) (ps : List Text) (last : Text)
    → (if leb 4 (length (p ∷ (ps ++ (last ∷ []))))
        then atoi (last_part (p ∷ (ps ++ (last ∷ []))))
        else none)
      ≡ (if leb 2 (length ps) then atoi last else none)
four_parts p [] last = refl
four_parts p (q ∷ ps) last =
    rw (last_part-append (q ∷ ps) last) (ground (arith, length-append ps (last ∷ [])))

two_parts : (id : Text) → leb 2 (length (split id b'-')) ≡ contains id b'-'
two_parts id = elim (Bool-cases (contains id b'-')) [
  | inl t ↦ rw t (ground (arith, length-split b'-' id t))
  | inr f ↦ rw (f, split-Lacks b'-' id (Lacks-of_contains b'-' id f)) refl
]

-- findNextAvailablePortLocked reads the port of a name that CreateCluster made with a port in the
-- range of `int` exactly when there is a "-" in the ID.
pub disk_port-dir_name :
    (id : Text) (port : ℕ)
    → port ≤ max_int
    → disk_port (dir_name id port) ≡ (if contains id b'-' then some (pos port) else none)
unfolding disk_port dir_name
disk_port-dir_name id port h =
    rw (split-name id (itoa port) (itoa-Lacks port), disk_port)
      (four_parts (codes "rancher") (split id b'-') (itoa port)
        ∙ rw (two_parts id, atoi-itoa port h))

-- CleanupOldClusters and RestoreClusterRecord read back any ID.
pub middle_id-dir_name : (id : Text) (port : ℕ) → middle_id (dir_name id port) ≡ some id
unfolding dir_name
middle_id-dir_name id port = middle_id-name id (itoa port) (itoa-Lacks port)
