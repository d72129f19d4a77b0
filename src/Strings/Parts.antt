-- ===== src/Strings/Parts.antt =====
-- Prefixes, the last separator, and split and join.
use scale_cluster_agent.Strings.{has_prefix, last_index, cons_head, split, join}
use scale_cluster_agent.Prelude.{
  ℕ, zero, suc, ◌-◌, ◌≤◌, ◌≡◌, inl, inr, Bool-cases, refl, ap, ◌∙◌, true, List, [], ◌∷◌, ◌++◌, none,
  some, arith, Text, ◌==◌, ==_iff, contains, false, nat_eq, length, take, drop, Lacks,
}

pub has_prefix-append : (p s : Text) → has_prefix (p ++ s) p ≡ true
unfolding has_prefix
has_prefix-append [] s = refl
has_prefix-append (x ∷ p) s = ground (arith, has_prefix-append p s)

pub drop-length : (p s : Text) → drop (length p) (p ++ s) ≡ s
drop-length [] s = refl
drop-length (x ∷ p) s = drop-length p s

pub drop-suc-length : (u : Text) (c : ℕ) (v : Text) → drop (suc (length u)) (u ++ (c ∷ v)) ≡ v
drop-suc-length [] c v = refl
drop-suc-length (x ∷ u) c v = drop-suc-length u c v

pub take-append : (u s : Text) (i : ℕ) → length u ≤ i → take i (u ++ s) ≡ u ++ take (i - length u) s
take-append [] s i h = ap (λ (n : ℕ). take n s) (omega arith)
take-append (x ∷ u) s zero h = absurd (omega arith)
take-append (x ∷ u) s (suc i) h = ap (◌∷◌ x) (
    take-append u s i (omega arith)
    ∙ ap (λ (n : ℕ). u ++ take n s)
        (let e : i - length u ≡ suc i - suc (length u) = omega arith in e))

pub take-length : (p s : Text) → take (length p) (p ++ s) ≡ p
take-length [] s = refl
take-length (x ∷ p) s = ap (◌∷◌ x) (take-length p s)

-- A text that starts with `p` is `p` and its rest.
pub has_prefix-split : (s p : Text) → has_prefix s p ≡ true → s ≡ p ++ drop (length p) s
unfolding has_prefix
has_prefix-split s [] h = refl
has_prefix-split [] (x ∷ p) h = cc
has_prefix-split (c ∷ s) (x ∷ p) h = ground (arith, has_prefix-split s p)

-- A text with no separator has no last one.
pub last_index-none : (sep : ℕ) (s : Text) → Lacks sep s → last_index s sep ≡ none
unfolding last_index
last_index-none sep [] h = refl
last_index-none sep (c ∷ s) h = ground (arith, last_index-none sep s h.1)

none-Lacks : (sep : ℕ) (s : Text) → last_index s sep ≡ none → Lacks sep s
unfolding last_index
none-Lacks sep [] h = tt
none-Lacks sep (c ∷ s) h = ground (arith, none-Lacks sep s)

-- The last separator stands where no other follows.
pub last_index-append :
    (sep : ℕ) (u v : Text) → Lacks sep v → last_index (u ++ (sep ∷ v)) sep ≡ some (length u)
unfolding last_index
last_index-append sep [] v h = ground (arith, last_index-none sep v h)
last_index-append sep (c ∷ u) v h = ground (arith, last_index-append sep u v h)

pub split-Lacks : (sep : ℕ) (s : Text) → Lacks sep s → split s sep ≡ s ∷ []
unfolding split
split-Lacks sep [] h = refl
split-Lacks sep (c ∷ s) h = ground (arith, split-Lacks sep s h.1)

pub split-ne-nil : (sep : ℕ) (s : Text) → (p : Text) × (ps : List Text) × (split s sep ≡ p ∷ ps)
unfolding split
split-ne-nil sep [] = ([], [], refl)
split-ne-nil sep (c ∷ s) =
    let (p, ps, e) = split-ne-nil sep s in
    elim (Bool-cases (c == sep)) [
      | inl t ↦ ([], split s sep, rw t)
      | inr t ↦ (c ∷ p, ps, rw (t, e))
    ]

-- The parts are those before a separator and those behind it.
pub split-append : (sep : ℕ) (u v : Text) → split (u ++ (sep ∷ v)) sep ≡ split u sep ++ split v sep
unfolding split
split-append sep [] v = ground arith
split-append sep (c ∷ u) v =
    let (p, ps, e) = split-ne-nil sep u in ground (arith, split-append sep u v, e)

join-nil : (sep : ℕ) (p : Text) (ps : List Text) → join ([] ∷ p ∷ ps) sep ≡ sep ∷ join (p ∷ ps) sep
unfolding join
join-nil sep p ps = refl

join-cons_head :
    (sep c : ℕ) (p : Text) (ps : List Text)
    → join (cons_head c (p ∷ ps)) sep ≡ c ∷ join (p ∷ ps) sep
unfolding join cons_head
join-cons_head sep c p [] = refl
join-cons_head sep c p (q ∷ ps) = refl

-- Joining the parts gives the text back.
pub join-split : (sep : ℕ) (s : Text) → join (split s sep) sep ≡ s
unfolding split
join-split sep [] = unfold join in refl
join-split sep (c ∷ s) =
    let (p, ps, e) = split-ne-nil sep s in
    let ih : join (p ∷ ps) sep ≡ s = rw e at (join-split sep s) in
    elim (Bool-cases (c == sep)) [
      | inl t ↦ rw (t, e) (cc ((==_iff c sep).0 t, join-nil sep p ps, ih))
      | inr t ↦ rw (t, e) (join-cons_head sep c p ps ∙ ap (◌∷◌ c) ih)
    ]

-- A separator that is found parts the text, and no other follows it.
pub last_index-split :
    (sep : ℕ) (s : Text) {i : ℕ}
    → last_index s sep ≡ some i
    → (s ≡ take i s ++ (sep ∷ drop (suc i) s)) × Lacks sep (drop (suc i) s)
unfolding last_index
last_index-split sep [] h = cc
last_index-split sep (c ∷ s) {i = zero} h = ground (arith, none-Lacks sep s)
last_index-split sep (c ∷ s) {i = suc j} h = ground (arith, last_index-split sep s {i = j})

-- A text with a separator in it has two parts or more.
pub length-split : (sep : ℕ) (s : Text) → contains s sep ≡ true → 2 ≤ length (split s sep)
unfolding split
length-split sep [] h = cc
length-split sep (c ∷ s) h =
    let (p, ps, e) = split-ne-nil sep s in
    elim (Bool-cases (c == sep)) [
      | inl t ↦ rw (t, e) (omega arith)
      | inr t ↦
          rw (t, e)
            (let more : 2 ≤ length (split s sep) = length-split sep s (rw t at h) in rw e at more)
    ]

pub Lacks-of_contains : (sep : ℕ) (s : Text) → contains s sep ≡ false → Lacks sep s
Lacks-of_contains sep [] h = tt
Lacks-of_contains sep (c ∷ s) h = ground (arith, Lacks-of_contains sep s)
