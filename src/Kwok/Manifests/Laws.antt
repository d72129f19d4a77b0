-- ===== src/Kwok/Manifests/Laws.antt =====
-- The lines of the manifests of a KWOK cluster's objects: kwok_integration.go.
use scale_cluster_agent.Types.{Node, Pod}
use scale_cluster_agent.Strings.{split, join}
use scale_cluster_agent.Strings.Parts.{split-Lacks, split-append, Lacks-of_contains}
use scale_cluster_agent.Kwok.Manifests.{
  newline, Line, render, fixed, with_value, text_of_lines, join_by, role_label, node_head,
  node_tail, node_yaml, format_labels, pod_head, pod_tail, pod_yaml,
}
use scale_cluster_agent.Prelude.Dict.{Dict}
use scale_cluster_agent.Prelude.{
  ◌≡◌, ◌≢◌, refl, ap, ◌∙◌, Bool, true, false, ◌&&◌, ◌||◌, not, List, [], ◌∷◌, ◌++◌, map, Text,
  nat_eq, text_eq, codes, contains, Lacks, All, All-append, append_assoc, append-nil, arith,
}

-- The value of no line has a newline.
abbrev pub Flat : List Line → Type 0
Flat = All (λ l. Lacks newline l.value)

-- What the templates have around the values has none.
is_clean : List Line → Bool
unfolding nat_eq
is_clean [] = true
is_clean (l ∷ ls) = not (contains l.before newline || contains l.after newline) && is_clean ls

Lacks-append : (s t : Text) → Lacks newline s → Lacks newline t → Lacks newline (s ++ t)
Lacks-append s t = All-append (λ c. c ≢ newline) s t

lines-Lacks : (ls : List Line) → is_clean ls ≡ true → Flat ls → All (Lacks newline) (map render ls)
unfolding is_clean
lines-Lacks [] c h = tt
lines-Lacks (l ∷ ls) c (own, h) =
    let before : contains l.before newline ≡ false = ground (arith, c) in
    let after : contains l.after newline ≡ false = ground (arith, c) in
    (
      Lacks-append l.before (l.value ++ l.after) (Lacks-of_contains newline l.before before)
          (Lacks-append l.value l.after own (Lacks-of_contains newline l.after after)),
      lines-Lacks ls (ground (arith, c)) h,
    )

split-join :
    (p : Text) (ps : List Text)
    → All (Lacks newline) (p ∷ ps)
    → split (join (p ∷ ps) newline) newline ≡ p ∷ ps
unfolding join
split-join p [] h = split-Lacks newline p h.0
split-join p (q ∷ ps) h =
    split-append newline p (join (q ∷ ps) newline)
    ∙ rw (split-Lacks newline p h.0, split-join q ps h.1) refl

-- The text of lines splits into them.
split-lines :
    (l : Line) (ls : List Line)
    → is_clean (l ∷ ls) ≡ true
    → Flat (l ∷ ls)
    → split (text_of_lines (l ∷ ls)) newline ≡ map render (l ∷ ls)
split-lines l ls c h = split-join (render l) (map render ls) (lines-Lacks (l ∷ ls) c h)

is_filled : List Line → Bool
is_filled [] = false
is_filled (l ∷ ls) = true

split-filled :
    (ls : List Line)
    → is_filled ls ≡ true
    → is_clean ls ≡ true
    → Flat ls
    → split (text_of_lines ls) newline ≡ map render ls
unfolding is_filled
split-filled [] f c h = absurd (cc f)
split-filled (l ∷ ls) f c h = split-lines l ls c h

Flat-append : (ls ms : List Line) → Flat (ls ++ ms) → Flat ls × Flat ms
Flat-append [] ms h = (tt, h)
Flat-append (l ∷ ls) ms (own, h) = let (a, b) = Flat-append ls ms h in ((own, a), b)

map-append : (ls ms : List Line) → map render (ls ++ ms) ≡ map render ls ++ map render ms
map-append [] ms = refl
map-append (l ∷ ls) ms = ap (λ (ss : List Text). render l ∷ ss) (map-append ls ms)

-- The lines of the roles of a node; a blank one if it has none.
abbrev pub role_line : Text → Line
role_line role = record {
  before = codes "    node-role.kubernetes.io/";
  value = role;
  after = codes ": \"true\"";
}

abbrev pub role_lines : List Text → List Line
role_lines [] = fixed (codes "    ") ∷ []
role_lines (r ∷ rs) = role_line r ∷ map role_line rs

abbrev pub node_lines : Text → Text → Node → List Line
node_lines now now' n = node_head n ++ (role_lines n.roles ++ node_tail now now' n)

-- The line of a label of a pod.
abbrev pub label_lines : Dict Text Text → List Line
label_lines [] = fixed [] ∷ []
label_lines ((k, v) ∷ d) = with_value (codes "    ") (k ++ (codes ": " ++ v)) ∷ label_lines d

abbrev pub pod_lines : Pod → List Line
pod_lines p = pod_head p ++ (label_lines p.labels ++ pod_tail p)

role_text :
    (r : Text) (rs : List Text)
    → codes "    " ++ join_by (newline ∷ codes "    ") (map role_label (r ∷ rs))
      ≡ join (map render (role_lines (r ∷ rs))) newline
unfolding join join_by
role_text r [] = refl
role_text r (q ∷ rs) = ap (λ (t : Text). render (role_line r) ++ (newline ∷ t)) (role_text q rs)

roles_clean : (rs : List Text) → is_clean (map role_line rs) ≡ true
unfolding is_clean nat_eq
roles_clean [] = refl
roles_clean (r ∷ rs) = roles_clean rs

split-roles :
    (rs : List Text)
    → Flat (role_lines rs)
    → split (codes "    " ++ join_by (newline ∷ codes "    ") (map role_label rs)) newline
      ≡ map render (role_lines rs)
unfolding is_clean nat_eq join_by join
split-roles [] h = split-lines (fixed (codes "    ")) [] refl h
split-roles (r ∷ rs) h =
    ap (λ (t : Text). split t newline) (role_text r rs)
    ∙ split-lines (role_line r) (map role_line rs) (roles_clean rs) h

label_text :
    (k v rest : Text)
    → codes "    " ++ (k ++ (codes ": " ++ (v ++ (newline ∷ rest))))
      ≡ render (with_value (codes "    ") (k ++ (codes ": " ++ v))) ++ (newline ∷ rest)
label_text k v rest = simp (append_assoc, append-nil)

label_clean :
    (k v : Text) → is_clean (with_value (codes "    ") (k ++ (codes ": " ++ v)) ∷ []) ≡ true
unfolding is_clean nat_eq
label_clean k v = refl

split-labels :
    (d : Dict Text Text)
    → Flat (label_lines d)
    → split (format_labels d) newline ≡ map render (label_lines d)
unfolding format_labels
split-labels [] h = unfold split in refl
split-labels ((k, v) ∷ d) (own, h) =
    let line = with_value (codes "    ") (k ++ (codes ": " ++ v)) in
    let lacks = (lines-Lacks (line ∷ []) (label_clean k v) (own, tt)).0 in
    ap (λ (t : Text). split t newline) (label_text k v (format_labels d))
    ∙ split-append newline (render line) (format_labels d)
    ∙ rw (split-Lacks newline (render line) lacks, split-labels d h) refl

-- Three texts one under the other
split-three :
    (a b c : Text) (la lb lc : List Text)
    → split a newline ≡ la
    → split b newline ≡ lb
    → split c newline ≡ lc
    → split (a ++ (newline ∷ (b ++ (newline ∷ c)))) newline ≡ la ++ (lb ++ lc)
split-three a b c la lb lc ea eb ec =
    split-append newline a (b ++ (newline ∷ c)) ∙ rw (ea, split-append newline b c, eb, ec) refl

parts-Flat : (a b c : List Line) → Flat (a ++ (b ++ c)) → Flat a × Flat b × Flat c
parts-Flat a b c h =
    let (ha, rest) = Flat-append a (b ++ c) h in let (hb, hc) = Flat-append b c rest in (ha, hb, hc)

rendered :
    (a b c : List Line)
    → map render a ++ (map render b ++ map render c) ≡ map render (a ++ (b ++ c))
rendered a b c = rw (map-append a (b ++ c), map-append b c) refl

-- If no value that goes into the manifest of a node has a newline, the manifest that kubectl is given
-- splits into the lines of the template, each with its value, and one line for each role.
pub node_yaml-lines :
    (now now' : Text) (n : Node)
    → Flat (node_lines now now' n)
    → split (node_yaml now now' n) newline ≡ map render (node_lines now now' n)
unfolding node_yaml is_clean is_filled nat_eq
node_yaml-lines now now' n h =
    let (first, roles, last) =
      parts-Flat (node_head n) (role_lines n.roles) (node_tail now now' n) h in
    split-three (text_of_lines (node_head n))
      (codes "    " ++ join_by (newline ∷ codes "    ") (map role_label n.roles))
      (text_of_lines (node_tail now now' n)) _ _ _ (split-filled (node_head n) refl refl first)
      (split-roles n.roles roles) (split-filled (node_tail now now' n) refl refl last)
    ∙ rendered (node_head n) (role_lines n.roles) (node_tail now now' n)

-- If no value that goes into the manifest of a pod has a newline, the manifest that kubectl is given
-- splits into the lines of the template, each with its value, and one line for each label.
pub pod_yaml-lines :
    (p : Pod) → Flat (pod_lines p) → split (pod_yaml p) newline ≡ map render (pod_lines p)
unfolding pod_yaml is_clean is_filled nat_eq
pod_yaml-lines p h =
    let (first, labels, last) = parts-Flat (pod_head p) (label_lines p.labels) (pod_tail p) h in
    split-three (text_of_lines (pod_head p)) (format_labels p.labels) (text_of_lines (pod_tail p)) _
      _ _ (split-filled (pod_head p) refl refl first) (split-labels p.labels labels)
      (split-filled (pod_tail p) refl refl last)
    ∙ rendered (pod_head p) (label_lines p.labels) (pod_tail p)
