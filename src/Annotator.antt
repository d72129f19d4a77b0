-- ===== src/Annotator.antt =====
-- annotateNodePodUsage of pod_usage_annotator.go: the pods of each node that have not come to an end.
-- What kubectl prints of the pods, once unmarshalled, and of the nodes is given.
use scale_cluster_agent.Strings.{split}
use scale_cluster_agent.Strings.Trim.{trim_space}
use scale_cluster_agent.Prelude.Dict.{Dict, lookup, insert, lookup-insert, lookup-nil}
use scale_cluster_agent.Prelude.{
  ℕ, ◌+◌, ◌≡◌, ◌≢◌, refl, Bool, not, ◌&&◌, ◌||◌, List, [], ◌∷◌, Option, none, some, Text, text_eq,
  codes, ◌==◌, Bool-cases, inl, inr, if◌then◌else◌, arith,
}

-- Spec.NodeName and Status.Phase
pub record ListedPod : Type 0 where
  pub node_name : Text
  pub phase : Text

-- The pods that the loop passes over.
abbrev pub is_skipped : ListedPod → Bool
is_skipped p = p.node_name == [] || (p.phase == codes "Succeeded" || p.phase == codes "Failed")

-- counts[node]
abbrev pub count_of : Dict Text ℕ → Text → ℕ
count_of counts node = elim (lookup node counts) [ none ↦ 0 | some n ↦ n ]

unfoldable pub count_pods : List ListedPod → Dict Text ℕ → Dict Text ℕ
count_pods [] counts = counts
count_pods (p ∷ ps) counts =
    let counted = insert p.node_name (count_of counts p.node_name + 1) counts in
    let skipped = count_pods ps counts in
    let rest = count_pods ps counted in if is_skipped p then skipped else rest

-- The loop over the nodes: the annotations, in order. An annotation that fails is only logged.
unfoldable pub annotations : Dict Text ℕ → List Text → List (Text × ℕ)
annotations counts [] = []
annotations counts (node ∷ nodes) =
    let rest = annotations counts nodes in
    if node == [] then rest else (node, count_of counts node) ∷ rest

-- annotateNodePodUsage: pods that cannot be listed or read count as none; `none` is the error of the
-- listing of nodes.
unfoldable pub annotate_node_pod_usage :
    Option (List ListedPod) → Option Text → Option (List (Text × ℕ))
unfolding count_pods annotations
annotate_node_pod_usage pods none = none
annotate_node_pod_usage pods (some node_out) =
    let counts : Dict Text ℕ = elim pods [ none ↦ [] | some ps ↦ count_pods ps [] ] in
    let trimmed = trim_space node_out in
    some (if trimmed == [] then [] else annotations counts (split trimmed 10))

-- How many pods of the list run on a node: those with its name that are neither Succeeded nor Failed.
abbrev pub running_on : Text → List ListedPod → ℕ
running_on node [] = 0
running_on node (p ∷ ps) =
    (if p.node_name == node && not (p.phase == codes "Succeeded" || p.phase == codes "Failed")
      then 1
      else 0)
    + running_on node ps

count_pods-running_on :
    (ps : List ListedPod) (counts : Dict Text ℕ) (node : Text)
    → node ≢ []
    → count_of (count_pods ps counts) node ≡ count_of counts node + running_on node ps
unfolding count_pods
count_pods-running_on [] counts node d = omega arith
count_pods-running_on (p ∷ ps) counts node d =
    let counted = insert p.node_name (count_of counts p.node_name + 1) counts in
    let skipped = count_pods-running_on ps counts node d in
    let rest = count_pods-running_on ps counted node d in
    let e = lookup-insert node p.node_name (count_of counts p.node_name + 1) counts in ground arith

-- The report that is due: for each line that is not empty, the node and its running pods.
abbrev pub report : List ListedPod → List Text → List (Text × ℕ)
report ps [] = []
report ps (node ∷ nodes) =
    let rest = report ps nodes in if node == [] then rest else (node, running_on node ps) ∷ rest

annotations-report :
    (ps : List ListedPod) (nodes : List Text)
    → annotations (count_pods ps []) nodes ≡ report ps nodes
unfolding annotations
annotations-report ps [] = refl
annotations-report ps (node ∷ nodes) = elim (Bool-cases (node == [])) [
  | inl e ↦ rw e (annotations-report ps nodes)
  | inr e ↦
      let none_yet = lookup-nil {V = ℕ} node in
      let d : node ≢ [] = ground arith in
      let counted = count_pods-running_on ps [] node d in
      let same : count_of (count_pods ps []) node ≡ running_on node ps = ground arith in
      rw (e, same, annotations-report ps nodes)
]

-- With a list of pods that could be read: the annotator writes, for each node that the trimmed output
-- lists, in this order, the number of the pods on it that are neither Succeeded nor Failed, also if
-- there are none.
pub annotate_node_pod_usage-report :
    (ps : List ListedPod) (node_out : Text)
    → annotate_node_pod_usage (some ps) (some node_out)
      ≡ some (if trim_space node_out == [] then [] else report ps (split (trim_space node_out) 10))
unfolding annotate_node_pod_usage
annotate_node_pod_usage-report ps node_out =
    rw (annotate_node_pod_usage, annotations-report ps (split (trim_space node_out) 10))
