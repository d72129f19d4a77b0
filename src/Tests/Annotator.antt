-- ===== src/Tests/Annotator.antt =====
-- A test of the annotator: pod_usage_annotator.go.
use scale_cluster_agent.Strings.{split}
use scale_cluster_agent.Strings.Trim.{trim_space}
use scale_cluster_agent.Annotator.{
  ListedPod, annotate_node_pod_usage, annotate_node_pod_usage-report,
}
use scale_cluster_agent.Prelude.{◌≡◌, List, [], ◌∷◌, some, text_eq, nat_eq, codes}

abbrev pods : List ListedPod
pods =
    record { node_name = codes "n"; phase = codes "Running" }
    ∷ record { node_name = codes "n"; phase = codes "Failed" }
    ∷ []

annotate_node_pod_usage-report_example :
    annotate_node_pod_usage (some pods) (some (codes "n\nm\n"))
    ≡ some ((codes "n", 1) ∷ (codes "m", 0) ∷ [])
unfolding trim_space split text_eq nat_eq
annotate_node_pod_usage-report_example = annotate_node_pod_usage-report pods (codes "n\nm\n")
