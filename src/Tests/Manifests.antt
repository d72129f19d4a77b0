-- ===== src/Tests/Manifests.antt =====
-- Tests of the manifests and the processes of a KWOK cluster: kwok_integration.go.
use scale_cluster_agent.Types.{Node}
use scale_cluster_agent.Kwok.Manifests.{newline}
use scale_cluster_agent.Kwok.Processes.{
  kill_scheduler_and_controller, apply_anonymous_service_account,
}
use scale_cluster_agent.Prelude.Int.{pos}
use scale_cluster_agent.Prelude.{
  ◌≡◌, refl, true, [], ◌∷◌, ◌++◌, some, Text, text_eq, nat_eq, codes, ◌==◌,
}

abbrev node : Node
node = record {
  name = codes "n";
  status = codes "True";
  roles = codes "worker" ∷ codes "etcd" ∷ [];
  age = [];
  version = codes "v1";
  internal_ip = codes "10.0.0.1";
  external_ip = [];
  os_image = codes "linux";
  kernel_version = codes "6";
  container_runtime = codes "c";
  capacity = (codes "cpu", codes "4") ∷ [];
  allocatable = [];
}

-- A line of another cluster's scheduler, and one of this cluster's.
abbrev listing : Text
listing =
    codes " 7 /h/b/bin/kube-scheduler"
    ++ (newline ∷ (codes " 12 /h/a/bin/kube-scheduler" ++ (newline ∷ codes " 13 /h/a/bin/etcd")))

kill-example :
    kill_scheduler_and_controller (λ pid. true) (codes "/h/a/") (some listing) ≡ (pos 12 ∷ [], true)
unfolding kill_scheduler_and_controller
kill-example = refl

-- The second attempt succeeds.
attempts-example : apply_anonymous_service_account true true true (λ n. n == 2) ≡ (2, true)
unfolding apply_anonymous_service_account nat_eq
attempts-example = refl
