-- ===== src/Tests/Population.antt =====
-- Tests of the population of tenants: main.go.
use scale_cluster_agent.Types.{ClusterInfo, bare_cluster}
use scale_cluster_agent.Population.Calls.{default_node, populate_tenant_from_template}
use scale_cluster_agent.Population.Main.{apply_template_to_main_cluster}
use scale_cluster_agent.Population.Prepared.{IsPrepared, apply_template_to_main_cluster-IsPrepared}
use scale_cluster_agent.Population.Tenant.{IsOwn, populate_tenant_from_template-IsOwn}
use scale_cluster_agent.Prelude.{true, false, [], ◌∷◌, some, Text, codes, All}

abbrev ports : Text
ports = codes "80/tcp,80:30080/udp,443"

abbrev pub a_template : ClusterInfo
a_template = record (bare_cluster (codes "{{cluster-name}}")) {
  nodes = default_node ∷ [];
  services =
      record {
        name = codes "web";
        namespace = codes "web";
        type_name = [];
        cluster_ip = [];
        external_ip = [];
        ports = ports;
        age = [];
        labels = [];
      }
      ∷ [];
}

populate_tenant_from_template-IsOwn_example :
    All
      (IsOwn (codes "c-1"))
      (populate_tenant_from_template (λ m. true) true false (codes "c-1") (some a_template)).0
populate_tenant_from_template-IsOwn_example =
    populate_tenant_from_template-IsOwn (λ m. true) true false (codes "c-1") (some a_template)

apply_template_to_main_cluster-IsPrepared_example :
    IsPrepared [] (apply_template_to_main_cluster true true (codes "main") (some a_template))
apply_template_to_main_cluster-IsPrepared_example =
    apply_template_to_main_cluster-IsPrepared true true (codes "main") (some a_template)
