-- ===== src/Startup/Default.antt =====
-- createDefaultClusterTemplate of main.go: the template where there is no cluster.yaml that can be read.
use scale_cluster_agent.Types.{
  ClusterInfo, NodeInfo, PodInfo, ServiceInfo, SecretInfo, ConfigMapInfo, DeploymentInfo,
}
use scale_cluster_agent.Prelude.Int.{pos}
use scale_cluster_agent.Prelude.{List, [], ◌∷◌, codes}

abbrev pub default_nodes : List NodeInfo
default_nodes =
    record {
      name = codes "{{cluster-name}}-node1";
      status = codes "Ready";
      roles = codes "control-plane" ∷ codes "etcd" ∷ codes "master" ∷ [];
      age = codes "42h";
      version = codes "v1.28.5+k3s1";
      internal_ip = codes "10.244.244.1";
      external_ip = codes "<none>";
      os_image = codes "0.0.0-poc-k3s-june11-aca5d463-dirty-2025-07-31.04.42-kubevirt-amd64";
      kernel_ver = codes "6.1.112-linuxkit-63f4d774fbc8";
      container_runtime = codes "containerd://1.7.11-k3s2";
      capacity =
          (codes "cpu", codes "4")
          ∷ (codes "memory", codes "8Gi")
          ∷ (codes "pods", codes "110")
          ∷ [];
      allocatable =
          (codes "cpu", codes "3800m")
          ∷ (codes "memory", codes "7Gi")
          ∷ (codes "pods", codes "110")
          ∷ [];
    }
    ∷ record {
      name = codes "{{cluster-name}}-node2";
      status = codes "Ready";
      roles = codes "control-plane" ∷ codes "etcd" ∷ codes "master" ∷ [];
      age = codes "39h";
      version = codes "v1.28.5+k3s1";
      internal_ip = codes "10.244.244.3";
      external_ip = codes "<none>";
      os_image = codes "0.0.0-poc-k3s-june11-aca5d463-dirty-2025-07-31.04.42-kubevirt-amd64";
      kernel_ver = codes "6.1.112-linuxkit-63f4d774fbc8";
      container_runtime = codes "containerd://1.7.11-k3s2";
      capacity =
          (codes "cpu", codes "4")
          ∷ (codes "memory", codes "8Gi")
          ∷ (codes "pods", codes "110")
          ∷ [];
      allocatable =
          (codes "cpu", codes "3800m")
          ∷ (codes "memory", codes "7Gi")
          ∷ (codes "pods", codes "110")
          ∷ [];
    }
    ∷ []

abbrev pub default_pods : List PodInfo
default_pods =
    record {
      name = codes "coredns-6799fbcd5-lgj8v";
      namespace = codes "kube-system";
      status = codes "Running";
      ready = codes "1/1";
      restarts = pos 3;
      age = codes "42h";
      ip = codes "10.42.0.97";
      node = codes "{{cluster-name}}-node1";
      labels = (codes "k8s-app", codes "kube-dns") ∷ [];
    }
    ∷ record {
      name = codes "traefik-f4564c4f4-xz9t5";
      namespace = codes "kube-system";
      status = codes "Running";
      ready = codes "1/1";
      restarts = pos 3;
      age = codes "42h";
      ip = codes "10.42.0.105";
      node = codes "{{cluster-name}}-node1";
      labels = (codes "app.kubernetes.io/name", codes "traefik") ∷ [];
    }
    ∷ record {
      name = codes "nginx-deployment-7d4cd48b5c-abc12";
      namespace = codes "default";
      status = codes "Running";
      ready = codes "3/3";
      restarts = pos 0;
      age = codes "2h";
      ip = codes "10.42.1.10";
      node = codes "{{cluster-name}}-node2";
      labels = (codes "app", codes "nginx") ∷ [];
    }
    ∷ record {
      name = codes "grafana-6b8c5d4f3e-def34";
      namespace = codes "monitoring";
      status = codes "Running";
      ready = codes "1/1";
      restarts = pos 1;
      age = codes "1h";
      ip = codes "10.42.2.15";
      node = codes "{{cluster-name}}-node1";
      labels = (codes "app", codes "grafana") ∷ [];
    }
    ∷ []

abbrev pub default_services : List ServiceInfo
default_services =
    record {
      name = codes "kubernetes";
      namespace = codes "default";
      type_name = codes "ClusterIP";
      cluster_ip = codes "10.43.0.1";
      external_ip = codes "<none>";
      ports = codes "443/TCP";
      age = codes "42h";
      labels = [];
    }
    ∷ record {
      name = codes "kube-dns";
      namespace = codes "kube-system";
      type_name = codes "ClusterIP";
      cluster_ip = codes "10.43.0.10";
      external_ip = codes "<none>";
      ports = codes "53/UDP,53/TCP,9153/TCP";
      age = codes "42h";
      labels = (codes "k8s-app", codes "kube-dns") ∷ [];
    }
    ∷ record {
      name = codes "traefik";
      namespace = codes "kube-system";
      type_name = codes "LoadBalancer";
      cluster_ip = codes "10.43.185.148";
      external_ip = codes "10.244.244.1,10.244.244.3";
      ports = codes "80:32522/TCP,443:32443/TCP";
      age = codes "42h";
      labels = (codes "app.kubernetes.io/name", codes "traefik") ∷ [];
    }
    ∷ []

abbrev pub default_secrets : List SecretInfo
default_secrets =
    record {
      name = codes "default-token-abc12";
      namespace = codes "default";
      type_name = codes "kubernetes.io/service-account-token";
      data_count = pos 3;
      data_keys = [];
      age = codes "42h";
    }
    ∷ record {
      name = codes "rancher-token-def34";
      namespace = codes "cattle-system";
      type_name = codes "kubernetes.io/service-account-token";
      data_count = pos 3;
      data_keys = [];
      age = codes "42h";
    }
    ∷ []

abbrev pub default_config_maps : List ConfigMapInfo
default_config_maps =
    record {
      name = codes "kube-root-ca.crt";
      namespace = codes "default";
      data_count = pos 1;
      data_keys = [];
      age = codes "42h";
    }
    ∷ record {
      name = codes "traefik-config";
      namespace = codes "kube-system";
      data_count = pos 2;
      data_keys = [];
      age = codes "42h";
    }
    ∷ []

abbrev pub default_deployments : List DeploymentInfo
default_deployments =
    record {
      name = codes "nginx-deployment";
      namespace = codes "default";
      ready = codes "3";
      up_to_date = codes "3";
      available = codes "3";
      age = codes "2h";
      labels = (codes "app", codes "nginx") ∷ [];
    }
    ∷ record {
      name = codes "grafana";
      namespace = codes "monitoring";
      ready = codes "1";
      up_to_date = codes "1";
      available = codes "1";
      age = codes "1h";
      labels = (codes "app", codes "grafana") ∷ [];
    }
    ∷ []

abbrev pub default_template : ClusterInfo
default_template = record {
  name = codes "template";
  cluster_id = [];
  status = [];
  nodes = default_nodes;
  pods = default_pods;
  services = default_services;
  secrets = default_secrets;
  config_maps = default_config_maps;
  deployments = default_deployments;
}
