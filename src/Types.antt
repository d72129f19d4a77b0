-- ===== src/Types.antt =====
-- types.go and the types of kwok_integration.go: the configuration of the agent, and the records that
-- describe a simulated cluster. A Go map is a `Dict`, a pointer that may be nil an `Option`.
use scale_cluster_agent.Prelude.Dict.{Dict}
use scale_cluster_agent.Prelude.Int.{ℤ}
use scale_cluster_agent.Prelude.{ℕ, Bool, List, Option, Text, codes}

pub record Config : Type 0 where
  pub rancher_url : Text
  pub bearer_token : Text
  pub listen_port : ℤ
  pub log_level : Text
  pub multi_tenant : Bool
  pub main_cluster_name : Text
  pub main_api_port : ℤ
  pub proxy_base_port : ℤ
  pub resource_only_in_main_cluster : Bool
  pub pprof_enable : Bool
  pub pprof_port : ℤ
  pub mem_log_interval_sec : ℤ
  pub audit : Bool

pub record NodeInfo : Type 0 where
  pub name : Text
  pub status : Text
  pub roles : List Text
  pub age : Text
  pub version : Text
  pub internal_ip : Text
  pub external_ip : Text
  pub os_image : Text
  pub kernel_ver : Text
  pub container_runtime : Text
  pub capacity : Dict Text Text
  pub allocatable : Dict Text Text

pub record PodInfo : Type 0 where
  pub name : Text
  pub namespace : Text
  pub status : Text
  pub ready : Text
  pub restarts : ℤ
  pub age : Text
  pub ip : Text
  pub node : Text
  pub labels : Dict Text Text

pub record ServiceInfo : Type 0 where
  pub name : Text
  pub namespace : Text
  pub type_name : Text
  pub cluster_ip : Text
  pub external_ip : Text
  pub ports : Text
  pub age : Text
  pub labels : Dict Text Text

pub record SecretInfo : Type 0 where
  pub name : Text
  pub namespace : Text
  pub type_name : Text
  pub data_count : ℤ
  pub data_keys : List Text
  pub age : Text

pub record ConfigMapInfo : Type 0 where
  pub name : Text
  pub namespace : Text
  pub data_count : ℤ
  pub data_keys : List Text
  pub age : Text

pub record DeploymentInfo : Type 0 where
  pub name : Text
  pub namespace : Text
  pub ready : Text
  pub up_to_date : Text
  pub available : Text
  pub age : Text
  pub labels : Dict Text Text

pub record ClusterInfo : Type 0 where
  pub name : Text
  pub cluster_id : Text
  pub status : Text
  pub nodes : List NodeInfo
  pub pods : List PodInfo
  pub services : List ServiceInfo
  pub secrets : List SecretInfo
  pub config_maps : List ConfigMapInfo
  pub deployments : List DeploymentInfo

-- &ClusterInfo{Name: name}
abbrev pub bare_cluster : Text → ClusterInfo
bare_cluster name = record {
  name = name;
  cluster_id = codes "";
  status = codes "";
  nodes = List.[];
  pods = List.[];
  services = List.[];
  secrets = List.[];
  config_maps = List.[];
  deployments = List.[];
}

-- Node, Pod and ClusterConfig: cluster.yaml as the KWOK manager reads it.
pub record Node : Type 0 where
  pub name : Text
  pub status : Text
  pub roles : List Text
  pub age : Text
  pub version : Text
  pub internal_ip : Text
  pub external_ip : Text
  pub os_image : Text
  pub kernel_version : Text
  pub container_runtime : Text
  pub capacity : Dict Text Text
  pub allocatable : Dict Text Text

pub record Pod : Type 0 where
  pub name : Text
  pub namespace : Text
  pub status : Text
  pub ready : Text
  pub restarts : ℤ
  pub age : Text
  pub ip : Text
  pub node : Text
  pub labels : Dict Text Text

pub record ClusterConfig : Type 0 where
  pub name : Text
  pub nodes : List Node
  pub pods : List Pod

-- CreatedAt is a time in seconds.
pub record KwokCluster : Type 0 where
  pub name : Text
  pub cluster_id : Text
  pub port : ℤ
  pub kubeconfig : Text
  pub status : Text
  pub created_at : ℕ
  pub config : Option ClusterInfo
