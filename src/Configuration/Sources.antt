-- ===== src/Configuration/Sources.antt =====
-- The sources of the configuration: environment, YAML and lines "key: value".
use scale_cluster_agent.Types.{Config}
use scale_cluster_agent.Strings.{has_prefix, split, atoi, to_lower}
use scale_cluster_agent.Strings.Trim.{trim_space, index}
use scale_cluster_agent.Prelude.Int.{ℤ, pos, negsuc}
use scale_cluster_agent.Prelude.{
  ℕ, zero, suc, Bool, false, ◌||◌, List, [], ◌∷◌, none, some, Text, text_eq, nat_eq, codes, ◌==◌,
  take, drop, if◌then◌else◌,
}

-- os.Getenv: a variable that is not set is empty.
abbrev pub Env : Type 0
Env = Text → Text

-- lv := strings.ToLower(v); lv == "1" || lv == "true" || lv == "yes"
abbrev pub is_affirmative : Text → Bool
is_affirmative v = let lv = to_lower v in lv == codes "1" || lv == codes "true" || lv == codes "yes"

-- The same of strings.TrimSpace(v)
unfoldable pub is_yes : Text → Bool
unfolding to_lower trim_space
is_yes v = is_affirmative (trim_space v)

-- if v != "" { … = v }
abbrev pub or_text : Text → Text → Text
or_text v old = if v == [] then old else v

abbrev pub or_yes : Text → Bool → Bool
or_yes v old = if v == [] then old else is_yes v

abbrev pub or_atoi : Text → ℤ → ℤ
or_atoi v old = elim (atoi v) [ none ↦ old | some n ↦ n ]

abbrev pub or_number : Text → ℤ → ℤ
or_number v old = if v == [] then old else or_atoi (trim_space v) old

-- var config Config
abbrev pub no_config : Config
no_config = record {
  rancher_url = [];
  bearer_token = [];
  listen_port = pos 0;
  log_level = [];
  multi_tenant = false;
  main_cluster_name = [];
  main_api_port = pos 0;
  proxy_base_port = pos 0;
  resource_only_in_main_cluster = false;
  pprof_enable = false;
  pprof_port = pos 0;
  mem_log_interval_sec = pos 0;
  audit = false;
}

-- if … == 0 { … = otherwise }
abbrev pub number_or : ℤ → ℤ → ℤ
number_or (pos zero) otherwise = otherwise
number_or (pos (suc n)) otherwise = pos (suc n)
number_or (negsuc n) otherwise = negsuc n

-- The fallback where there is no file
unfoldable pub from_environment : Env → Config
unfolding is_yes atoi trim_space
from_environment e = record {
  rancher_url = or_text (e (codes "RANCHER_URL")) (codes "https://rancher.invalid");
  bearer_token = e (codes "RANCHER_TOKEN");
  listen_port = number_or (or_atoi (e (codes "SCALE_AGENT_PORT")) (pos 0)) (pos 9090);
  log_level = or_text (e (codes "SCALE_AGENT_LOG")) (codes "debug");
  multi_tenant = or_yes (e (codes "SCALE_AGENT_MULTI_TENANT")) false;
  main_cluster_name = or_text (e (codes "SCALE_AGENT_MAIN_CLUSTER_NAME")) (codes "main-cluster");
  main_api_port = number_or (or_number (e (codes "SCALE_AGENT_MAIN_API_PORT")) (pos 0)) (pos 8050);
  proxy_base_port =
      number_or (or_number (e (codes "SCALE_AGENT_PROXY_BASE_PORT")) (pos 0)) (pos 8440);
  resource_only_in_main_cluster = false;
  pprof_enable = or_yes (e (codes "SCALE_AGENT_PPROF")) false;
  pprof_port = number_or (or_number (e (codes "SCALE_AGENT_PPROF_PORT")) (pos 0)) (pos 6060);
  mem_log_interval_sec = or_number (e (codes "SCALE_AGENT_MEM_LOG_INTERVAL")) (pos 0);
  audit = false;
}

-- A value of the map, as its type assertions see it: `float` has what int(v) makes of the number, and
-- `other` is any other value, or none.
pub data Yaml : Type 0 where
  text : Text → Yaml
  int float : ℤ → Yaml
  bool : Bool → Yaml
  other : Yaml

abbrev pub yaml_text : Yaml → Text → Text
yaml_text (text v) old = v
yaml_text _ old = old

abbrev pub yaml_trimmed : Yaml → Text → Text
yaml_trimmed (text v) old = trim_space v
yaml_trimmed _ old = old

abbrev pub yaml_number : Yaml → ℤ → ℤ
yaml_number (int n) old = n
yaml_number (float n) old = n
yaml_number (text v) old = or_atoi (trim_space v) old
yaml_number _ old = old

abbrev pub yaml_bool : Yaml → Bool → Bool
yaml_bool (bool b) old = b
yaml_bool (text v) old = is_yes v
yaml_bool _ old = old

unfoldable pub from_yaml : (Text → Yaml) → Config → Config
unfolding is_yes atoi trim_space
from_yaml y c = record {
  rancher_url = yaml_text (y (codes "RancherURL")) c.rancher_url;
  bearer_token = yaml_text (y (codes "BearerToken")) c.bearer_token;
  listen_port = yaml_number (y (codes "ListenPort")) c.listen_port;
  log_level = yaml_text (y (codes "LogLevel")) c.log_level;
  multi_tenant = yaml_bool (y (codes "MultiTenant")) c.multi_tenant;
  main_cluster_name = yaml_trimmed (y (codes "MainClusterName")) c.main_cluster_name;
  main_api_port = yaml_number (y (codes "MainAPIPort")) c.main_api_port;
  proxy_base_port = yaml_number (y (codes "ProxyBasePort")) c.proxy_base_port;
  resource_only_in_main_cluster =
      yaml_bool (y (codes "ResourceOnlyInMainCluster")) c.resource_only_in_main_cluster;
  pprof_enable = yaml_bool (y (codes "Pprof")) (yaml_bool (y (codes "PprofEnable")) c.pprof_enable);
  pprof_port = yaml_number (y (codes "PprofPort")) c.pprof_port;
  mem_log_interval_sec = yaml_number (y (codes "MemLogIntervalSec")) c.mem_log_interval_sec;
  audit = yaml_bool (y (codes "Audit")) c.audit;
}

-- strings.Trim(s, "\"'")
abbrev pub is_quote : ℕ → Bool
is_quote c = c == b'"' || c == b'\''

abbrev pub quotes_left : Text → Text
quotes_left [] = []
quotes_left (c ∷ s) = let rest = quotes_left s in if is_quote c then rest else c ∷ s

abbrev pub cons_unquoted : ℕ → Text → Text
cons_unquoted c [] = if is_quote c then [] else c ∷ []
cons_unquoted c (d ∷ s) = c ∷ d ∷ s

abbrev pub quotes_right : Text → Text
quotes_right [] = []
quotes_right (c ∷ s) = cons_unquoted c (quotes_right s)

-- The switch over the keys
unfoldable pub set_key : Text → Text → Config → Config
unfolding is_yes atoi to_lower
set_key k v c =
    if k == codes "RancherURL"
    then record c { rancher_url = v }
    else if k == codes "BearerToken"
    then record c { bearer_token = v }
    else if k == codes "ListenPort"
    then record c { listen_port = or_atoi v c.listen_port }
    else if k == codes "LogLevel"
    then record c { log_level = v }
    else if k == codes "MultiTenant"
    then record c { multi_tenant = is_affirmative v }
    else if k == codes "MainClusterName"
    then record c { main_cluster_name = v }
    else if k == codes "MainAPIPort"
    then record c { main_api_port = or_atoi v c.main_api_port }
    else if k == codes "ProxyBasePort"
    then record c { proxy_base_port = or_atoi v c.proxy_base_port }
    else if k == codes "PprofEnable" || k == codes "Pprof"
    then record c { pprof_enable = is_yes v }
    else if k == codes "PprofPort"
    then record c { pprof_port = or_atoi v c.pprof_port }
    else if k == codes "MemLogIntervalSec"
    then record c { mem_log_interval_sec = or_atoi v c.mem_log_interval_sec }
    else if k == codes "Audit"
    then record c { audit = is_yes v }
    else if k == codes "ResourceOnlyInMainCluster"
    then record c { resource_only_in_main_cluster = is_yes v }
    else c

-- One line; one that is empty, a comment, or has no ":" is passed over.
unfoldable pub set_line : Text → Config → Config
unfolding set_key trim_space has_prefix
set_line line c =
    let l = trim_space line in
    let read = elim (index l b':') as (λ _. Config) [
      | none ↦ c
      | some i ↦
          set_key (trim_space (take i l)) (quotes_right (quotes_left (trim_space (drop (suc i) l))))
            c
    ] in
    if l == [] || has_prefix l (codes "#") then c else read

abbrev pub set_lines : List Text → Config → Config
set_lines [] c = c
set_lines (l ∷ ls) c = set_lines ls (set_line l c)

unfoldable pub from_lines : Text → Config → Config
unfolding set_line
from_lines t c = set_lines (split t 10) c
