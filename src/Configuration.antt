-- ===== src/Configuration.antt =====
-- loadConfig of main.go: where the configuration comes from, and what is made of it.
pub mod Sources
pub mod Laws
use scale_cluster_agent.Types.{Config}
use scale_cluster_agent.Strings.{has_prefix, to_lower}
use scale_cluster_agent.Strings.Trim.{trim_space}
use scale_cluster_agent.Configuration.Sources.{
  Env, Yaml, is_yes, or_text, or_yes, or_number, number_or, no_config, from_environment, from_yaml,
  from_lines,
}
use scale_cluster_agent.Prelude.Int.{pos}
use scale_cluster_agent.Prelude.Results.{Result, ok, err}
use scale_cluster_agent.Prelude.{
  Bool, true, false, Option, none, some, Text, text_eq, codes, drop, [], ◌==◌, if◌then◌else◌,
}

-- What ReadFile gives: the contents, or an error.
pub data ReadFile : Type 0 where
  contents : Text → ReadFile
  not_exist failed : ReadFile

-- json.Unmarshal into a Config: what it has filled in, and whether there is no error; and
-- yaml3.Unmarshal into a map, if there is no error.
pub record Parsers : Type 0 where
  pub json : Text → Config × Bool
  pub yaml : Text → Option (Text → Yaml)

pub data ConfigError : Type 0 where
  no_home unreadable no_rancher_url no_bearer_token : ConfigError

-- What a file gives
unfoldable pub from_file : Parsers → Text → Config
unfolding from_yaml from_lines
from_file k data_ =
    let (c, done) = k.json data_ in
    let other = elim (k.yaml data_) as (λ _. Config) [
      | none ↦ from_lines data_ c
      | some y ↦ from_yaml y c
    ] in
    if done then c else other

-- The variables that count whatever the source; that for pprof only if there is no file.
unfoldable pub override : Env → Bool → Config → Config
unfolding is_yes
override e file_found c = record c {
  log_level = or_text (e (codes "SCALE_AGENT_LOG")) c.log_level;
  pprof_enable =
      if file_found then c.pprof_enable else or_yes (e (codes "SCALE_AGENT_PPROF")) c.pprof_enable;
  pprof_port = or_number (e (codes "SCALE_AGENT_PPROF_PORT")) c.pprof_port;
  mem_log_interval_sec =
      or_number (e (codes "SCALE_AGENT_MEM_LOG_INTERVAL")) c.mem_log_interval_sec;
  audit = or_yes (e (codes "SCALE_AGENT_AUDIT")) c.audit;
  resource_only_in_main_cluster =
      or_yes (e (codes "SCALE_AGENT_RESOURCES_MAIN")) c.resource_only_in_main_cluster;
}

-- A leading "Bearer " is taken off the token.
unfoldable pub strip_bearer : Text → Text
unfolding to_lower has_prefix trim_space
strip_bearer token =
    if has_prefix (to_lower token) (codes "bearer ") then trim_space (drop 7 token) else token

unfoldable pub normalize : Config → Config
unfolding strip_bearer trim_space
normalize c = record c {
  rancher_url = trim_space c.rancher_url;
  bearer_token = strip_bearer (trim_space c.bearer_token);
  log_level = trim_space c.log_level;
}

abbrev pub text_or : Text → Text → Text
text_or s otherwise = if s == [] then otherwise else s

unfoldable pub set_defaults : Config → Config
set_defaults c = record c {
  listen_port = number_or c.listen_port (pos 9090);
  log_level = text_or c.log_level (codes "info");
  main_cluster_name = text_or c.main_cluster_name (codes "main-cluster");
  main_api_port = number_or c.main_api_port (pos 8050);
  proxy_base_port = number_or c.proxy_base_port (pos 8440);
  pprof_port = number_or c.pprof_port (pos 6060);
}

-- From the source on
unfoldable pub finish : Env → Bool → Config → Result ConfigError Config
unfolding override normalize set_defaults
finish e file_found c =
    let n = normalize (override e file_found c) in
    let done = ok (set_defaults n) in
    let checked = if n.bearer_token == [] then err no_bearer_token else done in
    if n.rancher_url == [] then err no_rancher_url else checked

-- loadConfig, with whether there is a home directory
unfoldable pub load_config : Parsers → Env → Bool → ReadFile → Result ConfigError Config
unfolding finish from_file
load_config k e false file = err no_home
load_config k e true (contents t) = finish e true (from_file k t)
load_config k e true not_exist = finish e false (from_environment e)
load_config k e true failed = err unreadable
