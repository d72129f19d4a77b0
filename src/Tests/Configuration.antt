-- ===== src/Tests/Configuration.antt =====
-- Tests of the configuration: main.go.
use scale_cluster_agent.Strings.Trim.{trim_space, index}
use scale_cluster_agent.Configuration.Sources.{Env, no_config, set_line}
use scale_cluster_agent.Configuration.{Parsers, contents, load_config}
use scale_cluster_agent.Configuration.Laws.{Loads, load_config-Loads}
use scale_cluster_agent.Prelude.{◌≡◌, refl, true, false, [], none, Text, text_eq, codes}

abbrev environment : Env
environment name = []

-- Neither JSON nor YAML
abbrev parsers : Parsers
parsers = record { json = λ t. (no_config, false); yaml = λ t. none }

abbrev file : Text
file = codes "RancherURL: 'https://r'\nBearerToken: Bearer t:s\n"

a_line : (set_line (codes " RancherURL: 'https://r' ") no_config).rancher_url ≡ codes "https://r"
unfolding set_line trim_space index text_eq
a_line = refl

load_config-Loads_example :
    Loads parsers environment true
      (contents file)
      (load_config parsers environment true (contents file))
load_config-Loads_example = load_config-Loads parsers environment true (contents file)
