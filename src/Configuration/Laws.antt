-- ===== src/Configuration/Laws.antt =====
-- A configuration that is loaded can be used.
use scale_cluster_agent.Types.{Config}
use scale_cluster_agent.Configuration.Sources.{Env, number_or, from_environment}
use scale_cluster_agent.Configuration.{
  ReadFile, contents, not_exist, failed, Parsers, ConfigError, no_home, unreadable, no_rancher_url,
  no_bearer_token, from_file, override, normalize, text_or, set_defaults, finish, load_config,
}
use scale_cluster_agent.Prelude.Int.{ℤ, pos, negsuc}
use scale_cluster_agent.Prelude.Results.{Result, ok, err}
use scale_cluster_agent.Prelude.{
  zero, suc, ◌≡◌, ◌≢◌, refl, inl, inr, Bool, true, false, [], ◌∷◌, Text, text_eq, codes, ◌==◌,
  Bool-cases, arith,
}

-- What the rest of the program relies on
abbrev pub IsUsable : Config → Type 0
IsUsable c =
    (c.rancher_url ≢ [])
    × (c.bearer_token ≢ [])
    × (c.listen_port ≢ pos 0)
    × (c.log_level ≢ [])
    × (c.main_cluster_name ≢ [])
    × (c.main_api_port ≢ pos 0)
    × (c.proxy_base_port ≢ pos 0)
    × (c.pprof_port ≢ pos 0)

-- The outcome, with the configuration that came from the source
abbrev pub Outcome : Env → Bool → Config → Result ConfigError Config → Type 0
Outcome e file_found c (ok d) = IsUsable d
Outcome e file_found c (err no_rancher_url) = (normalize (override e file_found c)).rancher_url ≡ []
Outcome e file_found c (err no_bearer_token) =
    ((normalize (override e file_found c)).rancher_url ≢ [])
    × ((normalize (override e file_found c)).bearer_token ≡ [])
Outcome e file_found c (err no_home) = ⊥
Outcome e file_found c (err unreadable) = ⊥

number_or-ne : (n otherwise : ℤ) → otherwise ≢ pos 0 → number_or n otherwise ≢ pos 0
number_or-ne (pos zero) otherwise h e = h e
number_or-ne (pos (suc n)) otherwise h e = absurd (ground arith)
number_or-ne (negsuc n) otherwise h e = cc e

text_or-ne : (s otherwise : Text) → otherwise ≢ [] → text_or s otherwise ≢ []
unfolding text_eq
text_or-ne [] otherwise h e = h e
text_or-ne (c ∷ s) otherwise h e = cc e

set_defaults-IsUsable :
    (c : Config) → c.rancher_url ≢ [] → c.bearer_token ≢ [] → IsUsable (set_defaults c)
unfolding set_defaults
set_defaults-IsUsable c u b = (
  u,
  b,
  number_or-ne c.listen_port (pos 9090) (ground arith),
  text_or-ne c.log_level (codes "info") (λ e. cc e),
  text_or-ne c.main_cluster_name (codes "main-cluster") (λ e. cc e),
  number_or-ne c.main_api_port (pos 8050) (ground arith),
  number_or-ne c.proxy_base_port (pos 8440) (ground arith),
  number_or-ne c.pprof_port (pos 6060) (ground arith),
)

finish-Outcome :
    (e : Env) (file_found : Bool) (c : Config) → Outcome e file_found c (finish e file_found c)
unfolding finish
finish-Outcome e file_found c =
    let n = normalize (override e file_found c) in
    elim (Bool-cases (n.rancher_url == [])) [
      | inl u ↦ rw (finish, u) (ground arith)
      | inr u ↦ elim (Bool-cases (n.bearer_token == [])) [
        | inl b ↦ rw (finish, u, b) (ground arith, ground arith)
        | inr b ↦ rw (finish, u, b) (set_defaults-IsUsable n (ground arith) (ground arith))
      ]
    ]

-- What loadConfig comes to, by what it reads.
abbrev pub Loads : Parsers → Env → Bool → ReadFile → Result ConfigError Config → Type 0
Loads k e false file r = r ≡ err no_home
Loads k e true (contents t) r = Outcome e true (from_file k t) r
Loads k e true not_exist r = Outcome e false (from_environment e) r
Loads k e true failed r = r ≡ err unreadable

-- Whatever the file, the parsers and the environment: a configuration that is loaded has Rancher's
-- URL, a token, a level for the log, a name for the main cluster, and no port 0 for the agent, the
-- main cluster, the proxies and pprof. An error says what is wrong: there is no home directory, the
-- file cannot be read, the URL is blank, or, with a URL, the token is blank.
pub load_config-Loads :
    (k : Parsers) (e : Env) (home : Bool) (file : ReadFile)
    → Loads k e home file (load_config k e home file)
unfolding load_config
load_config-Loads k e false file = refl
load_config-Loads k e true (contents t) = finish-Outcome e true (from_file k t)
load_config-Loads k e true not_exist = finish-Outcome e false (from_environment e)
load_config-Loads k e true failed = refl
