-- ===== src/Tests/Agent.antt =====
-- Tests of the agent: main.go.
use scale_cluster_agent.Types.{ClusterInfo, bare_cluster}
use scale_cluster_agent.Kwok.Manager.{new_manager}
use scale_cluster_agent.Agent.{
  Agent, template, info, store, created, create_cluster_handler, delete_cluster_handler,
  reconcile_rancher_deletions, create_between, create_cluster_from_template,
}
use scale_cluster_agent.Agent.Separate.{IsSeparate, store-IsSeparate, info-store_self}
use scale_cluster_agent.Agent.Handlers.{Creates, create_cluster_handler-Creates}
use scale_cluster_agent.Agent.Runs.{here, next, create_step, delete_step, Reach-template}
use scale_cluster_agent.Agent.Stale.{create-watch, create_between-race}
use scale_cluster_agent.Agent.Setup.{
  Calls, Effect, run_complete_cluster_setup, status_after, run_setup, resume, set_up_again,
  reconnect,
}
use scale_cluster_agent.Agent.Setup.Outcome.{succeeds, IsWorking, last_calls}
use scale_cluster_agent.Agent.Setup.Resume.{resume-cut}
use scale_cluster_agent.Agent.Setup.Final.{run_setup-final}
use scale_cluster_agent.Agent.Setup.Progress.{carry_out, restart-ready}
use scale_cluster_agent.Population.Calls.{default_node}
use scale_cluster_agent.Prelude.Dict.{lookup, insert, lookup-nil}
use scale_cluster_agent.Prelude.{
  ℕ, ◌≡◌, refl, true, false, [], ◌∷◌, none, some, Text, text_eq, nat_eq, codes, take, if◌then◌else◌,
  arith, List, All, ◌++◌, length, ◌≤◌, ◌<◌,
}

abbrev pub no_clusters : Agent
no_clusters = record {
  objects = [];
  next_object = 0;
  clusters = [];
  kwok = new_manager (codes "./kwokctl") (codes "./kwok") 8001 false;
  connect_cancels = [];
  active_connections = [];
  connecting = [];
  saved = [];
}

no_clusters-IsSeparate : IsSeparate no_clusters
no_clusters-IsSeparate = (
  λ n p h. absurd (ground (arith, lookup-nil {V = ℕ} n)),
  λ m n p h k. absurd (ground (arith, lookup-nil {V = ℕ} n)),
)

abbrev pub sample : ClusterInfo
sample = record (bare_cluster (codes "{{cluster-name}}")) { nodes = default_node ∷ [] }

-- An agent with a template, and one with a cluster too.
abbrev pub agent : Agent
agent = store template sample no_clusters

agent-IsSeparate : IsSeparate agent
agent-IsSeparate = store-IsSeparate template sample no_clusters no_clusters-IsSeparate

abbrev pub copy : ClusterInfo → ClusterInfo
copy ci = ci

abbrev pub a_name : Text
a_name = codes "a"

abbrev pub with_a : Agent
with_a = (create_cluster_handler copy (some a_name) (some (codes "c-1")) true agent).0

create_cluster_handler-Creates_example :
    Creates copy
      (some a_name)
      (some (codes "c-1"))
      true
      agent
      (create_cluster_handler copy (some a_name) (some (codes "c-1")) true agent).0
      (create_cluster_handler copy (some a_name) (some (codes "c-1")) true agent).1
create_cluster_handler-Creates_example =
    create_cluster_handler-Creates copy (some a_name) (some (codes "c-1")) true agent
      agent-IsSeparate

create_a :
    (create_cluster_handler copy (some a_name) (some (codes "c-1")) true agent).1
    ≡ created (codes "c-1")
unfolding create_cluster_handler store lookup insert text_eq
create_a = refl

create_between-race_example :
    (info (create_between copy (some a_name) (some (codes "c")) true agent agent).0 a_name
      ≡ some (record (create_cluster_from_template copy agent a_name) {
        cluster_id = codes "c";
        name = a_name;
      }))
    × (info
          (create_between copy
            (some a_name)
            (some (codes "cc"))
            true
            agent
            (create_between copy (some a_name) (some (codes "c")) true agent agent).0).0
          a_name
        ≡ some (record (create_cluster_from_template copy agent a_name) {
          cluster_id = codes "cc";
          name = a_name;
        }))
unfolding create_between store lookup insert text_eq
create_between-race_example =
    create_between-race copy a_name (codes "c") (codes "cc") (some (codes "c")) (some (codes "cc"))
      true agent refl refl

Reach-template_example :
    IsSeparate (delete_cluster_handler a_name true true with_a).0
    × (info (delete_cluster_handler a_name true true with_a).0 template ≡ some sample)
Reach-template_example =
    Reach-template copy sample agent _ agent-IsSeparate
      (info-store_self template sample no_clusters) (λ h. absurd (cc h))
      (next (next here (create_step (some a_name) (some (codes "c-1")) true agent))
        (delete_step a_name true true with_a))

create-watch_example : info (reconcile_rancher_deletions (some []) true with_a).0 a_name ≡ none
unfolding store insert lookup text_eq
create-watch_example =
    create-watch copy a_name (codes "c-1") (some (codes "c-1")) true agent [] agent-IsSeparate
      (refl, tt) (λ h. absurd (cc h)) (λ h. absurd (cc h)) refl create_a

abbrev pub calls : Calls
calls = record {
  multi_tenant = true;
  only_in_main = false;
  is_stored = true;
  namespace_ok = true;
  proxy_ok = true;
  kwok_ok = false;
  yaml_ok = true;
  apply_ok = true;
  account_ok = true;
  api_ok = true;
}

abbrev pub new_a : ClusterInfo
new_a = record (bare_cluster a_name) { cluster_id = codes "c-1" }

resume-cut_example :
    (xs : List Effect) × (run_complete_cluster_setup calls ≡ xs ++ last_calls (succeeds calls))
    × All IsWorking xs
    × (6 ≤ length xs
        → resume a_name
            (record new_a { status = status_after [] (take 6 (run_complete_cluster_setup calls)) })
          ≡ set_up_again ∷ [])
    × (length xs < 6
        → resume a_name
            (record new_a { status = status_after [] (take 6 (run_complete_cluster_setup calls)) })
          ≡ (if succeeds calls then reconnect ∷ [] else []))
resume-cut_example = resume-cut calls a_name new_a 6 (λ h. absurd (cc h)) (λ h. absurd (cc h))

run_setup-final_example :
    lookup 0
      (run_setup
        (λ m. true)
        a_name
        0
        (run_complete_cluster_setup calls)
        true
        (store a_name new_a no_clusters)).objects
    ≡ some (record new_a { status = codes "ready" })
unfolding store insert lookup nat_eq text_eq
run_setup-final_example =
    run_setup-final (λ m. true) a_name calls 0 true (store a_name new_a no_clusters) new_a
      (λ h. absurd (cc h)) refl

-- A cluster whose setup was cut off after six calls
abbrev cut_a : ClusterInfo
cut_a = record new_a { status = status_after [] (take 6 (run_complete_cluster_setup calls)) }

restart-ready_example :
    lookup 0
      (carry_out
        (λ m. true)
        a_name
        0
        calls
        true
        (resume a_name cut_a)
        (store a_name cut_a no_clusters)).objects
    ≡ some (record cut_a { status = codes "ready" })
unfolding store insert lookup nat_eq text_eq
restart-ready_example =
    restart-ready (λ m. true) a_name a_name calls calls 0 true (store a_name cut_a no_clusters)
      cut_a 6 (λ h. absurd (cc h)) (λ h. absurd (cc h)) refl refl refl (λ h. absurd (cc h)) refl
