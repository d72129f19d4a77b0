-- ===== src/Tests/Readiness.antt =====
-- Tests of the checks before a cluster is used: main.go, kwok_integration.go.
use scale_cluster_agent.Import.Value.{Fields, string, object, field, no_field, get}
use scale_cluster_agent.Import.Transform.{transform_document}
use scale_cluster_agent.Import.Names.{name_of}
use scale_cluster_agent.Kwok.Main.{MainAnswers, succeeded}
use scale_cluster_agent.Proxy.Invariant.{IsOwned}
use scale_cluster_agent.Proxy.Steps.{here, Reach-IsOwned}
use scale_cluster_agent.Readiness.{
  any_tick, timeout, wait_for_service_account_ready, test_critical_api_endpoints,
}
use scale_cluster_agent.Readiness.Account.{namespace_of, wait_for_service_account_ready-cattle}
use scale_cluster_agent.Readiness.Laws.{IsTested, test_critical_api_endpoints-IsTested}
use scale_cluster_agent.Tests.Agent.{with_a}
use scale_cluster_agent.Tests.Proxy.{no_proxies, world}
use scale_cluster_agent.Prelude.Results.{ok, err}
use scale_cluster_agent.Prelude.{
  ◌≡◌, refl, true, false, [], ◌∷◌, none, some, text_eq, codes, if◌then◌else◌,
}

abbrev cattle : Fields
cattle = field (codes "kind") (string (codes "ServiceAccount")) (
    field (codes "metadata")
      (object (
        field (codes "name") (string (codes "cattle"))
          (field (codes "namespace") (string (codes "cattle-system")) no_field)))
      no_field)

wait_for_service_account_ready-cattle_example :
    wait_for_service_account_ready true [] (λ account. false ∷ true ∷ []) (codes "c-1") ≡ (
      if any_tick (false ∷ true ∷ [])
      then ok (
        namespace_of (transform_document (codes "c-1") cattle),
        name_of (transform_document (codes "c-1") cattle),
      )
      else err timeout)
unfolding get text_eq
wait_for_service_account_ready-cattle_example =
    wait_for_service_account_ready-cattle (codes "c-1") cattle [] (λ account. false ∷ true ∷ [])
      (refl, refl, refl)

test_critical_api_endpoints-IsTested_example :
    IsOwned (test_critical_api_endpoints world true true (codes "c-1") with_a no_proxies).0
    × IsTested no_proxies
        (codes "c-1")
        (test_critical_api_endpoints world true true (codes "c-1") with_a no_proxies).0
        (test_critical_api_endpoints world true true (codes "c-1") with_a no_proxies).1
test_critical_api_endpoints-IsTested_example =
    test_critical_api_endpoints-IsTested world true (codes "c-1") with_a no_proxies
      (Reach-IsOwned no_proxies _ refl here)

abbrev pub answers : MainAnswers
answers = record {
  exists = true;
  before = some (codes "http: server gave HTTP response to HTTPS client");
  home_ok = true;
  policy_found = false;
  created = succeeded;
  ready = true;
  after = none;
}
