-- ===== src/Readiness/Account.antt =====
-- The service account that is waited for is the one that the import manifest makes.
use scale_cluster_agent.Types.{KwokCluster}
use scale_cluster_agent.Tenant.{tenant_namespace, tenant_sa_name}
use scale_cluster_agent.Import.Value.{Fields, get, string, as_string, text_at, get-set}
use scale_cluster_agent.Import.Transform.{
  replace_text, rewrite_name, metadata_of, transform_document,
}
use scale_cluster_agent.Import.Names.{kind_of, name_of, metadata-transform, get-replace_text}
use scale_cluster_agent.Readiness.{timeout, any_tick, wait_for_service_account_ready}
use scale_cluster_agent.Prelude.Dict.{Dict}
use scale_cluster_agent.Prelude.Results.{ok, err}
use scale_cluster_agent.Prelude.{
  ◌≡◌, ◌≢◌, inl, inr, refl, sym, ap, ◌∙◌, Bool, true, false, List, [], none, some, Text, text_eq,
  codes, ◌==◌, Option-cases, if◌then◌else◌, arith,
}

abbrev pub namespace_of : Fields → Text
namespace_of doc = text_at (codes "namespace") (metadata_of doc)

text_at-replace_text :
    (key old new : Text) (fs : Fields)
    → text_at key fs ≡ old
    → old ≢ []
    → text_at key (replace_text key old new fs) ≡ new
unfolding replace_text
text_at-replace_text key old new fs h ne = elim (Option-cases (as_string (get key fs))) [
  | inl e ↦ absurd (ne (sym h ∙ rw (text_at, e) refl))
  | inr (s, e) ↦
      let same : s ≡ old = rw (text_at, e) at h in
      let found : (s == old) ≡ true = ground arith in
      let put = get-set key key (string new) fs in
      let self : (key == key) ≡ true = ground arith in
      rw (text_at, replace_text, e, found, put, self) refl
]

text_at-other :
    (key other old new : Text) (fs : Fields)
    → (other == key) ≡ false
    → text_at key (replace_text other old new fs) ≡ text_at key fs
text_at-other key other old new fs d =
    ap (λ v. elim (as_string v) as (λ _. Text) [ none ↦ [] | some s ↦ s ])
      (get-replace_text key other old new fs d)

rewrite_name-account :
    (cluster_id : Text) (meta : Fields)
    → rewrite_name cluster_id (codes "ServiceAccount") meta
      ≡ replace_text (codes "name") (codes "cattle") (tenant_sa_name cluster_id) meta
unfolding rewrite_name text_eq
rewrite_name-account cluster_id meta = refl

-- The account "cattle" of the namespace "cattle-system" in the manifest of a tenant
abbrev pub IsCattle : Fields → Type 0
IsCattle doc =
    (kind_of doc ≡ codes "ServiceAccount")
    × (name_of doc ≡ codes "cattle")
    × (namespace_of doc ≡ codes "cattle-system")

transform_document-cattle :
    (cluster_id : Text) (doc : Fields)
    → IsCattle doc
    → (namespace_of (transform_document cluster_id doc) ≡ tenant_namespace cluster_id)
      × (name_of (transform_document cluster_id doc) ≡ tenant_sa_name cluster_id)
transform_document-cattle cluster_id doc (k, n, ns) =
    let moved =
      replace_text (codes "namespace") (codes "cattle-system") (tenant_namespace cluster_id)
        (metadata_of doc) in
    let renamed = replace_text (codes "name") (codes "cattle") (tenant_sa_name cluster_id) moved in
    let meta : metadata_of (transform_document cluster_id doc) ≡ renamed =
      metadata-transform cluster_id doc
      ∙ (ap (λ kind. rewrite_name cluster_id kind moved) k
          ∙ rewrite_name-account cluster_id moved) in
    let here =
      text_at-replace_text (codes "namespace") (codes "cattle-system") (tenant_namespace cluster_id)
        (metadata_of doc) ns (λ e. cc e) in
    let kept =
      text_at-other (codes "namespace") (codes "name") (codes "cattle") (tenant_sa_name cluster_id)
        moved (unfold text_eq in refl) in
    let before =
      text_at-other (codes "name") (codes "namespace") (codes "cattle-system")
        (tenant_namespace cluster_id) (metadata_of doc) (unfold text_eq in refl) in
    let there =
      text_at-replace_text (codes "name") (codes "cattle") (tenant_sa_name cluster_id) moved
        (before ∙ n) (λ e. cc e) in
    (
      ap (text_at (codes "namespace")) meta ∙ (kept ∙ here),
      ap (text_at (codes "name")) meta ∙ there,
    )

-- With multi-tenancy, the account that waitForServiceAccountReady waits for is the one that the
-- rewritten import manifest makes of the account "cattle" of "cattle-system": the wait succeeds exactly
-- if one of its ticks finds this account.
pub wait_for_service_account_ready-cattle :
    (cluster_id : Text) (doc : Fields) (clusters : Dict Text KwokCluster)
    (ticks : Text × Text → List Bool)
    → IsCattle doc
    → wait_for_service_account_ready true clusters ticks cluster_id ≡ (
        if any_tick (
          ticks (
            namespace_of (transform_document cluster_id doc),
            name_of (transform_document cluster_id doc),
          ))
        then ok (
          namespace_of (transform_document cluster_id doc),
          name_of (transform_document cluster_id doc),
        )
        else err timeout)
unfolding wait_for_service_account_ready
wait_for_service_account_ready-cattle cluster_id doc clusters ticks h =
    let (ns, name) = transform_document-cattle cluster_id doc h in rw (ns, name) refl
