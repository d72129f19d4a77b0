-- ===== src/Agent/Template.antt =====
-- populateTenantFromTemplate of main.go, as a step of the agent: what it does to the template.
use scale_cluster_agent.Types.{ClusterInfo}
use scale_cluster_agent.Agent.{Agent, template, info}
use scale_cluster_agent.Agent.Separate.{IsSeparate, with_object, with_object-IsSeparate}
use scale_cluster_agent.Population.Calls.{Manifest, with_node, populate_tenant_from_template}
use scale_cluster_agent.Population.Tenant.{with_node-some}
use scale_cluster_agent.Prelude.Dict.{lookup, lookup-insert, lookup-insert_self}
use scale_cluster_agent.Prelude.{
  ℕ, ◌≡◌, ◌≢◌, ◌⊎◌, inl, inr, refl, ◌∙◌, Bool, ◌&&◌, [], Option, none, some, Text, text_eq, nat_eq,
  Option-cases, Bool-cases, arith,
}

-- The template is the object that the map points to, and the code writes to it through the pointer.
unfoldable pub populate_template : (Manifest → Bool) → Bool → Bool → Text → Agent → Agent
populate_template applies multi_tenant only_in_main cluster a =
    let t = info a template in
    let t' = (populate_tenant_from_template applies multi_tenant only_in_main cluster t).1 in
    elim (lookup template a.clusters) [
      | none ↦ a
      | some p ↦ elim t' [ none ↦ a | some ci ↦ with_object p ci a ]
    ]

info_at :
    (a : Agent) (p : ℕ) (t : Option ClusterInfo)
    → lookup template a.clusters ≡ some p
    → lookup p a.objects ≡ t
    → info a template ≡ t
info_at a p t e k = rw (info, e) k

-- Either nothing changes, or the template's object gets its node.
pub populate_template-cases :
    (applies : Manifest → Bool) (multi_tenant only_in_main : Bool) (cluster : Text) (a : Agent)
    → (populate_template applies multi_tenant only_in_main cluster a ≡ a)
      ⊎ ((p : ℕ) × (t t' : ClusterInfo) × (lookup template a.clusters ≡ some p)
          × (info a template ≡ some t)
          × ((t' ≡ t) ⊎ (t' ≡ with_node t t.nodes))
          × (populate_template applies multi_tenant only_in_main cluster a ≡ with_object p t' a))
unfolding populate_template populate_tenant_from_template
populate_template-cases applies multi_tenant only_in_main cluster a =
    elim (Option-cases (lookup template a.clusters)) [
      | inl e ↦ inl (rw (populate_template, e))
      | inr (p, e) ↦ elim (Option-cases (lookup p a.objects)) [
        | inl k ↦ elim (Bool-cases (multi_tenant && only_in_main)) [
          | inl b ↦
              inl (rw (populate_template, e, info_at a p _ e k, populate_tenant_from_template, b))
          | inr b ↦
              inl (rw (populate_template, e, info_at a p _ e k, populate_tenant_from_template, b))
        ]
        | inr (t, k) ↦ elim (Bool-cases (multi_tenant && only_in_main)) [
          | inl b ↦ inr (
            p,
            t,
            t,
            e,
            info_at a p _ e k,
            inl refl,
            rw (populate_template, e, info_at a p _ e k, populate_tenant_from_template, b),
          )
          | inr b ↦ inr (
            p,
            t,
            with_node t t.nodes,
            e,
            info_at a p _ e k,
            inr refl,
            rw (
              populate_template,
              e,
              info_at a p _ e k,
              populate_tenant_from_template,
              b,
              info_at a p _ e k,
            ),
          )
        ]
      ]
    ]

-- A template that has nodes stays as it is.
pub populate_template-kept :
    (applies : Manifest → Bool) (multi_tenant only_in_main : Bool) (cluster : Text) (a : Agent)
    (t : ClusterInfo)
    → IsSeparate a
    → info a template ≡ some t
    → t.nodes ≢ []
    → IsSeparate (populate_template applies multi_tenant only_in_main cluster a)
      × (info (populate_template applies multi_tenant only_in_main cluster a) template ≡ some t)
populate_template-kept applies multi_tenant only_in_main cluster a t s k ne =
    elim (populate_template-cases applies multi_tenant only_in_main cluster a) [
      | inl e ↦ rw e (s, k)
      | inr (p, u, u', h, k', same, e) ↦
          let agree : u ≡ t = cc (k, k') in
          let kept = with_node-some t t.nodes ne in
          let final : u' ≡ t = elim same [ inl f ↦ f ∙ agree | inr f ↦ f ∙ rw agree kept ] in
          let found = lookup-insert_self p t a.objects in
          rw (e, final) (with_object-IsSeparate p t a s, info_at (with_object p t a) p _ h found)
    ]

-- The map and the other objects stay.
pub populate_template-clusters :
    (applies : Manifest → Bool) (multi_tenant only_in_main : Bool) (cluster : Text) (a : Agent)
    → (populate_template applies multi_tenant only_in_main cluster a).clusters ≡ a.clusters
populate_template-clusters applies multi_tenant only_in_main cluster a =
    elim (populate_template-cases applies multi_tenant only_in_main cluster a) [
      | inl e ↦ rw e refl
      | inr (p, u, u', h, k, same, e) ↦ rw e refl
    ]

pub populate_template-object :
    (applies : Manifest → Bool) (multi_tenant only_in_main : Bool) (cluster : Text) (a : Agent)
    (q : ℕ)
    → lookup template a.clusters ≢ some q
    → lookup q (populate_template applies multi_tenant only_in_main cluster a).objects
      ≡ lookup q a.objects
populate_template-object applies multi_tenant only_in_main cluster a q d =
    elim (populate_template-cases applies multi_tenant only_in_main cluster a) [
      | inl e ↦ rw e refl
      | inr (p, u, u', h, k, same, e) ↦ rw e (grind (arith, lookup-insert q p u' a.objects))
    ]
