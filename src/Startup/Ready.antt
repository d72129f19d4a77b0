-- ===== src/Startup/Ready.antt =====
-- What the agent has once it has started.
use scale_cluster_agent.Types.{Config, ClusterInfo}
use scale_cluster_agent.Agent.{Agent, template, info, store}
use scale_cluster_agent.Agent.Separate.{IsSeparate, store-IsSeparate, info-store, info-store_self}
use scale_cluster_agent.Kwok.Main.{MainError}
use scale_cluster_agent.Kwok.Manager.{Manager}
use scale_cluster_agent.Proxy.{Proxies, World}
use scale_cluster_agent.Proxy.Invariant.{IsOwned, start_proxy_for_cluster-IsOwned}
use scale_cluster_agent.Proxy.Steps.{here, Reach-IsOwned}
use scale_cluster_agent.Startup.{
  has_null, loaded_entries, with_main, without_null, new_agent, load_clusters, loaded_clusters,
  chosen_template, new_proxies, restart_proxies, infos, StartAnswers, start_manager, start_agent,
  start_proxies, start_up,
}
use scale_cluster_agent.Prelude.Dict.{Dict, lookup, lookup-nil, lookup-cons}
use scale_cluster_agent.Prelude.{
  Option, none, false, Bool, ℕ, ◌≡◌, ◌≢◌, inl, inr, refl, sym, ap, ◌∙◌, true, List, [], ◌∷◌, some,
  Text, text_eq, nat_eq, ltb, ◌==◌, Bool-cases, Option-cases, if_both, arith,
}

new_agent-IsSeparate : (m : Manager) → IsSeparate (new_agent m)
new_agent-IsSeparate m = (
  λ n p h. absurd (ground (arith, lookup-nil {V = ℕ} n)),
  λ i j p h k. absurd (ground (arith, lookup-nil {V = ℕ} i)),
)

load_clusters-IsSeparate :
    (d : Dict Text ClusterInfo) (a : Agent) → IsSeparate a → IsSeparate (load_clusters d a)
load_clusters-IsSeparate [] a s = s
load_clusters-IsSeparate ((name, c) ∷ d) a s =
    store-IsSeparate name c (load_clusters d a) (load_clusters-IsSeparate d a s)

info-load_clusters :
    (d : Dict Text ClusterInfo) (m : Manager) (n : Text)
    → info (load_clusters d (new_agent m)) n ≡ lookup n d
info-load_clusters [] m n = rw (info, lookup-nil {V = ℕ} n) (sym (lookup-nil {V = ClusterInfo} n))
info-load_clusters ((name, c) ∷ d) m n =
    let a = load_clusters d (new_agent m) in
    let s = load_clusters-IsSeparate d (new_agent m) (new_agent-IsSeparate m) in
    elim (Bool-cases (name == n)) [
      | inl e ↦
          let same : name ≡ n = ground arith in
          ap (info (store name c a)) (sym same)
          ∙ (info-store_self name c a ∙ sym (lookup-cons n name c d ∙ rw e refl))
      | inr e ↦
          info-store name n c a s (ground arith)
          ∙ (info-load_clusters d m n ∙ sym (lookup-cons n name c d ∙ rw e refl))
    ]

restart_proxies-IsOwned :
    (worlds : Text → World) (cs : List ClusterInfo) (p : Proxies)
    → IsOwned p
    → IsOwned (restart_proxies worlds cs p)
unfolding restart_proxies
restart_proxies-IsOwned worlds [] p v = v
restart_proxies-IsOwned worlds (ci ∷ cs) p v =
    let id = ci.cluster_id in
    elim (Bool-cases (id == [])) [
      | inl e ↦ rw (restart_proxies, e) (restart_proxies-IsOwned worlds cs p v)
      | inr e ↦ elim (Option-cases (lookup id p.ports)) [
        | inl f ↦ rw (restart_proxies, e, f) (restart_proxies-IsOwned worlds cs p v)
        | inr (port, f) ↦ elim (Bool-cases (ltb 0 port)) [
          | inr g ↦ rw (restart_proxies, e, f, g) (restart_proxies-IsOwned worlds cs p v)
          | inl g ↦
              rw (restart_proxies, e, f, g)
                (restart_proxies-IsOwned worlds cs _
                  (start_proxy_for_cluster-IsOwned (worlds id) true id port p v))
        ]
      ]
    ]

start_proxies-IsOwned :
    (config : Config) (w : StartAnswers) (a : Agent) → IsOwned (start_proxies config w a)
unfolding start_proxies
start_proxies-IsOwned config w a =
    let p = new_proxies config w.loaded in
    let v = Reach-IsOwned p p refl here in
    if_both IsOwned config.multi_tenant
      (restart_proxies-IsOwned w.worlds (infos a.objects a.clusters) p v) v

with_main-some :
    (b : Bool) (e : Option MainError) (started : Option (Agent × Proxies)) (z : Agent × Proxies)
    → with_main b e started ≡ some z
    → started ≡ some z
unfolding with_main
with_main-some false e started z h = h
with_main-some true none started z h = h
with_main-some true (some e) started z h = cc h

without_null-some :
    (b : Bool) (a a' : Agent) (p p' : Proxies)
    → without_null b (a, p) ≡ some (a', p')
    → (b ≡ false) × (a ≡ a') × (p ≡ p')
unfolding without_null
without_null-some false a a' p p' h = (refl, cc h, cc h)
without_null-some true a a' p p' h = cc h

start_up-some :
    (config : Config) (w : StartAnswers) (a : Agent) (p : Proxies)
    → start_up config w ≡ some (a, p)
    → (has_null (loaded_entries w.loaded) ≡ false)
      × (start_agent config w ≡ a)
      × (start_proxies config w (start_agent config w) ≡ p)
unfolding start_up
start_up-some config w a p h =
    without_null-some (has_null (loaded_entries w.loaded)) (start_agent config w) a
      (start_proxies config w (start_agent config w)) p
      (with_main-some config.multi_tenant _ _ (a, p) h)

lookup-has_null :
    (d : Dict Text (Option ClusterInfo)) (n : Text)
    → has_null d ≡ false
    → n ≢ template
    → lookup n d ≢ some none
unfolding has_null lookup
lookup-has_null [] n h ne e = cc e
lookup-has_null ((name, none) ∷ d) n h ne e = elim (Bool-cases (name == n)) [
  | inl f ↦ ground (arith, f, h, ne)
  | inr f ↦ lookup-has_null d n (ground (arith, h)) ne (ground (arith, f, e))
]
lookup-has_null ((name, some ci) ∷ d) n h ne e = elim (Bool-cases (name == n)) [
  | inl f ↦ ground (arith, f, e)
  | inr f ↦ lookup-has_null d n h ne (ground (arith, f, e))
]

-- Where the agent starts, whatever it meets: its clusters have objects of their own; the template is
-- there, as it was read or the default one; every other name has exactly the record that was loaded
-- from the state file, where no other name has a null; and the servers of the restarted proxies have recorded and reserved ports of
-- their own.
pub start_up-Ready :
    (config : Config) (w : StartAnswers) (a : Agent) (p : Proxies)
    → start_up config w ≡ some (a, p)
    → IsSeparate a
      × (info a template ≡ some (chosen_template w.cluster_yaml))
      × ((n : Text) → n ≢ template → info a n ≡ lookup n (loaded_clusters w.loaded))
      × ((n : Text) → n ≢ template → lookup n (loaded_entries w.loaded) ≢ some none)
      × IsOwned p
unfolding start_agent
start_up-Ready config w a p h =
    let (no_null, same, same') = start_up-some config w a p h in
    let m = start_manager config w in
    let d = loaded_clusters w.loaded in
    let b = load_clusters d (new_agent m) in
    let s = load_clusters-IsSeparate d (new_agent m) (new_agent-IsSeparate m) in
    let t = chosen_template w.cluster_yaml in
    let owned : IsOwned p =
      rw (sym same') (start_proxies-IsOwned config w (start_agent config w)) in
    rw (sym same) (
      store-IsSeparate template t b s,
      info-store_self template t b,
      λ n ne. info-store template n t b s ne ∙ info-load_clusters d m n,
      λ n ne. lookup-has_null (loaded_entries w.loaded) n no_null ne,
      owned,
    )
