-- ===== src/Agent/Runs.antt =====
-- Runs of the agent: handlers, setups and the watcher in any order.
use scale_cluster_agent.Types.{ClusterInfo}
use scale_cluster_agent.Agent.{
  Agent, template, info, store, create_between, delete_between, create_cluster_handler,
  delete_cluster_handler, set_status, is_gone, to_delete, reconcile_rancher_deletions,
}
use scale_cluster_agent.Agent.Separate.{
  IsSeparate, info-save, save-IsSeparate, info-store, store-IsSeparate, without, info-without,
  without-IsSeparate, set_status-IsSeparate, info-set_status,
}
use scale_cluster_agent.Agent.Handlers.{create_between-cases, delete_between-cases}
use scale_cluster_agent.Agent.Template.{populate_template, populate_template-kept}
use scale_cluster_agent.Population.Calls.{Manifest}
use scale_cluster_agent.Agent.Watcher.{info-clean_up_all, clean_up_all-IsSeparate}
use scale_cluster_agent.Prelude.Dict.{Dict, lookup}
use scale_cluster_agent.Prelude.{
  ℕ, ◌≡◌, ◌≢◌, refl, ◌∙◌, Bool, true, false, inl, inr, List, [], ◌∷◌, Option, none, some, Text,
  text_eq, nat_eq, contains, arith, Bool-cases, Option-cases,
}

-- A step of the agent. The setup of a cluster writes to an object that is not the template's, since
-- the program starts it for a new object, or for one that is found under another name.
pub data Step (copy : ClusterInfo → ClusterInfo) : Agent → Agent → Type 0 where
  create_step :
      (body registered : Option Text) (saves : Bool) (a : Agent)
      → Step copy a (create_cluster_handler copy body registered saves a).0
  delete_step :
      (name : Text) (answer saves : Bool) (a : Agent)
      → Step copy a (delete_cluster_handler name answer saves a).0
  status_step :
      (p : ℕ) (status : Text) (saves : Bool) (a : Agent)
      → lookup template a.clusters ≢ some p
      → Step copy a (set_status p status saves a)
  watch_step :
      (answer : Option (List Text)) (saves : Bool) (a : Agent)
      → Step copy a (reconcile_rancher_deletions answer saves a).0
  populate_step :
      (applies : Manifest → Bool) (multi_tenant only_in_main : Bool) (cluster : Text) (a : Agent)
      → Step copy a (populate_template applies multi_tenant only_in_main cluster a)

-- Requests may overlap with any other steps: one that calls Rancher looks at an agent that can be
-- reached, and writes to another that can be reached, which need not follow from the first by whole
-- steps.
pub data Reach (copy : ClusterInfo → ClusterInfo) (a : Agent) : Agent → Type 0 where
  here : Reach copy a a
  next : {b c : Agent} → Reach copy a b → Step copy b c → Reach copy a c
  created_late :
      {b c : Agent} (body registered : Option Text) (saves : Bool)
      → Reach copy a b
      → Reach copy a c
      → Reach copy a (create_between copy body registered saves b c).0
  deleted_late :
      {b c : Agent} (name : Text) (answer saves : Bool)
      → Reach copy a b
      → Reach copy a c
      → Reach copy a (delete_between name answer saves b c).0

-- Each name has an object of its own, and the template is this one.
abbrev Keeps : ClusterInfo → Agent → Type 0
Keeps t a = IsSeparate a × (info a template ≡ some t)

-- The template is never gone.
is_gone-template :
    (existing : List Text) (a : Agent) (n : Text) (p : ℕ)
    → is_gone existing a (n, p) ≡ true
    → n ≢ template
unfolding is_gone
is_gone-template existing a n p h = elim (Option-cases (lookup p a.objects)) [
  | inl e ↦ absurd (cc (rw (is_gone, e) at h))
  | inr (ci, e) ↦ let h' = rw (is_gone, e) at h in ground arith
]

pub to_delete-template :
    (existing : List Text) (a : Agent) (d : Dict Text ℕ)
    → contains (to_delete existing a d) template ≡ false
unfolding to_delete
to_delete-template existing a [] = refl
to_delete-template existing a ((n, p) ∷ d) =
    let ih = to_delete-template existing a d in
    elim (Bool-cases (is_gone existing a (n, p))) [
      | inl e ↦ let k = is_gone-template existing a n p e in rw e (ground arith)
      | inr e ↦ rw e ih
    ]

no_template :
    (a : Agent) (name : Text) (t : ClusterInfo)
    → lookup name a.clusters ≡ none
    → info a template ≡ some t
    → template ≢ name
no_template a name t free k same =
    let free' : lookup template a.clusters ≡ none = rw same free in ground arith

create-Keeps :
    (copy : ClusterInfo → ClusterInfo) (t : ClusterInfo) (body registered : Option Text)
    (saves : Bool) (a after : Agent)
    → Keeps t a
    → Keeps t after
    → Keeps t (create_between copy body registered saves a after).0
create-Keeps copy t body registered saves a after (s, k) (s', k') =
    elim (create_between-cases copy body registered saves a after) [
      | inl e ↦ rw e (s', k')
      | inr (name, c, free, named, e) ↦ rw e (
        save-IsSeparate saves (store name c after) (store-IsSeparate name c after s'),
        info-save saves (store name c after) template
            ∙ (info-store name template c after s' (λ same. no_template a name t free k same) ∙ k'),
      )
    ]

delete-Keeps :
    (t : ClusterInfo) (name : Text) (answer saves : Bool) (a after : Agent)
    → Keeps t after
    → Keeps t (delete_between name answer saves a after).0
delete-Keeps t name answer saves a after (s, k) =
    elim (delete_between-cases name answer saves a after) [
      | inl e ↦ rw e (s, k)
      | inr (d, e) ↦ rw e (
        save-IsSeparate saves (without name after) (without-IsSeparate name after s),
        info-save saves (without name after) template
            ∙ (info-without name template after ∙ ground arith),
      )
    ]

watch-Keeps :
    (t : ClusterInfo) (answer : Option (List Text)) (saves : Bool) (a : Agent)
    → Keeps t a
    → Keeps t (reconcile_rancher_deletions answer saves a).0
unfolding reconcile_rancher_deletions
watch-Keeps t none saves a k = k
watch-Keeps t (some existing) saves a (s, k) =
    let ns = to_delete existing a a.clusters in
    let e = to_delete-template existing a a.clusters in
    (clean_up_all-IsSeparate saves ns a s, info-clean_up_all saves ns template a ∙ rw e k)

Step-Keeps :
    (copy : ClusterInfo → ClusterInfo) (t : ClusterInfo) (a b : Agent)
    → t.nodes ≢ []
    → Step copy a b
    → Keeps t a
    → Keeps t b
unfolding create_cluster_handler delete_cluster_handler
Step-Keeps copy t _ _ ne (create_step body registered saves a) k =
    create-Keeps copy t body registered saves a a k k
Step-Keeps copy t _ _ ne (delete_step name answer saves a) k =
    delete-Keeps t name answer saves a a k
Step-Keeps copy t _ _ ne (status_step p status saves a d) (s, k) =
    (set_status-IsSeparate p status saves a s, info-set_status p status saves a template d ∙ k)
Step-Keeps copy t _ _ ne (watch_step answer saves a) k = watch-Keeps t answer saves a k
Step-Keeps copy t _ _ ne (populate_step applies multi_tenant only_in_main cluster a) (s, k) =
    populate_template-kept applies multi_tenant only_in_main cluster a t s k ne

-- From an agent whose clusters have objects of their own and which has a template with nodes: in
-- whatever order requests, setups of other objects, populations of tenants and rounds of the watcher
-- follow, requests overlapping with any of these, the clusters still have objects of their own, and the template is there with the same
-- contents.
pub Reach-template :
    (copy : ClusterInfo → ClusterInfo) (t : ClusterInfo) (a b : Agent)
    → IsSeparate a
    → info a template ≡ some t
    → t.nodes ≢ []
    → Reach copy a b
    → IsSeparate b × (info b template ≡ some t)
Reach-template copy t a _ s k ne here = (s, k)
Reach-template copy t a _ s k ne (next r step) =
    Step-Keeps copy t _ _ ne step (Reach-template copy t a _ s k ne r)
Reach-template copy t a _ s k ne (created_late {b} {c} body registered saves r r') =
    create-Keeps copy t body registered saves b c (Reach-template copy t a _ s k ne r)
      (Reach-template copy t a _ s k ne r')
Reach-template copy t a _ s k ne (deleted_late {b} {c} name answer saves r r') =
    delete-Keeps t name answer saves b c (Reach-template copy t a _ s k ne r')
