-- ===== src/Agent/Watcher.antt =====
-- reconcileRancherDeletions: which clusters are cleaned up.
use scale_cluster_agent.Agent.{
  Agent, template, info, is_gone, to_delete, clean_up, clean_up_all, reconcile_rancher_deletions,
}
use scale_cluster_agent.Agent.Separate.{
  IsSeparate, info-save, info-without, save-IsSeparate, without-IsSeparate,
}
use scale_cluster_agent.Prelude.Dict.{Dict, lookup, NodupKeys, lookup-cons, lookup-nil}
use scale_cluster_agent.Prelude.{
  ℕ, ◌≡◌, refl, ◌∙◌, Bool, false, List, [], ◌∷◌, Option, none, some, Text, text_eq, nat_eq, ◌==◌,
  ◌||◌, contains, if◌then◌else◌, arith,
}

pub info-clean_up :
    (saves : Bool) (name n : Text) (a : Agent)
    → info (clean_up saves name a).0 n ≡ (if name == n then none else info a n)
unfolding clean_up
info-clean_up saves name n a = info-save saves _ n ∙ info-without name n a

pub info-clean_up_all :
    (saves : Bool) (ns : List Text) (n : Text) (a : Agent)
    → info (clean_up_all saves ns a).0 n ≡ (if contains ns n then none else info a n)
unfolding clean_up_all
info-clean_up_all saves [] n a = refl
info-clean_up_all saves (name ∷ ns) n a =
    let e = info-clean_up saves name n a in
    let ih = info-clean_up_all saves ns n (clean_up saves name a).0 in ih ∙ rw e (ground arith)

pub clean_up-IsSeparate :
    (saves : Bool) (name : Text) (a : Agent) → IsSeparate a → IsSeparate (clean_up saves name a).0
unfolding clean_up
clean_up-IsSeparate saves name a s = save-IsSeparate saves _ (without-IsSeparate name a s)

pub clean_up_all-IsSeparate :
    (saves : Bool) (ns : List Text) (a : Agent)
    → IsSeparate a
    → IsSeparate (clean_up_all saves ns a).0
unfolding clean_up_all
clean_up_all-IsSeparate saves [] a s = s
clean_up_all-IsSeparate saves (name ∷ ns) a s =
    clean_up_all-IsSeparate saves ns (clean_up saves name a).0 (clean_up-IsSeparate saves name a s)

-- A name is on the list of deletions by what its own entry says.
pub contains-to_delete :
    (existing : List Text) (a : Agent) (d : Dict Text ℕ) (n : Text)
    → NodupKeys d
    → contains (to_delete existing a d) n
      ≡ elim (lookup n d) [ none ↦ false | some p ↦ is_gone existing a (n, p) ]
unfolding to_delete
contains-to_delete existing a [] n h = ground (arith, lookup-nil {V = ℕ} n)
contains-to_delete existing a ((m, p) ∷ d) n h =
    ground (arith, lookup-cons n m p d, contains-to_delete existing a d n h.1)

-- What a name has after a round.
pub reconcile_rancher_deletions-info :
    (answer : Option (List Text)) (saves : Bool) (a : Agent) (n : Text)
    → NodupKeys a.clusters
    → info (reconcile_rancher_deletions answer saves a).0 n ≡ elim (info a n) [
      | none ↦ none
      | some ci ↦ elim answer [
        | none ↦ some ci
        | some existing ↦
            if (n == template || ci.cluster_id == []) || contains existing ci.cluster_id
            then some ci
            else none
      ]
    ]
unfolding reconcile_rancher_deletions is_gone
reconcile_rancher_deletions-info none saves a n h = ground arith
reconcile_rancher_deletions-info (some existing) saves a n h =
    let c = contains-to_delete existing a a.clusters n h in
    info-clean_up_all saves (to_delete existing a a.clusters) n a ∙ rw c (ground arith)
