-- ===== src/Agent/Setup/Progress.antt =====
-- A setup that was cut off comes to its end after a restart.
use scale_cluster_agent.Types.{ClusterInfo}
use scale_cluster_agent.Agent.{Agent, template}
use scale_cluster_agent.Agent.Setup.{
  Calls, run_complete_cluster_setup, status_after, run_setup, Resumed, reconnect, set_up_again,
  resume,
}
use scale_cluster_agent.Agent.Setup.Outcome.{succeeds, run_complete_cluster_setup-EndsWell}
use scale_cluster_agent.Agent.Setup.Resume.{
  final, status_after-cut, resume-unfinished, resume-final,
}
use scale_cluster_agent.Agent.Setup.Final.{run_setup-final}
use scale_cluster_agent.Population.Calls.{Manifest}
use scale_cluster_agent.Prelude.Dict.{lookup}
use scale_cluster_agent.Prelude.{
  ℕ, ◌≡◌, ◌≢◌, inl, inr, refl, ap, ◌∙◌, Bool, true, List, [], ◌∷◌, some, Text, text_eq, nat_eq,
  codes, take,
}

-- What becomes of the agent when the goroutines that main starts at a restart run to their ends, as
-- far as they concern the clusters: a setup makes the calls that `w` says.
abbrev pub carry_out : (Manifest → Bool) → Text → ℕ → Calls → Bool → List Resumed → Agent → Agent
carry_out applies cluster p w saves [] a = a
carry_out applies cluster p w saves (reconnect ∷ rs) a = carry_out applies cluster p w saves rs a
carry_out applies cluster p w saves (set_up_again ∷ rs) a =
    carry_out applies cluster p w saves rs
      (run_setup applies cluster p (run_complete_cluster_setup w) saves a)

-- A cluster with an ID, other than the template, whose setup met no failure and was cut off after any
-- of its calls: if every call that counts succeeds after the restart, then what the restart starts
-- brings the cluster to "ready", and changes nothing else of its object.
pub restart-ready :
    (applies : Manifest → Bool) (cluster name : Text) (w w' : Calls) (p : ℕ) (saves : Bool)
    (a : Agent) (ci : ClusterInfo) (n : ℕ)
    → name ≢ template
    → ci.cluster_id ≢ []
    → succeeds w ≡ true
    → ci.status ≡ status_after [] (take n (run_complete_cluster_setup w))
    → succeeds w' ≡ true
    → lookup template a.clusters ≢ some p
    → lookup p a.objects ≡ some ci
    → lookup p (carry_out applies cluster p w' saves (resume name ci) a).objects
      ≡ some (record ci { status = codes "ready" })
unfolding text_eq
restart-ready applies cluster name w w' p saves a ci n t i good s good' d h =
    let (xs, hs, e) = run_complete_cluster_setup-EndsWell w in
    let cut = status_after-cut [] xs (succeeds w) n (refl, refl) hs in
    elim cut [
      | inl u ↦
          let again = resume-unfinished name ci t i (rw (s, e) u) in
          rw again (
            run_setup-final applies cluster w' p saves a ci d h
            ∙ ap (λ b. some (record ci { status = final b })) good')
      | inr f ↦
          let done : ci.status ≡ codes "ready" = rw (s, e) (f ∙ ap final good) in
          elim (resume-final name ci true t i done) [
            | inl again ↦ rw again (
                run_setup-final applies cluster w' p saves a ci d h
                ∙ ap (λ b. some (record ci { status = final b })) good')
            | inr (inl (again, same)) ↦
                rw again (h ∙ ap (λ (x : Text). some (record ci { status = x })) done)
            | inr (inr (again, differ)) ↦ absurd (cc differ)
          ]
    ]
