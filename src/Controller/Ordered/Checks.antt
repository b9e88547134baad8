-- ===== src/Controller/Ordered/Checks.antt =====
-- checkStageComponents of pkg/k8s/controllers/pipelinerun_controller.go: the statuses stay in step with
-- the components.
use datuplet.Prelude.{
  Bool, Bool-cases, List, Option, Option-cases, Result, Text, [], arith, bytes, err, false,
  if◌then◌else◌, inl, inr, none, ok, refl, set, some, subst, sym, true, ℕ, ◌++◌, ◌||◌, ◌∙◌, ◌∷◌,
  ◌≡◌,
}
use datuplet.Pipeline.{ComponentSpec, PipelineSpec, StageSpec, pos, ℤ}
use datuplet.Controller.{
  Answers, ComponentPhase, ComponentStatus, ConditionType, Got-cases, JobCondition, JobView,
  PipelineRunSpec, PipelineRunStatus, RunPhase, StagePhase, StageStatus, World, finished,
  job_complete, job_failed, other_condition,
}
use datuplet.Controller.Checks.{
  Tally, after_check, apply_condition, apply_conditions, check_component, check_components,
  check_live, check_stage_components, classify_exit_code, failed_status, failed_with, failure_phase,
  is_user_failure, job_failure, job_success, or_else, record_component_image_id, start_tally,
}
use datuplet.Controller.Splits.{check_components-split}
use datuplet.Controller.Jobs.{component_job_name}
use datuplet.Controller.Ordered.{
  InOrder, Matches, Orderly, Safe, StageOk, Succeeded, running-Ordered, update_status-Safe,
}

-- nothing has failed and nothing is still running
abbrev Clear : Tally → Type 0
Clear k = (k.all_succeeded ≡ true) × (k.any_failed_user ≡ false) × (k.any_failed_app ≡ false)

-- what a check of one component keeps
abbrev Checked : ComponentStatus × Tally → ComponentStatus × Tally → Type 0
Checked (cs, k) (cs', k') =
    (cs'.name ≡ cs.name)
    × ((cs.phase ≡ ComponentPhase.succeeded → cs.exit_code ≡ some (pos 0))
        → cs'.phase ≡ ComponentPhase.succeeded
        → cs'.exit_code ≡ some (pos 0))
    × (Clear k' → Clear k)

Checked-trans : (x y z : ComponentStatus × Tally) → Checked x y → Checked y z → Checked x z
Checked-trans x y z p q = (q.0 ∙ p.0, λ h. q.1 (p.1 h), λ h. p.2 (q.2 h))

module _ (a : Answers) (job_name : Text) (view : JobView) where
  job_failed_as :
      (is_user : Bool) (code : ℤ) (message : Text) (cs : ComponentStatus) (k : Tally)
      → Checked
          (cs, k)
          (failed_with is_user
            (failed_status a
              (some code)
              (failure_phase is_user)
              (or_else (a.log_message job_name code) message)
              cs)
            k)
  job_failed_as true code message cs k = (refl, λ h q. cc, λ h. ground (arith, h))
  job_failed_as false code message cs k = (refl, λ h q. cc, λ h. ground (arith, h))

  job_failure-Checked :
      (message : Text) (cs : ComponentStatus) (k : Tally)
      → Checked (cs, k) (job_failure a job_name view message cs k)
  unfolding job_failure
  job_failure-Checked message cs k = elim (Option-cases view.exit_code) [
    | inl e ↦ rw (e, job_failure) (refl, λ h q. cc, λ h. ground (arith, h))
    | inr (code, e) ↦
        rw (e, job_failure)
          (job_failed_as (is_user_failure (classify_exit_code code)) code message cs k)
  ]

  apply_condition-Checked :
      (t : ConditionType) (holds : Bool) (message : Text) (r : ComponentStatus × Tally)
      → Checked r (apply_condition a job_name view t holds message r)
  unfolding apply_condition job_success
  apply_condition-Checked job_complete true message (cs, k) = (refl, λ h e. refl, λ h. h)
  apply_condition-Checked job_failed true message (cs, k) = job_failure-Checked message cs k
  apply_condition-Checked job_complete false message (cs, k) = (refl, λ h. h, λ h. h)
  apply_condition-Checked job_failed false message (cs, k) = (refl, λ h. h, λ h. h)
  apply_condition-Checked other_condition b message (cs, k) = (refl, λ h. h, λ h. h)

  apply_conditions-Checked :
      (conditions : List JobCondition) (r : ComponentStatus × Tally)
      → Checked r (apply_conditions a job_name view conditions r)
  unfolding apply_conditions
  apply_conditions-Checked [] r = (refl, λ h. h, λ h. h)
  apply_conditions-Checked (c ∷ cs) r =
      let r' = apply_condition a job_name view c.condition_type c.is_true c.message r in
      Checked-trans r r' (apply_conditions a job_name view cs r')
        (apply_condition-Checked c.condition_type c.is_true c.message r)
        (apply_conditions-Checked cs r')

not_clear : false ≡ true → ⊥
not_clear h = cc

module _ (run : PipelineRunSpec) (a : Answers) (stage_name run_id : Text) where
  -- a check of one component that returns; it is clear only where the component had succeeded
  abbrev Kept : ComponentStatus → Tally → Result Text (ComponentStatus × Tally) → Type 0
  Kept cs k (err e) = Unit
  Kept cs k (ok (cs', k')) =
      Checked (cs, k) (cs', k') × (Clear k' → cs'.phase ≡ ComponentPhase.succeeded)

  check_live-Kept :
      (cs : ComponentStatus) (k : Tally) → Kept cs k (check_live run a stage_name run_id cs k)
  unfolding check_live
  check_live-Kept cs k =
      let job_name = component_job_name run.name stage_name cs.name run_id in
      elim (Got-cases (a.job job_name)) [
        | inl absent ↦ rw (absent, check_live) ((refl, λ h. h, λ h. cc), λ h. cc)
        | inr (inl (e, failure)) ↦ rw (failure, check_live) tt
        | inr (inr (view, seen)) ↦
            let r : ComponentStatus × Tally = (
              cs,
              record k {
                all_succeeded = false;
                resolved = record_component_image_id cs.name view.image_id k.resolved;
              },
            ) in
            let c = apply_conditions-Checked a job_name view view.conditions r in
            rw (seen, check_live)
              ((c.0, c.1, λ h. absurd (not_clear (c.2 h).0)), λ h. absurd (not_clear (c.2 h).0))
      ]

  check_component-Kept :
      (p : ComponentPhase) (cs : ComponentStatus) (k : Tally)
      → cs.phase ≡ p
      → Kept cs k (check_component run a stage_name run_id p cs k)
  unfolding check_component
  check_component-Kept ComponentPhase.pending cs k e = check_live-Kept cs k
  check_component-Kept ComponentPhase.running cs k e = check_live-Kept cs k
  check_component-Kept ComponentPhase.succeeded cs k e = ((refl, λ h. h, λ h. h), λ h. e)
  check_component-Kept ComponentPhase.failed_user cs k e =
      ((refl, λ h. h, λ h. ground (arith, h)), λ h. ground (arith, h))
  check_component-Kept ComponentPhase.failed_application cs k e =
      ((refl, λ h. h, λ h. ground (arith, h)), λ h. ground (arith, h))

  -- what the loop returns: a status for each component, all successes where it is clear
  abbrev AllKept :
      List ComponentSpec → Tally → Option (Result Text (List ComponentStatus × Tally)) → Type 0
  AllKept comps k none = ⊥
  AllKept comps k (some (err e)) = Unit
  AllKept comps k (some (ok (css, k'))) =
      Matches comps css × (Clear k' → Succeeded comps css × Clear k)

  check_components-AllKept :
      (comps : List ComponentSpec) (css : List ComponentStatus) (k : Tally)
      → Matches comps css
      → AllKept comps k (check_components run a stage_name run_id comps css k)
  unfolding check_components
  check_components-AllKept [] [] k h = (tt, λ c. (tt, c))
  check_components-AllKept [] (cs ∷ css) k h = absurd h
  check_components-AllKept (comp ∷ comps) [] k h = absurd h
  check_components-AllKept (comp ∷ comps) (cs ∷ css) k h =
      check_components-split run a stage_name run_id (AllKept (comp ∷ comps) k) comp comps cs css k
        (λ e. tt)
        (λ cs' k' checked out.
          subst (AllKept comps k') out (check_components-AllKept comps css k' h.2))
        (λ cs' k' css' k'' checked rest.
          let kept : Kept cs k (ok (cs', k')) =
            subst (Kept cs k) checked (check_component-Kept cs.phase cs k refl) in
          let ih : AllKept comps k' (some (ok (css', k''))) =
            subst (AllKept comps k') rest (check_components-AllKept comps css k' h.2) in
          (
            (kept.0.0 ∙ h.0, kept.0.1 h.1, ih.0),
            λ c.
                let d = ih.1 c in
                let done = kept.1 d.1 in
                ((kept.0.0 ∙ h.0, done, kept.0.1 h.1 done, d.0), kept.0.2 d.1),
          ))

module _ (a : Answers) (w : World) (s : PipelineRunStatus) (frozen : PipelineSpec) (i : ℕ)
    (g : StageSpec) (st : StageStatus) (before : Orderly w.status)
    (is_running : s.phase ≡ RunPhase.running) (is_frozen : s.resolved_spec ≡ some frozen)
    (write : (st' : StageStatus)
      → StageOk g st' st'.phase
      → InOrder frozen.stages (set s.stage_statuses i st')) where
  failed-StageOk :
      (is_user : Bool) (st' : StageStatus)
      → StageOk g st' (if is_user then StagePhase.failed_user else StagePhase.failed_application)
  failed-StageOk true st' = tt
  failed-StageOk false st' = tt

  after_check-Safe :
      (css : List ComponentStatus) (k : Tally)
      → st.phase ≡ StagePhase.running
      → Matches g.components css
      → (Clear k → Succeeded g.components css)
      → Safe (after_check a w s i st css k)
  unfolding after_check
  after_check-Safe css k open_ m done = elim (Bool-cases (k.any_failed_user || k.any_failed_app)) [
    | inl failure ↦
        rw (failure, after_check)
          (update_status-Safe a _ _ _ before
            (running-Ordered _ _ _ frozen is_running is_frozen (
              write _ (
                failed-StageOk k.any_failed_user (record st {
                  component_statuses = css;
                  phase =
                      if k.any_failed_user
                      then StagePhase.failed_user
                      else StagePhase.failed_application;
                  message =
                      bytes "Component '"
                      ++ (k.failed_component ++ (bytes "' failed: " ++ k.failed_message));
                  completion_time = some a.now;
                }))))
            (λ q. cc))
    | inr fine ↦ elim (Bool-cases k.all_succeeded) [
      | inl all_done ↦
          rw (fine, all_done, after_check)
            (update_status-Safe a _ _ _ before
              (running-Ordered _ _ _ frozen is_running is_frozen
                (write _ (done (all_done, ground (arith, fine), ground (arith, fine)))))
              (λ q. cc))
      | inr busy ↦
          rw (fine, busy, after_check)
            (
              (update_status-Safe a _ _ finished before
                  (running-Ordered _ _ _ frozen is_running is_frozen (
                    write _
                      (subst (StageOk g (record st { component_statuses = css })) (sym open_) m)))
                  (λ q. cc)).0,
              λ q. cc,
            )
    ]
  ]

  pub check_stage_components-Safe :
      (run : PipelineRunSpec)
      → st.phase ≡ StagePhase.running
      → Matches g.components st.component_statuses
      → Safe (check_stage_components a w s run i g st)
  unfolding check_stage_components
  check_stage_components-Safe run open_ m =
      let r =
        check_components-AllKept run a g.name s.run_id g.components st.component_statuses
          (start_tally s.components) m in
      elim (Option-cases (
        check_components run a g.name s.run_id g.components st.component_statuses
          (start_tally s.components))) [
            | inl out ↦ absurd (
                subst (AllKept run a g.name s.run_id g.components (start_tally s.components)) out r)
            | inr (err e, failure) ↦ rw (failure, check_stage_components) (before, λ q. cc)
            | inr (ok (css, k), checked) ↦
                let r' : AllKept run a g.name s.run_id g.components (start_tally s.components)
                    (some (ok (css, k))) =
                  subst (AllKept run a g.name s.run_id g.components (start_tally s.components))
                    checked r in
                rw (checked, check_stage_components)
                  (after_check-Safe css k open_ r'.0 (λ c. (r'.1 c).0))
          ]
