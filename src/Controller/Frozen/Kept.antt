-- ===== src/Controller/Frozen/Kept.antt =====
-- Every reconcile of pkg/k8s/controllers/pipelinerun_controller.go keeps what the admission froze.
use datuplet.Prelude.{
  Bool-cases, List, Option, Option-cases, Result, Text, err, inl, inr, none, ok, refl, some, subst,
  sym, true, ℕ, ◌&&◌, ◌||◌, ◌∙◌, ◌≡◌,
}
use datuplet.Pipeline.{Finding, Pipeline, PipelineSpec, ResolvedComponent, StageSpec}
use datuplet.Controller.{
  Answers, ComponentStatus, Got, Job, Outcome, PipelineRunSpec, PipelineRunStatus, RunPhase,
  StagePhase, StageStatus, World, finished, found, get_failed, not_found,
}
use datuplet.Controller.Admission.{update_status}
use datuplet.Controller.Checks.{
  Tally, after_check, check_components, check_stage_components, start_tally,
}
use datuplet.Controller.Stages.{Starting, after_start, broken, start_stage, unbuilt}
use datuplet.Controller.Reconcile.{
  after_get, after_timeout, by_run_phase, by_stage_phase, current_stage_idx, fail_preview_timeout,
  handle_running, is_open, preview_deadline_passed, reconcile_run, run_stage, time_out_components,
  with_frozen,
}
use datuplet.Controller.Runs.{Reach, Step, drifted, here, next, reconciled, restarted}
use datuplet.Controller.Frozen.{
  SameComponents, SameComponents-trans, SameRun, SameRun-refl, SameRun-trans, is_admitted, is_over,
}
use datuplet.Controller.Frozen.Images.{SameLoop, check_components-Same}

module _ (a : Answers) (s0 : PipelineRunStatus) where
  update_status-Same :
      (w : World) (s : PipelineRunStatus) (o : Outcome)
      → SameRun s0 w.status
      → SameRun s0 s
      → SameRun s0 (update_status a w s o).0.status
  update_status-Same w s o before after = elim (Option-cases a.update_status) [
    | inl e ↦ rw e after
    | inr (f, e) ↦ rw e before
  ]

module _ (run : PipelineRunSpec) (a : Answers) (w : World) (s : PipelineRunStatus)
    (before : SameRun w.status w.status) (now : SameRun w.status s) where
  after_start-Same :
      (i : ℕ) (st : StageStatus) (p : Starting)
      → SameRun w.status (after_start run a s w i st p).0.status
  unfolding after_start
  after_start-Same i st p = elim (Option-cases p.stop) [
    | inl e ↦ rw (e, after_start) (update_status-Same a w.status _ _ _ before now)
    | inr (broken b, e) ↦ rw (e, after_start) before
    | inr (unbuilt n b, e) ↦ rw (e, after_start) (update_status-Same a w.status _ _ _ before now)
  ]

  after_check-Same :
      (i : ℕ) (st : StageStatus) (css : List ComponentStatus) (k : Tally)
      → SameComponents s.components k.resolved
      → SameRun w.status (after_check a w s i st css k).0.status
  unfolding after_check
  after_check-Same i st css k same =
      let later : SameComponents w.status.components k.resolved =
        SameComponents-trans w.status.components s.components k.resolved now.5 same in
      elim (Bool-cases (k.any_failed_user || k.any_failed_app)) [
        | inl e ↦
            rw (e, after_check)
              (update_status-Same a w.status _ _ _ before
                (now.0, now.1, now.2, now.3, now.4, later))
        | inr e ↦ elim (Bool-cases k.all_succeeded) [
          | inl e' ↦
              rw (e, e', after_check)
                (update_status-Same a w.status _ _ _ before
                  (now.0, now.1, now.2, now.3, now.4, later))
          | inr e' ↦
              rw (e, e', after_check)
                (update_status-Same a w.status _ _ finished before
                  (now.0, now.1, now.2, now.3, now.4, later))
        ]
      ]

  check_stage_components-Same :
      (i : ℕ) (g : StageSpec) (st : StageStatus)
      → SameRun w.status (check_stage_components a w s run i g st).0.status
  unfolding check_stage_components
  check_stage_components-Same i g st =
      let k0 = start_tally s.components in
      let r = check_components-Same run a g.name s.run_id g.components st.component_statuses k0 in
      elim (Option-cases
        (check_components run a g.name s.run_id g.components st.component_statuses k0)) [
          | inl e ↦ rw (e, check_stage_components) before
          | inr (err f, e) ↦ rw (e, check_stage_components) before
          | inr (ok (css, k), e) ↦
              rw (e, check_stage_components)
                (after_check-Same i st css k (subst (SameLoop run a g.name s.run_id k0) e r))
        ]

  fail_preview_timeout-Same :
      (timeout i : ℕ) (g : StageSpec) (st : StageStatus)
      → SameRun w.status (fail_preview_timeout run a w s timeout i g st).0.status
  unfolding fail_preview_timeout
  fail_preview_timeout-Same timeout i g st =
      after_timeout-Same _
        (time_out_components run a g.name s.run_id g.components w.jobs st.component_statuses)
    where
      after_timeout-Same :
          (m : Text) (r : List Job × Result Text (List ComponentStatus))
          → SameRun w.status (after_timeout run a w s i st m r).0.status
      after_timeout-Same m (jobs, err e) = before
      after_timeout-Same m (jobs, ok css) =
          update_status-Same a w.status _ _ _ before (refl, now.1, now.2, now.3, now.4, now.5)

  by_stage_phase-Same :
      (frozen : PipelineSpec) (i : ℕ) (g : StageSpec) (st : StageStatus) (p : StagePhase)
      → SameRun w.status (by_stage_phase run a w s frozen i g st p).0.status
  unfolding by_stage_phase start_stage
  by_stage_phase-Same frozen i g st StagePhase.pending = after_start-Same i st _
  by_stage_phase-Same frozen i g st StagePhase.running = check_stage_components-Same i g st
  by_stage_phase-Same frozen i g st StagePhase.committing = before
  by_stage_phase-Same frozen i g st StagePhase.succeeded = before
  by_stage_phase-Same frozen i g st StagePhase.failed_user =
      update_status-Same a w.status _ _ _ before (refl, now.1, now.2, now.3, now.4, now.5)
  by_stage_phase-Same frozen i g st StagePhase.failed_application =
      update_status-Same a w.status _ _ _ before (refl, now.1, now.2, now.3, now.4, now.5)

module _ (run : PipelineRunSpec) (a : Answers) (w : World) (s : PipelineRunStatus)
    (before : SameRun w.status w.status) (now : SameRun w.status s) where
  run_stage-Same :
      (frozen : PipelineSpec) (i : ℕ) (g : Option StageSpec) (st : Option StageStatus)
      → SameRun w.status (run_stage run a w s frozen i g st).0.status
  unfolding run_stage
  run_stage-Same frozen i none st = before
  run_stage-Same frozen i (some g) none = before
  run_stage-Same frozen i (some g) (some st) =
      let s' = record s { current_stage = g.name } in
      elim (Bool-cases
        (preview_deadline_passed run.preview s.start_time a.now && is_open st.phase)) [
          | inl e ↦ rw e (fail_preview_timeout-Same run a w s' before now _ i g st)
          | inr e ↦ rw e (by_stage_phase-Same run a w s' before now frozen i g st st.phase)
        ]

  with_frozen-Same : (o : Option PipelineSpec) → SameRun w.status (with_frozen run a w s o).0.status
  unfolding with_frozen
  with_frozen-Same none =
      update_status-Same a w.status _ _ _ before (refl, now.1, now.2, now.3, now.4, now.5)
  with_frozen-Same (some frozen) = elim (Option-cases (current_stage_idx 0 s.stage_statuses)) [
    | inl e ↦
        rw (e, with_frozen)
          (update_status-Same a w.status _ _ _ before (refl, now.1, now.2, now.3, now.4, now.5))
    | inr (i, e) ↦ rw (e, with_frozen) (run_stage-Same frozen i _ _)
  ]

module _ (refs : Pipeline → List Text) (validated : Pipeline → List Finding)
    (resolve : Text → Text → Option ResolvedComponent × List Finding) where
  by_run_phase-Same :
      (a : Answers) (run : PipelineRunSpec) (w : World) (s : PipelineRunStatus) (p : RunPhase)
      → is_admitted p ≡ true
      → SameRun w.status w.status
      → SameRun w.status s
      → SameRun w.status (by_run_phase refs validated resolve a run w s p).0.status
  unfolding by_run_phase handle_running
  by_run_phase-Same a run w s RunPhase.unset h before now = cc
  by_run_phase-Same a run w s RunPhase.pending h before now = cc
  by_run_phase-Same a run w s RunPhase.running h before now =
      with_frozen-Same run a w s before now s.resolved_spec
  by_run_phase-Same a run w s RunPhase.succeeded h before now = before
  by_run_phase-Same a run w s RunPhase.failed_user h before now = before
  by_run_phase-Same a run w s RunPhase.failed_application h before now = before
  by_run_phase-Same a run w s (RunPhase.unknown phase) h before now = cc

  after_get-Same :
      (a : Answers) (w : World) (g : Got PipelineRunSpec)
      → is_admitted w.status.phase ≡ true
      → SameRun w.status (after_get refs validated resolve a w g).0.status
  unfolding after_get
  after_get-Same a w not_found h = SameRun-refl w.status h
  after_get-Same a w (get_failed e) h = SameRun-refl w.status h
  after_get-Same a w (found run) h =
      let same = SameRun-refl w.status h in by_run_phase-Same a run _ _ w.status.phase h same same

  by_run_phase-over :
      (a : Answers) (run : PipelineRunSpec) (w : World) (s : PipelineRunStatus) (p : RunPhase)
      → is_over p ≡ true
      → (by_run_phase refs validated resolve a run w s p).0.status ≡ w.status
  unfolding by_run_phase
  by_run_phase-over a run w s RunPhase.unset h = cc
  by_run_phase-over a run w s RunPhase.pending h = cc
  by_run_phase-over a run w s RunPhase.running h = cc
  by_run_phase-over a run w s RunPhase.succeeded h = refl
  by_run_phase-over a run w s RunPhase.failed_user h = refl
  by_run_phase-over a run w s RunPhase.failed_application h = refl
  by_run_phase-over a run w s (RunPhase.unknown phase) h = cc

  after_get-over :
      (a : Answers) (w : World) (g : Got PipelineRunSpec)
      → is_over w.status.phase ≡ true
      → (after_get refs validated resolve a w g).0.status ≡ w.status
  unfolding after_get
  after_get-over a w not_found h = refl
  after_get-over a w (get_failed e) h = refl
  after_get-over a w (found run) h = by_run_phase-over a run _ _ w.status.phase h

module _ (refs : Pipeline → List Text) where
  Step-Same :
      {u v : World} → Step refs u v → is_admitted u.status.phase ≡ true → SameRun u.status v.status
  unfolding reconcile_run
  Step-Same (reconciled w validated resolve a) h = after_get-Same refs validated resolve a w a.run h
  Step-Same (drifted w jobs maps snapshots pods) h = SameRun-refl w.status h
  Step-Same (restarted w) h = SameRun-refl w.status h

  Step-over : {u v : World} → Step refs u v → is_over u.status.phase ≡ true → v.status ≡ u.status
  unfolding reconcile_run
  Step-over (reconciled w validated resolve a) h = after_get-over refs validated resolve a w a.run h
  Step-over (drifted w jobs maps snapshots pods) h = refl
  Step-over (restarted w) h = refl

  -- A run that is running keeps what its admission froze, whatever happens to it: its id, its resolved
  -- specification and generation, its start, and of each resolved component its name, component, version
  -- and image, and the image id once there is one. It stays running or ends.
  pub Reach-SameRun :
      {w v : World} → is_admitted w.status.phase ≡ true → Reach refs w v → SameRun w.status v.status
  Reach-SameRun {w} h here = SameRun-refl w.status h
  Reach-SameRun {w} h (next {u} {v} r step) =
      let same = Reach-SameRun h r in
      SameRun-trans w.status u.status v.status same (Step-Same step same.0)

  -- A run that has succeeded or failed keeps its status for good, whatever happens.
  pub Reach-over :
      {w v : World} → is_over w.status.phase ≡ true → Reach refs w v → v.status ≡ w.status
  Reach-over h here = refl
  Reach-over h (next r step) =
      let same = Reach-over h r in
      Step-over step (subst (λ s. is_over s.phase ≡ true) (sym same) h) ∙ same
