-- ===== src/Controller/Ordered/Kept.antt =====
-- Every reconcile of pkg/k8s/controllers/pipelinerun_controller.go keeps the stages in order.
use datuplet.Prelude.{
  Bool-cases, List, Option, Option-cases, Result, Text, arith, err, false, get_elem?, inl, inr,
  none, ok, refl, set, some, subst, sym, ℕ, ◌&&◌, ◌≡◌, ◌≢◌,
}
use datuplet.Pipeline.{Finding, Pipeline, PipelineSpec, ResolvedComponent, StageSpec}
use datuplet.Controller.{
  Answers, ComponentStatus, Got, Job, PipelineRunSpec, PipelineRunStatus, RunPhase, StagePhase,
  StageStatus, World, found, get_failed, not_found, panicked,
}
use datuplet.Controller.Admission.{handle_pending}
use datuplet.Controller.Reconcile.{
  after_get, after_timeout, by_run_phase, by_stage_phase, current_stage_idx, fail_preview_timeout,
  handle_running, is_open, preview_deadline_passed, reconcile_run, run_stage, stage_succeeded,
  time_out_components, with_frozen,
}
use datuplet.Controller.Runs.{Reach, Step, drifted, here, new_status, next, reconciled, restarted}
use datuplet.Controller.Ordered.{
  AllDone, InOrder, OfSpec, Ordered, Orderly, Safe, StageOk, update_status-Safe,
}
use datuplet.Controller.Ordered.Admits.{find_pipeline-Safe}
use datuplet.Controller.Ordered.Current.{Current, current_stage_idx-none, current_stage_idx-some}
use datuplet.Controller.Ordered.Starts.{start_stage-Safe}
use datuplet.Controller.Ordered.Checks.{check_stage_components-Safe}

module _ (run : PipelineRunSpec) (a : Answers) (w : World) (s : PipelineRunStatus)
    (before : Orderly w.status) where
  fail_preview_timeout-Safe :
      (timeout i : ℕ) (g : StageSpec) (st : StageStatus)
      → Safe (fail_preview_timeout run a w s timeout i g st)
  unfolding fail_preview_timeout
  fail_preview_timeout-Safe timeout i g st =
      after_timeout-Safe _
        (time_out_components run a g.name s.run_id g.components w.jobs st.component_statuses)
    where
      after_timeout-Safe :
          (m : Text) (r : List Job × Result Text (List ComponentStatus))
          → Safe (after_timeout run a w s i st m r)
      after_timeout-Safe m (jobs, err e) = (before, λ q. cc)
      after_timeout-Safe m (jobs, ok css) = update_status-Safe a _ _ _ before tt (λ q. cc)

  by_stage_phase-Safe :
      (frozen : PipelineSpec) (i : ℕ) (g : StageSpec) (st : StageStatus) (p : StagePhase)
      → st.phase ≡ p
      → StageOk g st p
      → stage_succeeded p ≡ false
      → s.phase ≡ RunPhase.running
      → s.resolved_spec ≡ some frozen
      → ((st' : StageStatus)
          → StageOk g st' st'.phase
          → InOrder frozen.stages (set s.stage_statuses i st'))
      → Safe (by_stage_phase run a w s frozen i g st p)
  unfolding by_stage_phase
  by_stage_phase-Safe frozen i g st StagePhase.pending e h o r f write =
      start_stage-Safe run a w s frozen i g st before r f write
  by_stage_phase-Safe frozen i g st StagePhase.running e h o r f write =
      check_stage_components-Safe a w s frozen i g st before r f write run e h
  by_stage_phase-Safe frozen i g st StagePhase.committing e h o r f write = (before, λ q. cc)
  by_stage_phase-Safe frozen i g st StagePhase.succeeded e h o r f write = (before, λ q. cc)
  by_stage_phase-Safe frozen i g st StagePhase.failed_user e h o r f write =
      update_status-Safe a _ _ _ before tt (λ q. cc)
  by_stage_phase-Safe frozen i g st StagePhase.failed_application e h o r f write =
      update_status-Safe a _ _ _ before tt (λ q. cc)

module _ (run : PipelineRunSpec) (a : Answers) (w : World) (s : PipelineRunStatus)
    (before : Orderly w.status) where
  run_stage-Safe :
      (frozen : PipelineSpec) (i : ℕ)
      → s.phase ≡ RunPhase.running
      → s.resolved_spec ≡ some frozen
      → Current frozen.stages s.stage_statuses i
      → Safe
          (run_stage run a w s frozen i (get_elem? frozen.stages i) (get_elem? s.stage_statuses i))
  unfolding run_stage
  run_stage-Safe frozen i r f c =
      let late = preview_deadline_passed run.preview s.start_time a.now && is_open c.status.phase in
      rw (c.stage_at, c.status_at, run_stage)
        (elim (Bool-cases late) [
          | inl e ↦ rw e (
              fail_preview_timeout-Safe run a w (record s { current_stage = c.stage.name }) before _
                i c.stage c.status)
          | inr e ↦ rw e (
              by_stage_phase-Safe run a w _ before frozen i c.stage c.status c.status.phase refl
                c.stage_ok c.still_open r f c.write)
        ])

  with_frozen-Safe :
      (o : Option PipelineSpec)
      → s.resolved_spec ≡ o
      → s.phase ≡ RunPhase.running
      → OfSpec InOrder o s.stage_statuses
      → Safe (with_frozen run a w s o)
  unfolding with_frozen
  with_frozen-Safe none f r h = absurd h
  with_frozen-Safe (some frozen) f r h =
      elim (Option-cases (current_stage_idx 0 s.stage_statuses)) [
        | inl e ↦
            rw (e, with_frozen)
              (update_status-Safe a _ _ _ before
                (subst (λ o. OfSpec AllDone o s.stage_statuses) (sym f)
                  (current_stage_idx-none 0 frozen.stages s.stage_statuses h e))
                (λ q. cc))
        | inr (n, e) ↦
            let (j, q, c) = current_stage_idx-some 0 frozen.stages s.stage_statuses n h e in
            let n-j : n ≡ j = omega (arith, q) in
            rw (e, with_frozen)
              (run_stage-Safe frozen n r f
                (subst (Current frozen.stages s.stage_statuses) (sym n-j) c))
      ]

module _ (refs : Pipeline → List Text) (validated : Pipeline → List Finding)
    (resolve : Text → Text → Option ResolvedComponent × List Finding) where
  by_run_phase-Safe :
      (a : Answers) (run : PipelineRunSpec) (w : World) (s : PipelineRunStatus) (p : RunPhase)
      → Orderly w.status
      → s.phase ≡ p
      → Ordered p s.resolved_spec s.stage_statuses
      → Safe (by_run_phase refs validated resolve a run w s p)
  unfolding by_run_phase handle_pending handle_running
  by_run_phase-Safe a run w s RunPhase.unset h e o =
      find_pipeline-Safe refs validated resolve a run w s run.pipeline_spec h
  by_run_phase-Safe a run w s RunPhase.pending h e o =
      find_pipeline-Safe refs validated resolve a run w s run.pipeline_spec h
  by_run_phase-Safe a run w s RunPhase.running h e o =
      with_frozen-Safe run a w s h s.resolved_spec refl e o
  by_run_phase-Safe a run w s RunPhase.succeeded h e o = (h, λ q. cc)
  by_run_phase-Safe a run w s RunPhase.failed_user h e o = (h, λ q. cc)
  by_run_phase-Safe a run w s RunPhase.failed_application h e o = (h, λ q. cc)
  by_run_phase-Safe a run w s (RunPhase.unknown phase) h e o = (h, λ q. cc)

  after_get-Safe :
      (a : Answers) (w : World) (g : Got PipelineRunSpec)
      → Orderly w.status
      → Safe (after_get refs validated resolve a w g)
  unfolding after_get
  after_get-Safe a w not_found h = (h, λ q. cc)
  after_get-Safe a w (get_failed f) h = (h, λ q. cc)
  after_get-Safe a w (found run) h = by_run_phase-Safe a run _ _ w.status.phase h refl h

  reconcile_run-Safe :
      (a : Answers) (w : World) → Orderly w.status → Safe (reconcile_run refs validated resolve a w)
  unfolding reconcile_run
  reconcile_run-Safe a w h = after_get-Safe a w a.run h

module _ (refs : Pipeline → List Text) where
  Step-Orderly : {u v : World} → Step refs u v → Orderly u.status → Orderly v.status
  Step-Orderly (reconciled w validated resolve a) h =
      (reconcile_run-Safe refs validated resolve a w h).0
  Step-Orderly (drifted w jobs maps snapshots pods) h = h
  Step-Orderly (restarted w) h = h

  -- From a run that no reconcile has seen, whatever the cluster answers and however it changes between
  -- the reconciles: while the run is running, each stage of its frozen specification has a status, no
  -- stage has left Pending before every earlier one succeeded, and a succeeded stage has a success with
  -- exit code 0 for each of its components; a run that succeeded has so for all stages.
  pub Reach-Orderly : {w v : World} → w.status ≡ new_status → Reach refs w v → Orderly v.status
  Reach-Orderly e here = subst Orderly (sym e) tt
  Reach-Orderly e (next r step) = Step-Orderly step (Reach-Orderly e r)

  -- No reconcile of a run reads a list of stages or components out of range, after any sequence of
  -- reconciles and changes of the cluster from a run that no reconcile has seen.
  pub reconcile_run-in_range :
      {w v : World} (validated : Pipeline → List Finding)
      (resolve : Text → Text → Option ResolvedComponent × List Finding) (a : Answers)
      → w.status ≡ new_status
      → Reach refs w v
      → (reconcile_run refs validated resolve a v).1 ≢ panicked
  reconcile_run-in_range validated resolve a e r =
      (reconcile_run-Safe refs validated resolve a _ (Reach-Orderly e r)).1
