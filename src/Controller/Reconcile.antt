-- ===== src/Controller/Reconcile.antt =====
-- handleRunning, failPreviewTimeout and Reconcile of pkg/k8s/controllers/pipelinerun_controller.go.
-- Instants are in nanoseconds; `-` is 0 where an instant lies in the future.
use datuplet.Prelude.{
  Bool, List, Option, Result, Text, [], bytes, err, false, get_elem?, if◌then◌else◌, is_empty, ltb,
  nat_beq, none, not, ok, set, show_nat, some, text_eq, true, ℕ, ◌&&◌, ◌*◌, ◌++◌, ◌+◌, ◌-◌, ◌==◌,
  ◌∷◌,
}
use datuplet.Pipeline.{
  ComponentSpec, Finding, Pipeline, PipelineSpec, ResolvedComponent, StageSpec, pos,
}
use datuplet.Controller.{
  Answers, ComponentPhase, ComponentStatus, Got, Job, Outcome, PipelineRunSpec, PipelineRunStatus,
  PreviewSpec, RunPhase, StagePhase, StageStatus, World, failed, finished, found, get_failed,
  not_found, panicked, requeue_after,
}
use datuplet.Controller.Jobs.{component_job_name, delete_job, propagate_cancel_to_pods}
use datuplet.Controller.Admission.{handle_pending, update_status}
use datuplet.Controller.Checks.{check_stage_components}
use datuplet.Controller.Stages.{start_stage}

-- a reconcile's way to end a run
abbrev pub end_run : Answers → World → PipelineRunStatus → RunPhase → Text → World × Outcome
end_run a w s phase message =
    update_status a w (record s { phase = phase; message = message; completion_time = some a.now })
      finished

unfoldable pub preview_deadline_passed : Option PreviewSpec → Option ℕ → ℕ → Bool
preview_deadline_passed none start now = false
preview_deadline_passed (some p) none now = false
preview_deadline_passed (some p) (some start) now =
    not (nat_beq p.timeout_seconds 0) && ltb (p.timeout_seconds * 1000000000) (now - start)

unfoldable pub component_terminal : ComponentPhase → Bool
component_terminal ComponentPhase.pending = false
component_terminal ComponentPhase.running = false
component_terminal ComponentPhase.succeeded = true
component_terminal ComponentPhase.failed_user = true
component_terminal ComponentPhase.failed_application = true

abbrev pub timed_out_message : Answers → Text → Text
timed_out_message a line =
    let message = bytes "preview timed out" in
    if is_empty line then message else a.sanitize (message ++ (bytes "; last log: " ++ line))

-- the first status of the name, unless it is terminal, becomes a timeout
unfoldable pub time_out_component :
    Answers → Text → Text → List ComponentStatus → List ComponentStatus
unfolding component_terminal
time_out_component a job_name name [] = []
time_out_component a job_name name (cs ∷ css) =
    let rest = time_out_component a job_name name css in
    if not (cs.name == name)
    then cs ∷ rest
    else if component_terminal cs.phase
    then cs ∷ css
    else record cs {
      phase = ComponentPhase.failed_user;
      message = timed_out_message a (a.log_message job_name (pos 0));
      completion_time = some a.now;
    }
      ∷ css

-- the loop that records the timeouts and deletes the Jobs: the Jobs left, and the statuses or an error
unfoldable pub time_out_components :
    PipelineRunSpec
    → Answers
    → Text
    → Text
    → List ComponentSpec
    → List Job
    → List ComponentStatus
    → List Job × Result Text (List ComponentStatus)
unfolding time_out_component
time_out_components run a stage_name run_id [] jobs css = (jobs, ok css)
time_out_components run a stage_name run_id (comp ∷ comps) jobs css =
    let job_name = component_job_name run.name stage_name comp.name run_id in
    elim (a.delete_job comp.name) [
      | some e ↦ (jobs, err e)
      | none ↦
          time_out_components run a stage_name run_id comps (delete_job job_name jobs)
            (time_out_component a job_name comp.name css)
    ]

module _ (run : PipelineRunSpec) (a : Answers) (w : World) (s : PipelineRunStatus) where
  unfoldable pub after_timeout :
      ℕ → StageStatus → Text → List Job × Result Text (List ComponentStatus) → World × Outcome
  after_timeout i st message (jobs, err e) =
      (record w { jobs = jobs; pods = propagate_cancel_to_pods a s.run_id w.pods }, failed e)
  after_timeout i st message (jobs, ok css) =
      end_run a (record w { jobs = jobs; pods = propagate_cancel_to_pods a s.run_id w.pods })
        (record s {
          stage_statuses = set s.stage_statuses i (record st {
            component_statuses = css;
            phase = StagePhase.failed_user;
            message = message;
            completion_time = some a.now;
          });
        })
        RunPhase.failed_user message

  unfoldable pub fail_preview_timeout : ℕ → ℕ → StageSpec → StageStatus → World × Outcome
  unfolding time_out_components after_timeout
  fail_preview_timeout timeout i stage st =
      after_timeout i st
        (bytes "preview timed out after "
          ++ (show_nat timeout ++ (bytes "s during stage " ++ stage.name)))
        (time_out_components run a stage.name s.run_id stage.components w.jobs
          st.component_statuses)

abbrev pub stage_failed_message : StageSpec → StageStatus → Text
stage_failed_message stage st =
    bytes "Stage '" ++ (stage.name ++ (bytes "' failed: " ++ st.message))

abbrev pub is_open : StagePhase → Bool
is_open StagePhase.pending = true
is_open StagePhase.running = true
is_open StagePhase.committing = false
is_open StagePhase.succeeded = false
is_open StagePhase.failed_user = false
is_open StagePhase.failed_application = false

abbrev pub timeout_of : Option PreviewSpec → ℕ
timeout_of none = 0
timeout_of (some p) = p.timeout_seconds

abbrev pub stage_succeeded : StagePhase → Bool
stage_succeeded StagePhase.succeeded = true
stage_succeeded StagePhase.pending = false
stage_succeeded StagePhase.running = false
stage_succeeded StagePhase.committing = false
stage_succeeded StagePhase.failed_user = false
stage_succeeded StagePhase.failed_application = false

-- the index of the first stage that has not succeeded
unfoldable pub current_stage_idx : ℕ → List StageStatus → Option ℕ
current_stage_idx i [] = none
current_stage_idx i (st ∷ sts) =
    let rest = current_stage_idx (i + 1) sts in if stage_succeeded st.phase then rest else some i

module _ (run : PipelineRunSpec) (a : Answers) (w : World) (s : PipelineRunStatus) where
  -- the switch on the phase of the current stage
  unfoldable pub by_stage_phase :
      PipelineSpec → ℕ → StageSpec → StageStatus → StagePhase → World × Outcome
  unfolding start_stage check_stage_components
  by_stage_phase frozen i stage st StagePhase.pending = start_stage run a s w frozen i stage st
  by_stage_phase frozen i stage st StagePhase.running = check_stage_components a w s run i stage st
  by_stage_phase frozen i stage st StagePhase.failed_user =
      end_run a w s RunPhase.failed_user (stage_failed_message stage st)
  by_stage_phase frozen i stage st StagePhase.failed_application =
      end_run a w s RunPhase.failed_application (stage_failed_message stage st)
  by_stage_phase frozen i stage st StagePhase.committing = (w, requeue_after 5)
  by_stage_phase frozen i stage st StagePhase.succeeded = (w, requeue_after 5)

module _ (run : PipelineRunSpec) (a : Answers) (w : World) (s : PipelineRunStatus) where
  -- the current stage, or a read out of range
  unfoldable pub run_stage :
      PipelineSpec → ℕ → Option StageSpec → Option StageStatus → World × Outcome
  unfolding by_stage_phase fail_preview_timeout preview_deadline_passed
  run_stage frozen i none st = (w, panicked)
  run_stage frozen i (some stage) none = (w, panicked)
  run_stage frozen i (some stage) (some st) =
      let s' = record s { current_stage = stage.name } in
      if preview_deadline_passed run.preview s.start_time a.now && is_open st.phase
      then fail_preview_timeout run a w s' (timeout_of run.preview) i stage st
      else by_stage_phase run a w s' frozen i stage st st.phase

  -- the stages of the frozen specification, if there is one
  unfoldable pub with_frozen : Option PipelineSpec → World × Outcome
  unfolding run_stage current_stage_idx
  with_frozen none =
      end_run a w s RunPhase.failed_application
        (bytes "internal: resolvedSpec missing on a Running PipelineRun")
  with_frozen (some frozen) = elim (current_stage_idx 0 s.stage_statuses) [
    | none ↦ end_run a w s RunPhase.succeeded (bytes "All stages completed successfully")
    | some i ↦ run_stage frozen i (get_elem? frozen.stages i) (get_elem? s.stage_statuses i)
  ]

  unfoldable pub handle_running : World × Outcome
  unfolding with_frozen
  handle_running = with_frozen s.resolved_spec

module _ (refs : Pipeline → List Text) (validated : Pipeline → List Finding)
    (resolve : Text → Text → Option ResolvedComponent × List Finding) where
  -- the switch on the phase of the run
  unfoldable pub by_run_phase :
      Answers → PipelineRunSpec → World → PipelineRunStatus → RunPhase → World × Outcome
  unfolding handle_pending handle_running
  by_run_phase a run w s RunPhase.unset = handle_pending refs validated resolve a run w s
  by_run_phase a run w s RunPhase.pending = handle_pending refs validated resolve a run w s
  by_run_phase a run w s RunPhase.running = handle_running run a w s
  by_run_phase a run w s (RunPhase.unknown phase) = (w, finished)
  by_run_phase a run w s RunPhase.succeeded =
      (record w { transient_retries = 0; not_found_retries = 0 }, finished)
  by_run_phase a run w s RunPhase.failed_user =
      (record w { transient_retries = 0; not_found_retries = 0 }, finished)
  by_run_phase a run w s RunPhase.failed_application =
      (record w { transient_retries = 0; not_found_retries = 0 }, finished)

  -- what the Get of the PipelineRun returned
  unfoldable pub after_get : Answers → World → Got PipelineRunSpec → World × Outcome
  unfolding by_run_phase
  after_get a w not_found = (w, finished)
  after_get a w (get_failed e) = (w, failed e)
  after_get a w (found run) =
      let s = record w.status { observed_generation = run.generation } in
      let pods = if run.cancel then propagate_cancel_to_pods a s.run_id w.pods else w.pods in
      by_run_phase a run (record w { pods = pods }) s w.status.phase

  unfoldable pub reconcile_run : Answers → World → World × Outcome
  unfolding after_get
  reconcile_run a w = after_get a w a.run
