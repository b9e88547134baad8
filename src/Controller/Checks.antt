-- ===== src/Controller/Checks.antt =====
-- checkStageComponents of pkg/k8s/controllers/pipelinerun_controller.go, recordComponentImageID of
-- pipelinerun_status.go and ClassifyExitCode of pkg/lib/status/status.go.
use datuplet.Prelude.{
  Bool, List, Option, Result, Text, [], bytes, err, false, if◌then◌else◌, is_empty, none, not, ok,
  set, some, suc, text_eq, true, zero, ℕ, ◌&&◌, ◌++◌, ◌==◌, ◌||◌, ◌∷◌,
}
use datuplet.Pipeline.{ComponentSpec, StageSpec, negsuc, pos, ℤ}
use datuplet.Controller.{
  Answers, ComponentPhase, ComponentStatus, ConditionType, JobCondition, JobView, Outcome,
  PipelineRunSpec, PipelineRunStatus, ResolvedComponentStatus, StagePhase, StageStatus, World,
  failed, finished, found, get_failed, job_complete, job_failed, not_found, panicked, requeue_after,
}
use datuplet.Controller.Admission.{update_status}
use datuplet.Controller.Jobs.{component_job_name}

-- the failure type of an exit code; `clean` is the empty text
pub data FailureType : Type 0 where
  clean user application : FailureType

unfoldable pub classify_exit_code : ℤ → FailureType
classify_exit_code (pos zero) = clean
classify_exit_code (pos (suc zero)) = user
classify_exit_code (pos (suc (suc n))) = application
classify_exit_code (negsuc n) = application

-- the image of a component, if it has none yet
unfoldable pub record_component_image_id :
    Text → Text → List ResolvedComponentStatus → List ResolvedComponentStatus
record_component_image_id name image [] = []
record_component_image_id name image (rc ∷ rcs) =
    let rest = record_component_image_id name image rcs in
    if is_empty image
    then rc ∷ rcs
    else if rc.name == name && is_empty rc.image_id
    then record rc { image_id = image } ∷ rcs
    else rc ∷ rest

-- the variables of the loop over the components of a stage, and the images
pub record Tally : Type 0 where
  pub all_succeeded : Bool
  pub any_failed_user : Bool
  pub any_failed_app : Bool
  pub failed_component : Text
  pub failed_message : Text
  pub resolved : List ResolvedComponentStatus

abbrev pub or_else : Text → Text → Text
or_else m d = if is_empty m then d else m

abbrev pub failed_status :
    Answers → Option ℤ → ComponentPhase → Text → ComponentStatus → ComponentStatus
failed_status a code phase message cs = record cs {
  exit_code = code;
  phase = phase;
  message = message;
  completion_time = some a.now;
}

abbrev pub failed_with : Bool → ComponentStatus → Tally → ComponentStatus × Tally
failed_with is_user cs k = (
  cs,
  record k {
    any_failed_user = k.any_failed_user || is_user;
    any_failed_app = k.any_failed_app || not is_user;
    failed_component = cs.name;
    failed_message = cs.message;
  },
)

abbrev pub is_user_failure : FailureType → Bool
is_user_failure clean = false
is_user_failure user = true
is_user_failure application = false

abbrev pub failure_phase : Bool → ComponentPhase
failure_phase true = ComponentPhase.failed_user
failure_phase false = ComponentPhase.failed_application

module _ (a : Answers) (job_name : Text) (view : JobView) where
  -- the condition JobFailed
  unfoldable pub job_failure : Text → ComponentStatus → Tally → ComponentStatus × Tally
  unfolding classify_exit_code
  job_failure message cs k = elim view.exit_code [
    | some code ↦
        let is_user = is_user_failure (classify_exit_code code) in
        failed_with is_user
          (failed_status a (some code) (failure_phase is_user)
            (or_else (a.log_message job_name code) message) cs)
          k
    | none ↦ failed_with false (failed_status a none ComponentPhase.failed_application message cs) k
  ]

  -- the condition JobComplete
  unfoldable pub job_success : ComponentStatus → ComponentStatus
  job_success cs = record cs {
    phase = ComponentPhase.succeeded;
    exit_code = some (pos 0);
    completion_time = some a.now;
    message = or_else (a.log_message job_name (pos 0)) cs.message;
  }

  unfoldable pub apply_condition :
      ConditionType → Bool → Text → ComponentStatus × Tally → ComponentStatus × Tally
  unfolding job_failure job_success
  apply_condition job_complete true message (cs, k) = (job_success cs, k)
  apply_condition job_failed true message (cs, k) = job_failure message cs k
  apply_condition t holds message (cs, k) = (cs, k)

  unfoldable pub apply_conditions :
      List JobCondition → ComponentStatus × Tally → ComponentStatus × Tally
  unfolding apply_condition
  apply_conditions [] r = r
  apply_conditions (c ∷ cs) r =
      apply_conditions cs (apply_condition c.condition_type c.is_true c.message r)

module _ (run : PipelineRunSpec) (a : Answers) (stage_name run_id : Text) where
  -- a component that is not done: its Job is asked
  unfoldable pub check_live : ComponentStatus → Tally → Result Text (ComponentStatus × Tally)
  unfolding record_component_image_id apply_conditions
  check_live cs k =
      let job_name = component_job_name run.name stage_name cs.name run_id in
      elim (a.job job_name) [
        | not_found ↦ ok (cs, record k { all_succeeded = false })
        | get_failed e ↦ err e
        | found view ↦ ok (
            apply_conditions a job_name view view.conditions (
              cs,
              record k {
                all_succeeded = false;
                resolved = record_component_image_id cs.name view.image_id k.resolved;
              },
            ))
      ]

  unfoldable pub check_component :
      ComponentPhase → ComponentStatus → Tally → Result Text (ComponentStatus × Tally)
  unfolding check_live
  check_component ComponentPhase.succeeded cs k = ok (cs, k)
  check_component ComponentPhase.failed_user cs k = ok (failed_with true cs k)
  check_component ComponentPhase.failed_application cs k = ok (failed_with false cs k)
  check_component ComponentPhase.pending cs k = check_live cs k
  check_component ComponentPhase.running cs k = check_live cs k

  -- the loop; `none` where it reads beyond the statuses
  unfoldable pub check_components :
      List ComponentSpec
      → List ComponentStatus
      → Tally
      → Option (Result Text (List ComponentStatus × Tally))
  unfolding check_component
  check_components [] css k = some (ok (css, k))
  check_components (comp ∷ comps) [] k = none
  check_components (comp ∷ comps) (cs ∷ css) k = elim (check_component cs.phase cs k) [
    | err e ↦ some (err e)
    | ok (cs', k') ↦ elim (check_components comps css k') [
      | none ↦ none
      | some (err e) ↦ some (err e)
      | some (ok (css', k'')) ↦ some (ok (cs' ∷ css', k''))
    ]
  ]

abbrev pub start_tally : List ResolvedComponentStatus → Tally
start_tally resolved = record {
  all_succeeded = true;
  any_failed_user = false;
  any_failed_app = false;
  failed_component = [];
  failed_message = [];
  resolved = resolved;
}

module _ (a : Answers) (w : World) (s : PipelineRunStatus) where
  abbrev pub with_stage : ℕ → Tally → StageStatus → PipelineRunStatus
  with_stage i k st = record s {
    stage_statuses = set s.stage_statuses i st;
    components = k.resolved;
  }

  -- what the counts make of the stage
  unfoldable pub after_check : ℕ → StageStatus → List ComponentStatus → Tally → World × Outcome
  after_check i st css k =
      if k.any_failed_user || k.any_failed_app
      then update_status a w
          (with_stage i k (record st {
            component_statuses = css;
            phase =
                if k.any_failed_user then StagePhase.failed_user else StagePhase.failed_application;
            message =
                bytes "Component '"
                ++ (k.failed_component ++ (bytes "' failed: " ++ k.failed_message));
            completion_time = some a.now;
          }))
          finished
      else if k.all_succeeded
      then update_status a w
          (with_stage i k (record st {
            component_statuses = css;
            phase = StagePhase.succeeded;
            completion_time = some a.now;
          }))
          (requeue_after 5)
      else (
        (update_status a w (with_stage i k (record st { component_statuses = css })) finished).0,
        requeue_after 5,
      )

  unfoldable pub check_stage_components :
      PipelineRunSpec → ℕ → StageSpec → StageStatus → World × Outcome
  unfolding check_components after_check
  check_stage_components run i stage st =
      elim (check_components run a stage.name s.run_id stage.components st.component_statuses
        (start_tally s.components)) [
          | none ↦ (w, panicked)
          | some (err e) ↦ (w, failed e)
          | some (ok (css, k)) ↦ after_check i st css k
        ]
