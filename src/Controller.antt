-- ===== src/Controller.antt =====
-- The controller of pipeline runs (pkg/k8s/controllers/pipelinerun_controller.go): the state that it
-- reads and writes (pkg/k8s/api/v1/pipelinerun_types.go), and what the cluster answers to the calls of
-- one reconcile. `World` is what outlives a reconcile; a handler works on a copy of the status, which
-- is lost where it returns without updating it.
pub mod Secrets
pub mod Jobs
pub mod Findings
pub mod Admission
pub mod Stages
pub mod Checks
pub mod Reconcile
pub mod Splits
pub mod Runs
pub mod Ordered
pub mod Frozen
pub mod Collide
pub mod Finishes
pub mod Budget
use datuplet.Prelude.{Assoc, Bool, List, Option, Text, inl, inr, refl, ℕ, ◌≡◌, ◌⊎◌}
use datuplet.Pipeline.{Pipeline, PipelineSpec, ℤ}
use datuplet.Limits.Clamp.{Change}

-- the phase of a run; `unset` is the empty text
pub data RunPhase : Type 0 where
  unset pending running succeeded failed_user failed_application : RunPhase
  unknown : Text → RunPhase

pub data StagePhase : Type 0 where
  pending running committing succeeded failed_user failed_application : StagePhase

pub data ComponentPhase : Type 0 where
  pending running succeeded failed_user failed_application : ComponentPhase

pub record ComponentStatus : Type 0 where
  pub name : Text
  pub phase : ComponentPhase
  pub exit_code : Option ℤ
  pub pod_name : Text
  pub start_time : Option ℕ
  pub completion_time : Option ℕ
  pub message : Text

pub record StageStatus : Type 0 where
  pub name : Text
  pub phase : StagePhase
  pub component_statuses : List ComponentStatus
  pub start_time : Option ℕ
  pub completion_time : Option ℕ
  pub message : Text

pub record ResolvedComponentStatus : Type 0 where
  pub name : Text
  pub component : Text
  pub version : Text
  pub image : Text
  pub image_id : Text

-- the condition SecretsResolved: its status and its message
pub record Condition : Type 0 where
  pub status : Bool
  pub message : Text

pub record PipelineRunStatus : Type 0 where
  pub phase : RunPhase
  pub run_id : Text
  pub current_stage : Text
  pub stage_statuses : List StageStatus
  pub start_time : Option ℕ
  pub completion_time : Option ℕ
  pub message : Text
  pub observed_generation : ℕ
  pub secrets_resolved : Option Condition
  pub pipeline_generation : ℕ
  pub resolved_spec : Option PipelineSpec
  pub components : List ResolvedComponentStatus

pub record PreviewSpec : Type 0 where
  pub id : Text
  pub row_limit : ℕ
  pub timeout_seconds : ℕ

-- the metadata and the spec of the PipelineRun, which its reconciles only read
pub record PipelineRunSpec : Type 0 where
  pub name : Text
  pub namespace : Text
  pub generation : ℕ
  pub cancel : Bool
  pub pipeline_ref : Text
  pub run_id : Text
  pub pipeline_spec : Option PipelineSpec
  pub preview : Option PreviewSpec

-- the parts of a component's Job that its run depends on
pub record Job : Type 0 where
  pub name : Text
  pub component : Text
  pub image : Text
  pub backoff_limit : ℕ

pub record Pod : Type 0 where
  pub name : Text
  pub run_id : Text
  pub cancelled : Bool

-- the counters are the entries of the run's key in the two maps, 0 where there is none
pub record World : Type 0 where
  pub status : PipelineRunStatus
  pub transient_retries : ℕ
  pub not_found_retries : ℕ
  pub jobs : List Job
  pub config_maps : List Text
  pub snapshots : Assoc Text (Assoc Text Text)
  pub pods : List Pod

pub data Outcome : Type 0 where
  requeue_after : ℕ → Outcome
  finished : Outcome
  failed : Text → Outcome
  panicked : Outcome

-- a Get: the object, IsNotFound, or another error
pub data Got {ℓ} (A : Type ℓ) : Type ℓ where
  found : A → Got A
  not_found : Got A
  get_failed : Text → Got A

pub Got-cases {ℓ} :
    {A : Type ℓ} (g : Got A)
    → (g ≡ not_found) ⊎ (((e : Text) × (g ≡ get_failed e)) ⊎ ((x : A) × (g ≡ found x)))
Got-cases not_found = inl refl
Got-cases (get_failed e) = inr (inl (e, refl))
Got-cases (found x) = inr (inr (x, refl))

pub data ConditionType : Type 0 where
  job_complete job_failed other_condition : ConditionType

pub record JobCondition : Type 0 where
  pub condition_type : ConditionType
  pub is_true : Bool
  pub message : Text

-- what a reconcile sees of a Job: its conditions, and its last pod's exit code and image
pub record JobView : Type 0 where
  pub conditions : List JobCondition
  pub exit_code : Option ℤ
  pub image_id : Text

-- what the cluster, the clock and the libraries answer in one reconcile; `log_message` is
-- extractComponentStatusMessage, by the
-- Job's name and the exit code; `quote` is `%q`
pub record Answers : Type 0 where
  pub now : ℕ
  pub run : Got PipelineRunSpec
  pub pipeline : Got Pipeline
  pub new_uuid : Text
  pub is_uuid : Text → Bool
  pub snapshot : Option Text
  pub project_secret : Got (Assoc Text Text)
  pub create_secret : Option Text
  pub set_owner : Option Text
  pub gateway_config : Text → Option Text
  pub create_config_map : Text → Option Text
  pub create_job : Text → Option Text
  pub delete_job : Text → Option Text
  pub job : Text → Got JobView
  pub log_message : Text → ℤ → Text
  pub quote : Text → Text
  pub sanitize : Text → Text
  pub print_note : List Change → Text
  pub list_pods : Bool
  pub patch_pod : Text → Bool
  pub update_status : Option Text
