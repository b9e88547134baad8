-- ===== src/Controller/Admission.antt =====
-- handlePending of pkg/k8s/controllers/pipelinerun_controller.go: the admission of a run. `refs` is
-- validate.ReferencedSecrets and `validated` validate.ValidateTyped over the registry of this reconcile,
-- `resolve` that registry.
use datuplet.Prelude.{
  List, Option, Result, Text, [], bytes, err, false, if◌then◌else◌, is_empty, join, ltb, map, none,
  not, ok, show_nat, some, ◌&&◌, ◌++◌, ◌+◌, ◌>>=◌, ◌∷◌,
}
use datuplet.Limits.Clamp.{apply_defaults_then_clamp}
use datuplet.Pipeline.{ComponentSpec, Finding, Pipeline, PipelineSpec, ResolvedComponent, StageSpec}
use datuplet.Controller.{
  Answers, Outcome, PipelineRunSpec, PipelineRunStatus, ResolvedComponentStatus, RunPhase,
  StagePhase, StageStatus, World, failed, finished, found, get_failed, not_found, requeue_after,
}
use datuplet.Controller.Secrets.{Snapshot, snapshot_run_secrets, update_secrets_resolved_condition}
use datuplet.Controller.Findings.{
  first_error_finding, first_transient_finding, message_of, non_resource_findings,
}

-- Status().Update at the end of a handler
abbrev pub update_status : Answers → World → PipelineRunStatus → Outcome → World × Outcome
update_status a w s outcome = elim a.update_status [
  | some e ↦ (w, failed e)
  | none ↦ (record w { status = s }, outcome)
]

abbrev pub fail_user : Answers → World → PipelineRunStatus → Text → World × Outcome
fail_user a w s message =
    update_status a w (record s { phase = RunPhase.failed_user; message = message }) finished

unfoldable pub requeue_on_transient_admission_error :
    Answers → World → PipelineRunStatus → Text → World × Outcome
requeue_on_transient_admission_error a w s message =
    let attempt = w.transient_retries + 1 in
    if ltb attempt 5
    then (record w { transient_retries = attempt }, requeue_after 2)
    else update_status a (record w { transient_retries = 0 })
        (record s {
          phase = RunPhase.failed_application;
          message =
              bytes "registry unavailable after "
              ++ (show_nat attempt ++ (bytes " consecutive attempts: " ++ message));
          completion_time = some a.now;
        })
        finished

-- why the resolution of a component stops the admission
pub data Refusal : Type 0 where
  unavailable rejected : Text → Refusal

-- what is frozen of components: the specifications, the resolved components, the notes of the clamps
pub record Frozen (A : Type 0) : Type 0 where
  pub frozen : List A
  pub resolved : List ResolvedComponentStatus
  pub notes : List Text

unfoldable pub frozen_component : Answers → ComponentSpec → ResolvedComponent → Frozen ComponentSpec
frozen_component a comp rc =
    let res =
      apply_defaults_then_clamp comp.resources rc.resources.default_resources
        rc.resources.max_resources in
    record {
      frozen = record comp { resources = some res.resources } ∷ [];
      resolved =
          record {
            name = comp.name;
            component = rc.component;
            version = rc.version;
            image = rc.image;
            image_id = [];
          }
          ∷ [];
      notes =
          if is_empty res.note
          then []
          else (bytes "resources clamped for component "
              ++ (comp.name ++ (bytes ": " ++ a.print_note res.note)))
            ∷ [];
    }

module _ (resolve : Text → Text → Option ResolvedComponent × List Finding) (a : Answers) where
  unfoldable pub resolve_component : ComponentSpec → Result Refusal (Frozen ComponentSpec)
  unfolding frozen_component first_transient_finding first_error_finding
  resolve_component comp =
      let (resolved, findings) = resolve comp.component comp.version in
      elim resolved [
        | some rc ↦ ok (frozen_component a comp rc)
        | none ↦ elim (first_transient_finding findings) [
          | some f ↦ err (unavailable f.message)
          | none ↦ err (rejected (message_of (first_error_finding findings)))
        ]
      ]

  unfoldable pub resolve_components : List ComponentSpec → Result Refusal (Frozen ComponentSpec)
  resolve_components [] = ok (record { frozen = []; resolved = []; notes = [] })
  resolve_components (comp ∷ comps) = do
    c ← resolve_component comp
    rest ← resolve_components comps
    ok (record {
      frozen = c.frozen ++ rest.frozen;
      resolved = c.resolved ++ rest.resolved;
      notes = c.notes ++ rest.notes;
    })

  unfoldable pub resolve_stages : List StageSpec → Result Refusal (Frozen StageSpec)
  resolve_stages [] = ok (record { frozen = []; resolved = []; notes = [] })
  resolve_stages (stage ∷ stages) = do
    c ← resolve_components stage.components
    rest ← resolve_stages stages
    ok (record {
      frozen = record stage { components = c.frozen } ∷ rest.frozen;
      resolved = c.resolved ++ rest.resolved;
      notes = c.notes ++ rest.notes;
    })

abbrev pub pending_stage : StageSpec → StageStatus
pending_stage stage = record {
  name = stage.name;
  phase = StagePhase.pending;
  component_statuses = [];
  start_time = none;
  completion_time = none;
  message = [];
}

module _ (refs : Pipeline → List Text) (validated : Pipeline → List Finding)
    (resolve : Text → Text → Option ResolvedComponent × List Finding) (a : Answers) where
  -- the frozen specification goes into the status, and the run starts
  unfoldable pub start_run :
      Pipeline → World → PipelineRunStatus → Frozen StageSpec → World × Outcome
  unfolding update_secrets_resolved_condition
  start_run pipeline w s f =
      update_status a (record w { transient_retries = 0 })
        (update_secrets_resolved_condition (refs pipeline) (record s {
          resolved_spec = some (record pipeline.spec { stages = f.frozen });
          pipeline_generation = pipeline.generation;
          components = f.resolved;
          phase = RunPhase.running;
          start_time = some a.now;
          message = if is_empty f.notes then s.message else join (bytes "; ") f.notes;
          stage_statuses = map pending_stage f.frozen;
        }))
        (requeue_after 5)

  -- what resolution decides
  unfoldable pub freeze :
      Pipeline → World → PipelineRunStatus → Result Refusal (Frozen StageSpec) → World × Outcome
  unfolding start_run
  freeze pipeline w s (err (unavailable message)) =
      requeue_on_transient_admission_error a w s message
  freeze pipeline w s (err (rejected message)) = fail_user a w s message
  freeze pipeline w s (ok f) = start_run pipeline w s f

  -- the semantic checks, then the resolution of the components
  unfoldable pub validate_and_freeze : Pipeline → World → PipelineRunStatus → World × Outcome
  unfolding freeze non_resource_findings first_transient_finding first_error_finding
  validate_and_freeze pipeline w s = elim (first_transient_finding (validated pipeline)) [
    | some f ↦ requeue_on_transient_admission_error a w s f.message
    | none ↦ elim (first_error_finding (non_resource_findings (validated pipeline))) [
      | some f ↦ fail_user a w s f.message
      | none ↦ freeze pipeline w s (resolve_stages resolve a pipeline.spec.stages)
    ]
  ]

  unfoldable pub with_snapshot : Pipeline → PipelineRunStatus → World × Snapshot → World × Outcome
  unfolding validate_and_freeze
  with_snapshot pipeline s (w, err e) = (w, failed e)
  with_snapshot pipeline s (w, ok []) = validate_and_freeze pipeline w s
  with_snapshot pipeline s (w, ok (name ∷ missing)) =
      let message =
        bytes "DUPLET_STATUS_MESSAGE: referenced secret(s) not found in project secrets: "
        ++ join (bytes ", ") (name ∷ missing) in
      fail_user a w
        (record s { secrets_resolved = some (record { status = false; message = message }) })
        message

  -- a run whose Pipeline was found: its id, its secrets, and the rest
  unfoldable pub admit : PipelineRunSpec → Pipeline → World → PipelineRunStatus → World × Outcome
  unfolding with_snapshot snapshot_run_secrets
  admit run pipeline w s =
      let w' = record w { not_found_retries = 0 } in
      let run_id = if is_empty run.run_id then a.new_uuid else run.run_id in
      if not (is_empty run.run_id) && not (a.is_uuid run.run_id)
      then fail_user a w' s
          (bytes "invalid spec.runId: must be a valid UUID, got " ++ a.quote run.run_id)
      else with_snapshot pipeline (record s { run_id = run_id })
          (snapshot_run_secrets (refs pipeline) a run_id w')

  -- the Pipeline was not there
  unfoldable pub await_pipeline : PipelineRunSpec → World → PipelineRunStatus → World × Outcome
  await_pipeline run w s =
      let attempt = w.not_found_retries + 1 in
      if ltb attempt 5
      then (record w { not_found_retries = attempt }, requeue_after 2)
      else fail_user a (record w { not_found_retries = 0 }) s
          (bytes "Pipeline '" ++ (run.pipeline_ref ++ bytes "' not found"))

  -- the specification is inline, or that of a Pipeline
  unfoldable pub find_pipeline :
      PipelineRunSpec → World → PipelineRunStatus → Option PipelineSpec → World × Outcome
  unfolding admit await_pipeline
  find_pipeline run w s (some spec) =
      admit run (record { name = run.name; generation = 0; spec = spec }) w s
  find_pipeline run w s none =
      if is_empty run.pipeline_ref
      then fail_user a w s (bytes "spec.pipelineRef or spec.pipelineSpec is required")
      else elim a.pipeline [
        | found pipeline ↦ admit run pipeline w s
        | not_found ↦ await_pipeline run w s
        | get_failed e ↦ (w, failed e)
      ]

  unfoldable pub handle_pending : PipelineRunSpec → World → PipelineRunStatus → World × Outcome
  unfolding find_pipeline
  handle_pending run w s = find_pipeline run w s run.pipeline_spec
