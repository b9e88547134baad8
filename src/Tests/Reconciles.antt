-- ===== src/Tests/Reconciles.antt =====
-- Concrete runs of the controller of pipeline runs.
use datuplet.Prelude.{
  All, List, Option, Text, [], arith, bytes, false, length, map, none, refl, some, text_beq,
  text_eq, true, ◌<◌, ◌∷◌, ◌≡◌, ◌≢◌, ◌≤◌,
}
use datuplet.Limits.Clamp.{ResourceRequirements}
use datuplet.Pipeline.{
  ComponentSpec, Finding, Pipeline, PipelineSpec, ResolvedComponent, StageSpec, pos, transient,
}
use datuplet.Controller.{
  Answers, ComponentPhase, ComponentStatus, JobView, PipelineRunSpec, PipelineRunStatus,
  ResolvedComponentStatus, RunPhase, World, found, job_complete, not_found, panicked,
}
use datuplet.Controller.Jobs.{build_component_job, create_config_map, create_job, stage_of}
use datuplet.Controller.Stages.{start_components}
use datuplet.Controller.Findings.{
  first_error_finding, first_transient_finding, non_resource_findings,
}
use datuplet.Controller.Reconcile.{reconcile_run}
use datuplet.Controller.Runs.{Reach, here, new_status, next, reconciled}
use datuplet.Controller.Ordered.{Orderly}
use datuplet.Controller.Ordered.Kept.{Reach-Orderly, reconcile_run-in_range}
use datuplet.Controller.Frozen.{SameRun}
use datuplet.Controller.Frozen.Kept.{Reach-SameRun, Reach-over}
use datuplet.Controller.Collide.{Alike, start_components-collide}
use datuplet.Controller.Finishes.{Serves}
use datuplet.Controller.Finishes.Ends.{reconciles}
use datuplet.Controller.Finishes.Admits.{Welcome}
use datuplet.Controller.Finishes.Succeeds.{new_run-succeeds}
use datuplet.Controller.Budget.{Blocked, reconciles-outage}

abbrev component_named : Text → ComponentSpec
component_named name = record {
  name = name;
  component = bytes "sql-transform";
  version = bytes "v1.0.0";
  config = [];
  inputs = none;
  outputs = none;
  resources = none;
}

abbrev transforms : StageSpec
transforms = record {
  name = bytes "transform";
  components = component_named (bytes "transform-a") ∷ (component_named (bytes "transform-b") ∷ []);
}

abbrev plan : PipelineSpec
plan = record {
  gateway = record { chunk_size = pos 0; buffer_size = pos 0; target_file_size = pos 0 };
  stages = transforms ∷ [];
}

abbrev nightly : PipelineRunSpec
nightly = record {
  name = bytes "nightly-1";
  namespace = bytes "project";
  generation = 1;
  cancel = false;
  pipeline_ref = [];
  run_id = [];
  pipeline_spec = some plan;
  preview = none;
}

abbrev complete_view : JobView
complete_view = record {
  conditions = record { condition_type = job_complete; is_true = true; message = [] } ∷ [];
  exit_code = some (pos 0);
  image_id = bytes "sha256:1";
}

-- a cluster in which every call succeeds and every Job is complete
abbrev calm : Answers
calm = record {
  now = 1000;
  run = found nightly;
  pipeline = not_found;
  new_uuid = bytes "0f0e0d0c-1";
  is_uuid = λ t. true;
  snapshot = none;
  project_secret = not_found;
  create_secret = none;
  set_owner = none;
  gateway_config = λ n. none;
  create_config_map = λ n. none;
  create_job = λ n. none;
  delete_job = λ n. none;
  job = λ n. found complete_view;
  log_message = λ n code. [];
  quote = λ t. t;
  sanitize = λ t. t;
  print_note = λ n. [];
  list_pods = true;
  patch_pod = λ n. true;
  update_status = none;
}

abbrev fresh : World
fresh = record {
  status = new_status;
  transient_retries = 0;
  not_found_retries = 0;
  jobs = [];
  config_maps = [];
  snapshots = [];
  pods = [];
}

abbrev no_refs : Pipeline → List Text
no_refs p = []

abbrev no_findings : Pipeline → List Finding
no_findings p = []

abbrev outage : Finding
outage = record { path = bytes "component"; message = bytes "timeout"; severity = transient }

abbrev nothing_asked : ResourceRequirements
nothing_asked = record { limits = []; requests = [] }

abbrev sql_transform : ResolvedComponent
sql_transform = record {
  component = bytes "sql-transform";
  version = bytes "v1.0.0";
  image = bytes "datuplet/sql:1";
  prerelease = false;
  config_schema = [];
  resources = record { default_resources = nothing_asked; max_resources = [] };
  io = none;
}

abbrev registry : Text → Text → Option ResolvedComponent × List Finding
registry c v = (some sql_transform, [])

abbrev serve : World → World
serve w = (reconcile_run no_refs no_findings registry calm w).0

calm-Serves : Serves nightly calm
calm-Serves = record {
  finds_run = refl;
  owns = refl;
  configures = λ n. refl;
  maps_config = λ n. refl;
  makes_job = λ n. refl;
  updates = refl;
  completes = λ n. (complete_view, [], refl, refl);
}

calm-Welcome : Welcome no_refs no_findings registry nightly plan calm
unfolding first_transient_finding first_error_finding non_resource_findings
calm-Welcome = record {
  is_inline = refl;
  has_id = refl;
  needs_no_secret = refl;
  has_no_transient = refl;
  has_no_error = refl;
  resolves = λ c v. (sql_transform, refl);
}

-- five reconciles: admission, start, two checks, and the end
new_run-succeeds_example :
    (reconciles no_refs no_findings registry (λ n. calm) 5 fresh).status.phase ≡ RunPhase.succeeded
new_run-succeeds_example =
    new_run-succeeds no_refs no_findings registry nightly plan (λ n. calm) 5 fresh refl refl
      calm-Welcome (λ k. calm-Serves) (omega arith)

twice : Reach no_refs fresh (serve (serve fresh))
twice =
    next (next here (reconciled fresh no_findings registry calm))
      (reconciled (serve fresh) no_findings registry calm)

Reach-Orderly_example : Orderly (serve (serve fresh)).status
Reach-Orderly_example = Reach-Orderly no_refs refl twice

reconcile_run-in_range_example :
    (reconcile_run no_refs no_findings registry calm (serve (serve fresh))).1 ≢ panicked
reconcile_run-in_range_example = reconcile_run-in_range no_refs no_findings registry calm refl twice

-- a run that admission has let pass
abbrev admitted : World
admitted = record fresh {
  status = record new_status {
    phase = RunPhase.running;
    run_id = bytes "0f0e0d0c-1";
    resolved_spec = some plan;
  };
}

Reach-SameRun_example : SameRun admitted.status (serve admitted).status
Reach-SameRun_example =
    Reach-SameRun no_refs refl (next here (reconciled admitted no_findings registry calm))

abbrev ended : World
ended = record fresh { status = record new_status { phase = RunPhase.failed_user } }

Reach-over_example : (serve ended).status ≡ ended.status
Reach-over_example =
    Reach-over no_refs refl (next here (reconciled ended no_findings registry calm))

abbrev resolved_as : Text → ResolvedComponentStatus
resolved_as name = record {
  name = name;
  component = bytes "sql-transform";
  version = bytes "v1.0.0";
  image = bytes "datuplet/sql:1";
  image_id = [];
}

abbrev both_resolved : PipelineRunStatus
both_resolved = record admitted.status {
  components = resolved_as (bytes "transform-a") ∷ (resolved_as (bytes "transform-b") ∷ []);
}

transforms-Alike :
    Alike nightly calm both_resolved plan transforms (bytes "transform-a") transforms.components
unfolding stage_of text_beq
transforms-Alike = ((refl, refl), ((refl, refl), tt))

transforms-start :
    (start_components nightly calm both_resolved plan transforms.components [] []).stop ≡ none
unfolding start_components build_component_job create_job create_config_map text_beq
transforms-start = refl

start_components-collide_example :
    let r = start_components nightly calm both_resolved plan transforms.components [] [] in
    (length r.jobs ≤ 1)
    × (map (λ (cs : ComponentStatus). cs.name) r.statuses
        ≡ bytes "transform-a" ∷ (bytes "transform-b" ∷ []))
    × All (λ (cs : ComponentStatus). cs.phase ≡ ComponentPhase.running) r.statuses
start_components-collide_example =
    start_components-collide nightly calm both_resolved plan transforms (bytes "transform-a")
      transforms.components [] [] transforms-Alike transforms-start

calm-Blocked : Blocked no_refs (λ p. outage ∷ []) nightly plan calm
unfolding first_transient_finding
calm-Blocked = record {
  finds_run = refl;
  updates = refl;
  is_inline = refl;
  has_id = refl;
  needs_no_secret = refl;
  is_transient = (outage, refl);
}

reconciles-outage_example :
    let w = reconciles no_refs (λ p. outage ∷ []) registry (λ n. calm) 6 fresh in
    (6 < 5 → w.status ≡ new_status) × (5 ≤ 6 → w.status.phase ≡ RunPhase.failed_application)
reconciles-outage_example =
    reconciles-outage no_refs (λ p. outage ∷ []) registry nightly plan (λ n. calm) 6 fresh
      (λ k. calm-Blocked) refl refl
