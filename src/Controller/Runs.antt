-- ===== src/Controller/Runs.antt =====
-- The runs of pkg/k8s/controllers/pipelinerun_controller.go: sequences of reconciles, between which the
-- cluster may change anything but the status, and the operator may restart.
use datuplet.Prelude.{Assoc, List, Option, Text, [], none}
use datuplet.Pipeline.{Finding, Pipeline, ResolvedComponent}
use datuplet.Controller.{Answers, Job, PipelineRunStatus, Pod, RunPhase, World}
use datuplet.Controller.Reconcile.{reconcile_run}

pub data Step (refs : Pipeline → List Text) : World → World → Type 0 where
  reconciled :
      (w : World) (validated : Pipeline → List Finding)
      (resolve : Text → Text → Option ResolvedComponent × List Finding) (a : Answers)
      → Step refs w (reconcile_run refs validated resolve a w).0
  drifted :
      (w : World) (jobs : List Job) (maps : List Text) (snapshots : Assoc Text (Assoc Text Text))
      (pods : List Pod)
      → Step refs w
          (record w { jobs = jobs; config_maps = maps; snapshots = snapshots; pods = pods })
  restarted : (w : World) → Step refs w (record w { transient_retries = 0; not_found_retries = 0 })

pub data Reach (refs : Pipeline → List Text) (w : World) : World → Type 0 where
  here : Reach refs w w
  next : {u v : World} → Reach refs w u → Step refs u v → Reach refs w v

-- the status of a run that no reconcile has seen
abbrev pub new_status : PipelineRunStatus
new_status = record {
  phase = RunPhase.unset;
  run_id = [];
  current_stage = [];
  stage_statuses = [];
  start_time = none;
  completion_time = none;
  message = [];
  observed_generation = 0;
  secrets_resolved = none;
  pipeline_generation = 0;
  resolved_spec = none;
  components = [];
}
