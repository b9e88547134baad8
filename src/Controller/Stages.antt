-- ===== src/Controller/Stages.antt =====
-- startStage of pkg/k8s/controllers/pipelinerun_controller.go.
use datuplet.Prelude.{List, Option, Text, [], bytes, err, map, none, ok, set, some, ℕ, ◌++◌, ◌∷◌}
use datuplet.Pipeline.{ComponentSpec, PipelineSpec, StageSpec}
use datuplet.Controller.{
  Answers, ComponentPhase, ComponentStatus, Job, Outcome, PipelineRunSpec, PipelineRunStatus,
  StagePhase, StageStatus, World, failed, finished, requeue_after,
}
use datuplet.Controller.Admission.{update_status}
use datuplet.Controller.Jobs.{build_component_job, create_config_map, create_job}

abbrev pub component_status :
    ComponentPhase → Text → Text → Option ℕ → ComponentSpec → ComponentStatus
component_status phase pod message start comp = record {
  name = comp.name;
  phase = phase;
  exit_code = none;
  pod_name = pod;
  start_time = start;
  completion_time = none;
  message = message;
}

abbrev pub pending_status : ComponentSpec → ComponentStatus
pending_status = component_status ComponentPhase.pending [] [] none

-- why the starting of a stage stops: a Job cannot be built, or a call fails
pub data Stop : Type 0 where
  unbuilt : Text → Text → Stop
  broken : Text → Stop

pub record Starting : Type 0 where
  pub jobs : List Job
  pub config_maps : List Text
  pub statuses : List ComponentStatus
  pub stop : Option Stop

abbrev pub stopped : List Job → List Text → List ComponentStatus → Stop → Starting
stopped jobs maps statuses stop = record {
  jobs = jobs;
  config_maps = maps;
  statuses = statuses;
  stop = some stop;
}

abbrev pub running_first : Answers → ComponentSpec → Job → Starting → Starting
running_first a comp job rest = record rest {
  statuses = component_status ComponentPhase.running job.name [] (some a.now) comp ∷ rest.statuses;
}

module _ (run : PipelineRunSpec) (a : Answers) (s : PipelineRunStatus) where
  -- the loop that creates a config map and a Job for each component
  unfoldable pub start_components :
      PipelineSpec → List ComponentSpec → List Job → List Text → Starting
  unfolding create_config_map create_job
  start_components frozen [] jobs maps = record {
    jobs = jobs;
    config_maps = maps;
    statuses = [];
    stop = none;
  }
  start_components frozen (comp ∷ comps) jobs maps =
      elim (build_component_job run a s frozen comp) [
        | err e ↦
            stopped jobs maps
              (component_status ComponentPhase.failed_application [] e none comp
                ∷ map pending_status comps)
              (unbuilt comp.name e)
        | ok job ↦ elim a.set_owner [
          | some e ↦ stopped jobs maps (map pending_status (comp ∷ comps)) (broken e)
          | none ↦
              elim (create_config_map (a.create_config_map comp.name)
                (bytes "gateway-config-" ++ job.name) maps) [
                  | err e ↦ stopped jobs maps (map pending_status (comp ∷ comps)) (broken e)
                  | ok maps' ↦ elim (create_job (a.create_job comp.name) job jobs) [
                    | err e ↦ stopped jobs maps' (map pending_status (comp ∷ comps)) (broken e)
                    | ok jobs' ↦
                        running_first a comp job (start_components frozen comps jobs' maps')
                  ]
                ]
        ]
      ]

  -- what the end of the loop makes of the stage
  unfoldable pub after_start : World → ℕ → StageStatus → Starting → World × Outcome
  after_start w i st p =
      let w' = record w { jobs = p.jobs; config_maps = p.config_maps } in
      elim p.stop [
        | some (broken e) ↦ (w', failed e)
        | some (unbuilt name e) ↦
            update_status a w'
              (record s {
                stage_statuses = set s.stage_statuses i (record st {
                  component_statuses = p.statuses;
                  phase = StagePhase.failed_application;
                  message =
                      bytes "Failed to build job for component '" ++ (name ++ (bytes "': " ++ e));
                });
              })
              finished
        | none ↦
            update_status a w'
              (record s {
                stage_statuses = set s.stage_statuses i (record st {
                  component_statuses = p.statuses;
                  phase = StagePhase.running;
                  start_time = some a.now;
                });
              })
              (requeue_after 5)
      ]

  unfoldable pub start_stage : World → PipelineSpec → ℕ → StageSpec → StageStatus → World × Outcome
  unfolding start_components after_start
  start_stage w frozen i stage st =
      after_start w i st (start_components frozen stage.components w.jobs w.config_maps)
