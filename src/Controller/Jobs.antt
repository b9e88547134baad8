-- ===== src/Controller/Jobs.antt =====
-- The Job of a component (pkg/k8s/controllers/pipelinerun_jobs.go) and the cancelling of pods
-- (pipelinerun_controller.go).
use datuplet.Prelude.{
  Bool, List, Option, Result, Text, [], any, bytes, contains, err, if◌then◌else◌, is_empty, is_some,
  length, ltb, none, not, ok, some, take, text_eq, true, ◌&&◌, ◌++◌, ◌==◌, ◌∷◌,
}
use datuplet.Pipeline.{ComponentSpec, PipelineSpec, StageSpec}
use datuplet.Controller.{
  Answers, Job, PipelineRunSpec, PipelineRunStatus, Pod, ResolvedComponentStatus,
}

unfoldable pub short_id : Text → Text
short_id id = if ltb (length id) 8 then id else take 8 id

-- the name of the Job of a component, by the run's name, the stage, the component and the run's id
unfoldable pub component_job_name : Text → Text → Text → Text → Text
unfolding short_id
component_job_name run_name stage_name component_name run_id =
    bytes "datuplet-"
    ++ (take 15 run_name
        ++ (bytes "-"
            ++ (take 10 stage_name
                ++ (bytes "-" ++ (take 10 component_name ++ (bytes "-" ++ short_id run_id))))))

-- the last stage that has a component of the name
unfoldable pub stage_of : List StageSpec → Text → Option StageSpec
stage_of [] name = none
stage_of (s ∷ stages) name =
    let here = if any (λ (c : ComponentSpec). c.name == name) s.components then some s else none in
    elim (stage_of stages name) [ some later ↦ some later | none ↦ here ]

unfoldable pub resolved_of : List ResolvedComponentStatus → Text → Option ResolvedComponentStatus
resolved_of [] name = none
resolved_of (rc ∷ rcs) name =
    let rest = resolved_of rcs name in if rc.name == name then some rc else rest

-- buildComponentJob, over the frozen specification
unfoldable pub build_component_job :
    PipelineRunSpec → Answers → PipelineRunStatus → PipelineSpec → ComponentSpec → Result Text Job
unfolding stage_of resolved_of component_job_name
build_component_job run a s frozen comp = elim (stage_of frozen.stages comp.name) [
  | none ↦ err (bytes "component not found in resolved spec")
  | some stage ↦ elim (resolved_of s.components comp.name) [
    | none ↦
        err (bytes "component " ++ (a.quote comp.name ++ bytes " not found in resolved components"))
    | some rc ↦ elim (a.gateway_config comp.name) [
      | some e ↦ err (bytes "component " ++ (a.quote comp.name ++ (bytes ": " ++ e)))
      | none ↦ ok (record {
        name = component_job_name run.name stage.name comp.name s.run_id;
        component = comp.name;
        image = rc.image;
        backoff_limit = if is_some run.preview then 0 else 1;
      })
    ]
  ]
]

-- Create of a Job: one that is there already is kept
unfoldable pub create_job : Option Text → Job → List Job → Result Text (List Job)
create_job (some e) job jobs = err e
create_job none job jobs =
    ok (if any (λ (j : Job). j.name == job.name) jobs then jobs else job ∷ jobs)

unfoldable pub create_config_map : Option Text → Text → List Text → Result Text (List Text)
create_config_map (some e) name maps = err e
create_config_map none name maps = ok (if contains maps name then maps else name ∷ maps)

unfoldable pub delete_job : Text → List Job → List Job
delete_job name [] = []
delete_job name (j ∷ jobs) =
    let rest = delete_job name jobs in if j.name == name then rest else j ∷ rest

-- annotates each pod of the run that is not annotated yet and whose patch is accepted
unfoldable pub cancel_pods : (Text → Bool) → Text → List Pod → List Pod
cancel_pods patched run_id [] = []
cancel_pods patched run_id (p ∷ pods) =
    (if p.run_id == run_id && (not p.cancelled && patched p.name)
      then record p { cancelled = true }
      else p)
    ∷ cancel_pods patched run_id pods

unfoldable pub propagate_cancel_to_pods : Answers → Text → List Pod → List Pod
unfolding cancel_pods
propagate_cancel_to_pods a run_id pods =
    if is_empty run_id
    then pods
    else if a.list_pods
    then cancel_pods a.patch_pod run_id pods
    else pods
