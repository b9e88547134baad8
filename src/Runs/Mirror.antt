-- ===== src/Runs/Mirror.antt =====
-- What mirrors PipelineRuns into the rows of runs: DBRunUpdater (pkg/pipelineapi/k8s/db_updater.go), the
-- observer's reconcileOne (observer.go), the decorator that drops writes of an unchanged state
-- (coalesce.go) and the reaper's sweep (reaper.go). The validation of names, the hash and the printing
-- of JSON and of uuids are parameters; an id of a run stands as its text.
pub mod Coalesce
pub mod Reaper
use datuplet.Prelude.{
  Assoc, Bool, Option, Result, Text, [], bytes, err, false, get_or, if◌then◌else◌, is_empty, lookup,
  nat_beq, none, not, ok, some, take, text_eq, true, ℕ, ◌&&◌, ◌++◌, ◌-◌, ◌==◌, ◌∷◌,
}
use datuplet.Runs.Store.{
  Run, StoreError, UpdateRunPhaseOpts, db_failed, run_not_found, update_run_phase,
}

pub record RunStatus : Type 0 where
  pub run_id : Text
  pub preview_id : Option Text
  pub namespace : Text
  pub pipeline_run_name : Text
  pub phase : Text
  pub current_stage : Text
  pub message : Text
  pub started_at : Option ℕ
  pub completed_at : Option ℕ
  pub resource_version : ℕ
  pub stage_statuses : Option Text

-- strings.ReplaceAll(s, ".", "-")
unfoldable dots_to_dashes : Text → Text
dots_to_dashes [] = []
dots_to_dashes (c ∷ s) = (if nat_beq c 46 then 45 else c) ∷ dots_to_dashes s

-- strings.TrimRight(s, "-")
unfoldable trim_dashes : Text → Text
trim_dashes [] = []
trim_dashes (c ∷ s) =
    let rest = trim_dashes s in if nat_beq c 45 && is_empty rest then [] else c ∷ rest

-- PipelineRunName; `hash8` is the hex of the first four bytes of the SHA-256
unfoldable pub pipeline_run_name : (Text → Bool) → (Text → Text) → Text → Text → Text
unfolding dots_to_dashes trim_dashes
pipeline_run_name is_subdomain hash8 pipeline run_id =
    let name = pipeline ++ (bytes "-" ++ run_id) in
    let prefix = trim_dashes (dots_to_dashes (take (63 - 46) pipeline)) in
    if is_subdomain name
    then name
    else (if is_empty prefix then bytes "pl" else prefix)
      ++ (bytes "-" ++ (hash8 pipeline ++ (bytes "-" ++ run_id)))

abbrev opts_of : RunStatus → UpdateRunPhaseOpts
opts_of s = record {
  phase = s.phase;
  current_stage = s.current_stage;
  message = s.message;
  started_at = s.started_at;
  completed_at = s.completed_at;
  observed_rv = s.resource_version;
  stage_statuses = s.stage_statuses;
  guard_terminal = true;
}

abbrev absorb_missing : Result StoreError Bool → Result StoreError Bool
absorb_missing (err run_not_found) = ok false
absorb_missing r = r

-- DBRunUpdater.Update; `lookup_failure` and `failure` are errors of the query and of the update
unfoldable pub db_update :
    (Text → Bool)
    → (Text → Text)
    → Option Text
    → Option Text
    → ℕ
    → Assoc Text Run
    → RunStatus
    → Assoc Text Run × Result StoreError Bool
db_update is_subdomain hash8 (some failure) update_failure now runs s =
    (runs, err (db_failed failure))
db_update is_subdomain hash8 none update_failure now runs s = elim (lookup runs s.run_id) [
  | none ↦ (runs, ok false)
  | some r ↦
      if not (s.namespace == r.k8s_namespace)
      then (runs, ok false)
      else if not
          (s.pipeline_run_name == pipeline_run_name is_subdomain hash8 r.pipeline_name s.run_id)
      then (runs, ok false)
      else let (runs', result) = update_run_phase update_failure now runs s.run_id (opts_of s) in
        (runs', absorb_missing result)
]

-- the parts of a PipelineRun that the observer and the reaper read; the labels of the ids and the
-- resource version are parsed, `none` where that fails or there is none
pub record PipelineRun : Type 0 where
  pub namespace : Text
  pub name : Text
  pub being_deleted : Bool
  pub preview_label : Option (Option Text)
  pub run_label : Option (Option Text)
  pub phase : Text
  pub current_stage : Text
  pub message : Text
  pub resource_version : Option ℕ
  pub start_time : Option ℕ
  pub completion_time : Option ℕ
  pub creation_timestamp : ℕ
  pub stage_statuses : Option Text

-- the id that the labels give, a preview's first; `none` where there is none
unfoldable observed_id : PipelineRun → Option Text
observed_id pr = elim pr.preview_label [ some id ↦ id | none ↦ get_or pr.run_label none ]

-- the status that reconcileOne hands to its updater, if it does
unfoldable pub observed_status : PipelineRun → Option RunStatus
unfolding observed_id
observed_status pr = if pr.being_deleted then none else elim (observed_id pr) [
  | none ↦ none
  | some id ↦
      if is_empty pr.phase
      then none
      else if nat_beq (get_or pr.resource_version 0) 0
      then none
      else some (record {
        run_id = id;
        preview_id = get_or pr.preview_label none;
        namespace = pr.namespace;
        pipeline_run_name = pr.name;
        phase = pr.phase;
        current_stage = pr.current_stage;
        message = pr.message;
        started_at = pr.start_time;
        completed_at = pr.completion_time;
        resource_version = get_or pr.resource_version 0;
        stage_statuses = pr.stage_statuses;
      })
]
