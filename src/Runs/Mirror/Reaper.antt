-- ===== src/Runs/Mirror/Reaper.antt =====
-- ReapOnce and reapOrphanSecrets of pkg/pipelineapi/k8s/reaper.go: what one sweep deletes and which
-- statuses it hands to the updater, whose errors it only logs. The answers of the cluster are
-- parameters, instants and durations are numbers, and the clock is read once.
pub mod Spares
use datuplet.Prelude.{
  Bool, List, Option, Result, Text, [], bytes, err, false, filter, get_or, if◌then◌else◌, is_some,
  ltb, map, nat_beq, none, not, ok, some, text_eq, true, ℕ, ◌&&◌, ◌++◌, ◌+◌, ◌==◌, ◌||◌, ◌∷◌,
}
use datuplet.Runs.Store.{coalesce}
use datuplet.Runs.Mirror.{PipelineRun, RunStatus, pipeline_run_name}

unfoldable pub is_terminal_phase : Text → Bool
is_terminal_phase phase =
    phase == bytes "Succeeded" || phase == bytes "FailedUser" || phase == bytes "FailedApplication"

-- `none` is the zero time
unfoldable pub reap_age : PipelineRun → Option ℕ
unfolding is_terminal_phase
reap_age pr =
    if not (is_terminal_phase pr.phase)
    then pr.start_time
    else some (get_or (coalesce pr.completion_time pr.start_time) pr.creation_timestamp)

pub data DeleteOutcome : Type 0 where
  deleted not_found : DeleteOutcome
  delete_failed : Text → DeleteOutcome

abbrev was_deleted : DeleteOutcome → Bool
was_deleted deleted = true
was_deleted _ = false

-- what a sweep has asked of the cluster and of the updater
pub record Sweep : Type 0 where
  pub requested : List PipelineRun
  pub expired : List RunStatus

-- older than the cutoff `now - max_age`, compared without subtracting
unfoldable pub is_due : ℕ → ℕ → PipelineRun → Bool
unfolding reap_age
is_due now max_age pr = elim (reap_age pr) [ none ↦ false | some age ↦ ltb (age + max_age) now ]

abbrev pub mark : ℕ → Text → PipelineRun → Text → RunStatus
mark now message pr id = record {
  run_id = id;
  preview_id = none;
  namespace = pr.namespace;
  pipeline_run_name = pr.name;
  phase = bytes "Expired";
  current_stage = [];
  message = message;
  started_at = none;
  completed_at = some now;
  resource_version = 0;
  stage_statuses = none;
}

-- the mark of a run that was not done; its label must be an id
unfoldable expired_status : ℕ → Text → PipelineRun → List RunStatus
expired_status now message pr = elim (get_or pr.run_label none) [
  | none ↦ []
  | some id ↦ mark now message pr id ∷ []
]

-- the loop's body past its two guards
unfoldable reap_run : Bool → ℕ → Text → DeleteOutcome → PipelineRun → Sweep
unfolding expired_status
reap_run has_updater now message outcome pr = record {
  requested = pr ∷ [];
  expired =
      if has_updater && not (is_terminal_phase pr.phase) && was_deleted outcome
      then expired_status now message pr
      else [];
}

unfoldable reap_runs :
    Bool → ℕ → ℕ → Text → (PipelineRun → DeleteOutcome) → List PipelineRun → Sweep
unfolding reap_run
reap_runs has_updater now max_age message delete [] = record { requested = []; expired = [] }
reap_runs has_updater now max_age message delete (pr ∷ prs) =
    let rest = reap_runs has_updater now max_age message delete prs in
    let this = reap_run has_updater now message (delete pr) pr in
    if is_due now max_age pr
    then record {
      requested = this.requested ++ rest.requested;
      expired = this.expired ++ rest.expired;
    }
    else rest

abbrev labelled : List PipelineRun → List PipelineRun
labelled prs = filter (λ pr. is_some pr.run_label) prs

pub data ReapError : Type 0 where
  max_age_not_positive : ReapError
  list_failed : Text → ReapError

-- ReapOnce up to the secrets; `listed` is the answer to the list call, which selects by the label
unfoldable pub reap_once :
    Bool
    → ℕ
    → ℕ
    → (ℕ → Text)
    → Result Text (List PipelineRun)
    → (PipelineRun → DeleteOutcome)
    → Result ReapError Sweep
unfolding reap_runs
reap_once has_updater now max_age message listed delete =
    if nat_beq max_age 0 then err max_age_not_positive else elim listed [
      | err e ↦ err (list_failed e)
      | ok prs ↦ ok (reap_runs has_updater now max_age (message max_age) delete (labelled prs))
    ]

pub record Secret : Type 0 where
  pub name : Text
  pub owner_references : ℕ
  pub creation_timestamp : Option ℕ

unfoldable pub is_orphan : ℕ → ℕ → Secret → Bool
is_orphan now max_age sec =
    nat_beq sec.owner_references 0
    && elim sec.creation_timestamp [ none ↦ false | some t ↦ ltb (t + max_age) now ]

-- the secrets that reapOrphanSecrets deletes: it goes on past a namespace that it cannot list
unfoldable pub reap_orphan_secrets :
    ℕ → ℕ → List (Text × Result Text (List Secret)) → List (Text × Secret)
unfolding is_orphan
reap_orphan_secrets now max_age [] = []
reap_orphan_secrets now max_age ((ns, err e) ∷ rest) = reap_orphan_secrets now max_age rest
reap_orphan_secrets now max_age ((ns, ok secrets) ∷ rest) =
    map (λ sec. (ns, sec)) (filter (is_orphan now max_age) secrets)
    ++ reap_orphan_secrets now max_age rest
