-- ===== src/Runs/Store.antt =====
-- The row of a run in pkg/pipelineapi/store/run.go: CreateRun, UpdateRunPhase and its SQL. Instants and
-- resource versions are numbers; the joined names of the project's namespace and of the pipeline are
-- columns; the ids that nothing here reads are left out. A statement fails as a whole or not at all.
pub mod Converges
use datuplet.Prelude.{
  Assoc, Bool, Option, Result, Text, [], bytes, err, false, if◌then◌else◌, insert, lookup, ltb, max,
  nat_beq, none, not, ok, some, text_eq, true, ℕ, ◌&&◌, ◌==◌, ◌||◌,
}

pub record Run : Type 0 where
  pub k8s_namespace : Text
  pub pipeline_name : Text
  pub phase : Text
  pub current_stage : Text
  pub message : Text
  pub started_at : Option ℕ
  pub completed_at : Option ℕ
  pub stage_statuses : Option Text
  pub observed_rv : ℕ
  pub updated_at : ℕ

pub data StoreError : Type 0 where
  run_not_found : StoreError
  db_failed : Text → StoreError

-- the columns' defaults and what CreateRun inserts
unfoldable pub create_run : ℕ → Text → Text → Run
create_run now k8s_namespace pipeline_name = record {
  k8s_namespace = k8s_namespace;
  pipeline_name = pipeline_name;
  phase = bytes "Pending";
  current_stage = [];
  message = [];
  started_at = none;
  completed_at = none;
  stage_statuses = none;
  observed_rv = 0;
  updated_at = now;
}

pub record UpdateRunPhaseOpts : Type 0 where
  pub phase : Text
  pub current_stage : Text
  pub message : Text
  pub started_at : Option ℕ
  pub completed_at : Option ℕ
  pub observed_rv : ℕ
  pub stage_statuses : Option Text
  pub guard_terminal : Bool

abbrev pub coalesce {ℓ} : {A : Type ℓ} → Option A → Option A → Option A
coalesce none b = b
coalesce (some a) b = some a

-- a phase that is written out of band: '{Cancelled,Expired}'
unfoldable pub is_out_of_band : Text → Bool
is_out_of_band phase = phase == bytes "Cancelled" || phase == bytes "Expired"

-- the WHERE of the statement, past `id = $1`
unfoldable pub admits : UpdateRunPhaseOpts → Run → Bool
unfolding is_out_of_band
admits o r =
    (nat_beq o.observed_rv 0 || ltb r.observed_rv o.observed_rv)
    && not (o.guard_terminal && is_out_of_band r.phase)

-- its SET
unfoldable pub written : ℕ → UpdateRunPhaseOpts → Run → Run
written now o r = record r {
  phase = o.phase;
  current_stage = o.current_stage;
  message = o.message;
  started_at = coalesce o.started_at r.started_at;
  completed_at = coalesce o.completed_at r.completed_at;
  stage_statuses = coalesce o.stage_statuses r.stage_statuses;
  observed_rv = max r.observed_rv o.observed_rv;
  updated_at = now;
}

-- the row, and whether it was affected
unfoldable pub update_row : ℕ → UpdateRunPhaseOpts → Run → Run × Bool
unfolding admits written
update_row now o r = if admits o r then (written now o r, true) else (r, false)

-- UpdateRunPhase; `failure` is an error of the database
unfoldable pub update_run_phase :
    Option Text
    → ℕ
    → Assoc Text Run
    → Text
    → UpdateRunPhaseOpts
    → Assoc Text Run × Result StoreError Bool
unfolding update_row
update_run_phase (some failure) now runs id o = (runs, err (db_failed failure))
update_run_phase none now runs id o =
    let missing : Result StoreError Bool =
      if nat_beq o.observed_rv 0 && not o.guard_terminal then err run_not_found else ok false in
    elim (lookup runs id) [
      | none ↦ (runs, missing)
      | some r ↦
          let (r', affected) = update_row now o r in
          (insert runs id r', if affected then ok true else missing)
    ]
