-- ===== src/Tests/Updates.antt =====
-- Concrete runs of the rows of runs, of the decorator of their updates and of the reaper.
use datuplet.Prelude.{
  All, Assoc, List, Result, Text, [], arith, bytes, false, if◌then◌else◌, is_some, lookup, nat_beq,
  none, ok, refl, some, text_beq, true, ℕ, ◌<◌, ◌∷◌, ◌≡◌, ◌≤◌,
}
use datuplet.Runs.Store.{Run, UpdateRunPhaseOpts, is_out_of_band}
use datuplet.Runs.Store.Converges.{
  events, newest, proposed, replay, replay-closed, replay-keeps, replay-newest, shown, shown_at,
}
use datuplet.Runs.Mirror.{PipelineRun, RunStatus}
use datuplet.Runs.Mirror.Coalesce.{CoalesceEntry, Key, equals_for_db}
use datuplet.Runs.Mirror.Coalesce.Content.{coalesced, content, direct}
use datuplet.Runs.Mirror.Coalesce.Late.{late_version-coalesced}
use datuplet.Runs.Mirror.Coalesce.Transparent.{coalesced-content}
use datuplet.Runs.Mirror.Reaper.{DeleteOutcome, Sweep, deleted, is_due, mark, reap_once}
use datuplet.Runs.Mirror.Reaper.Spares.{IsReapable, Marks, reap_once-spares}

abbrev row : Run
row = record {
  k8s_namespace = bytes "p1";
  pipeline_name = bytes "daily";
  phase = bytes "Pending";
  current_stage = [];
  message = [];
  started_at = none;
  completed_at = none;
  stage_statuses = none;
  observed_rv = 0;
  updated_at = 10;
}

-- version 9 is the end of the run, the ones before it are not
abbrev status_at : ℕ → UpdateRunPhaseOpts
status_at rv = record {
  phase = if nat_beq rv 9 then bytes "Succeeded" else bytes "Running";
  current_stage = bytes "load";
  message = [];
  started_at = some 11;
  completed_at = none;
  observed_rv = rv;
  stage_statuses = none;
  guard_terminal = true;
}

status_at-open : (rv : ℕ) → is_out_of_band (status_at rv).phase ≡ false
unfolding is_out_of_band text_beq
status_at-open rv = ground arith

-- the end arrives before an older event
replay-newest_example :
    let r = replay row (events status_at ((20, 9) ∷ (21, 7) ∷ [])) in
    (r.observed_rv ≡ 9) × (shown r ≡ (bytes "Succeeded", bytes "load", []))
unfolding newest shown_at shown proposed is_out_of_band text_beq
replay-newest_example =
    replay-newest status_at row ((20, 9) ∷ (21, 7) ∷ []) (omega arith, (omega arith, tt))
      status_at-open refl

abbrev cancelled_row : Run
cancelled_row = record row { phase = bytes "Cancelled" }

replay-closed_example : replay cancelled_row (events status_at ((20, 9) ∷ [])) ≡ cancelled_row
unfolding is_out_of_band text_beq events
replay-closed_example =
    replay-closed cancelled_row (events status_at ((20, 9) ∷ [])) refl (refl, tt)

replay-keeps_example :
    let r' = replay cancelled_row (events status_at ((20, 9) ∷ [])) in
    (is_some cancelled_row.started_at ≡ true → is_some r'.started_at ≡ true)
    × (is_some cancelled_row.completed_at ≡ true → is_some r'.completed_at ≡ true)
    × (is_some cancelled_row.stage_statuses ≡ true → is_some r'.stage_statuses ≡ true)
    × (cancelled_row.observed_rv ≤ r'.observed_rv)
replay-keeps_example = replay-keeps cancelled_row (events status_at ((20, 9) ∷ []))

abbrev key : Key
key = record { namespace = bytes "p1"; name = bytes "daily-1" }

abbrev seen_at : ℕ → Text → RunStatus
seen_at rv phase = record {
  run_id = bytes "1";
  preview_id = none;
  namespace = bytes "p1";
  pipeline_run_name = bytes "daily-1";
  phase = phase;
  current_stage = bytes "load";
  message = [];
  started_at = some 11;
  completed_at = none;
  resource_version = rv;
  stage_statuses = none;
}

abbrev running : Text
running = bytes "Running"

-- the second event repeats the first
abbrev seen_events : List (ℕ × RunStatus)
seen_events =
    (20, seen_at 3 running) ∷ (21, seen_at 5 running) ∷ (22, seen_at 6 (bytes "Succeeded")) ∷ []

coalesced-content_example :
    content (coalesced ([], row) seen_events).1 ≡ content (direct row seen_events)
coalesced-content_example =
    coalesced-content key row seen_events
      (refl, omega arith, refl, (refl, omega arith, refl, (refl, omega arith, refl, tt)))

-- version 9 is dropped as unchanged, and version 4 of before comes late
late_version-coalesced_example :
    let es : List (ℕ × RunStatus) =
      (30, seen_at 9 running) ∷ (30, seen_at 4 (bytes "Pending")) ∷ [] in
    let cache : Assoc Key CoalesceEntry =
      (key, record { status = seen_at 3 running; written_at = 20 }) ∷ [] in
    ((coalesced (cache, record row { phase = running; observed_rv = 3 }) es).1.phase
      ≡ bytes "Pending")
    × ((direct (record row { phase = running; observed_rv = 3 }) es).phase ≡ running)
unfolding lookup text_beq equals_for_db is_out_of_band
late_version-coalesced_example =
    late_version-coalesced 30 ((key, record { status = seen_at 3 running; written_at = 20 }) ∷ [])
      (record row { phase = running; observed_rv = 3 })
      (record { status = seen_at 3 running; written_at = 20 }) (seen_at 9 running)
      (seen_at 4 (bytes "Pending")) refl refl refl refl refl (omega arith) (omega arith)

abbrev old_run : PipelineRun
old_run = record {
  namespace = bytes "p1";
  name = bytes "daily-1";
  being_deleted = false;
  preview_label = none;
  run_label = some (some (bytes "1"));
  phase = running;
  current_stage = [];
  message = [];
  resource_version = some 3;
  start_time = some 5;
  completion_time = none;
  creation_timestamp = 4;
  stage_statuses = none;
}

abbrev delete_all : PipelineRun → DeleteOutcome
delete_all pr = deleted

abbrev no_message : ℕ → Text
no_message n = []

abbrev swept : Sweep
swept = record { requested = old_run ∷ []; expired = mark 100 [] old_run (bytes "1") ∷ [] }

reap_once-spares_example :
    (0 < 60)
    × ((prs : List PipelineRun) × (◌≡◌ {A = Result Text (List PipelineRun)}
          (ok (old_run ∷ []))
          (ok prs))
        × All (IsReapable 100 60 prs) swept.requested
        × All (Marks delete_all swept.requested) swept.expired)
unfolding reap_once is_due text_beq
reap_once-spares_example =
    reap_once-spares true 100 60 no_message (ok (old_run ∷ [])) delete_all swept refl
