-- ===== src/Gateway/Session/Barrier.antt =====
-- ServerV2.Commit of pkg/datagateway/server_v2_commit.go: the sweep of writers that are not closed,
-- the wait for the pool, the results by bucket. Logs are left out.
pub mod Success
use datuplet.Prelude.{
  Assoc, Bool, List, Option, Result, Text, [], any, err, false, if◌then◌else◌, is_empty, is_some,
  lookup, nat_beq, none, not, ok, some, text_eq, true, ℕ, ◌%◌, ◌&&◌, ◌++◌, ◌+◌, ◌==◌, ◌^◌, ◌||◌,
  ◌∷◌,
}
use datuplet.Gateway.CommitPool.{CommitError, CommitPool, CommitResult, committed, wait}
use datuplet.Gateway.Session.{
  ServerV2, SessionError, WriterState, WrittenFile, close_table_writer, finalize_and_dispatch,
  set_writer, sweep_close_failed,
}

-- what the sweep does with a writer once its plane writer answered
unfoldable after_close :
    Text
    → WriterState
    → Result Text (WriterState × List WrittenFile)
    → ServerV2
    → ServerV2 × Option SessionError
after_close id ws (err e) s = (s, some (sweep_close_failed ws.bucket ws.table e))
after_close id ws (ok (ws', files)) s = finalize_and_dispatch (set_writer id ws' s) id ws'

-- the sweep of one writer, by its state when Commit began
unfoldable sweep_writer :
    (Text → Result Text (List WrittenFile))
    → Text
    → WriterState
    → ServerV2
    → ServerV2 × Option SessionError
unfolding after_close
sweep_writer close id ws s = after_close id ws (close_table_writer close id ws) s

-- the first error stays
abbrev first_error : Option SessionError → Option SessionError → Option SessionError
first_error none e = e
first_error (some e) _ = some e

unfoldable pub sweep :
    (Text → Result Text (List WrittenFile))
    → Assoc Text WriterState
    → ServerV2
    → ServerV2 × Option SessionError
unfolding sweep_writer
sweep close [] s = (s, none)
sweep close ((id, ws) ∷ rest) s =
    if ws.committed
    then sweep close rest s
    else let (s', e) = sweep_writer close id ws s in
      let (t, e') = sweep close rest s' in (t, first_error e e')

pub data TableStatus : Type 0 where
  status_committed status_skipped status_failed : TableStatus

pub data TableFailure : Type 0 where
  of_pool : CommitError → TableFailure
  commit_not_dispatched : TableFailure

pub record TableCommitResult : Type 0 where
  pub table : Text
  pub bucket : Text
  pub status : TableStatus
  pub failure : Option TableFailure
  pub files_added : ℕ
  pub rows_added : ℕ

unfoldable writer_rows_written : List WrittenFile → ℕ
writer_rows_written [] = 0
writer_rows_written (f ∷ fs) = f.rows + writer_rows_written fs

abbrev plain_result : Text → Text → TableStatus → TableCommitResult
plain_result table bucket status = record {
  table = table;
  bucket = bucket;
  status = status;
  failure = none;
  files_added = 0;
  rows_added = 0;
}

-- the files are an int32
unfoldable pooled_result : Assoc Text WriterState → CommitResult → TableCommitResult
unfolding writer_rows_written
pooled_result expected r = elim r.error [
  | some e ↦ record (plain_result r.table r.namespace status_failed) { failure = some (of_pool e) }
  | none ↦
      if nat_beq r.data_files_added 0 && is_empty r.snapshot_id_after
      then plain_result r.table r.namespace status_skipped
      else record (plain_result r.table r.namespace status_committed) {
        files_added = r.data_files_added % 2 ^ 32;
        rows_added = elim (lookup expected r.writer_id) [
          | none ↦ 0
          | some ws ↦ writer_rows_written ws.files
        ];
      }
]

-- a writer without a result of the pool
unfoldable missing_result : Bool → WriterState → TableCommitResult
unfolding writer_rows_written
missing_result has_pool ws =
    if is_empty ws.files
    then plain_result ws.table ws.bucket status_skipped
    else if has_pool
    then record (plain_result ws.table ws.bucket status_failed) {
      failure = some commit_not_dispatched;
    }
    else record (plain_result ws.table ws.bucket status_committed) {
      rows_added = writer_rows_written ws.files;
    }

-- bucketTables[bucket] = append(bucketTables[bucket], r)
unfoldable append_result :
    Assoc Text (List TableCommitResult)
    → Text
    → TableCommitResult
    → Assoc Text (List TableCommitResult)
append_result [] bucket r = (bucket, r ∷ []) ∷ []
append_result ((b, rs) ∷ m) bucket r =
    let rest = append_result m bucket r in
    if b == bucket then (b, rs ++ (r ∷ [])) ∷ m else (b, rs) ∷ rest

-- bucketTables, and allSuccess
pub record Report : Type 0 where
  pub tables : Assoc Text (List TableCommitResult)
  pub all_success : Bool

abbrev is_failed : TableStatus → Bool
is_failed status_failed = true
is_failed _ = false

-- each failed result, and no other, clears allSuccess
unfoldable note_result : Text → TableCommitResult → Report → Report
unfolding append_result
note_result bucket r report = record {
  tables = append_result report.tables bucket r;
  all_success = if is_failed r.status then false else report.all_success;
}

unfoldable report_pool : Assoc Text WriterState → List CommitResult → Report → Report
unfolding pooled_result note_result
report_pool expected [] report = report
report_pool expected (r ∷ rs) report =
    report_pool expected rs (note_result r.namespace (pooled_result expected r) report)

unfoldable seen : List CommitResult → Text → Bool
seen [] id = false
seen (r ∷ rs) id = r.writer_id == id || seen rs id

unfoldable reconcile : Bool → List CommitResult → Assoc Text WriterState → Report → Report
unfolding missing_result note_result seen
reconcile has_pool results [] report = report
reconcile has_pool results ((id, ws) ∷ rest) report =
    reconcile has_pool results rest (
      if seen results id then report else note_result ws.bucket (missing_result has_pool ws) report)

pub record BucketCommitResult : Type 0 where
  pub bucket : Text
  pub failed : Bool
  pub tables : List TableCommitResult

unfoldable bucket_results : Assoc Text (List TableCommitResult) → List BucketCommitResult
bucket_results [] = []
bucket_results ((b, rs) ∷ m) =
    record { bucket = b; failed = any (λ r. is_failed r.status) rs; tables = rs } ∷ bucket_results m

pub record CommitResponse : Type 0 where
  pub success : Bool
  pub buckets : List BucketCommitResult
  pub error : Option SessionError

-- the writers that Commit answers for, after its sweep, and the results that Wait returned
pub record Barrier : Type 0 where
  pub server : ServerV2
  pub expected : Assoc Text WriterState
  pub results : List CommitResult
  pub sweep_error : Option SessionError

-- `drain` is the run of the pool's tasks up to the return of Wait
unfoldable pub barrier :
    (Text → Result Text (List WrittenFile)) → (CommitPool → CommitPool) → ServerV2 → Barrier
barrier close drain s =
    let (t, e) = sweep close s.writers s in
    elim t.commit_pool [
      | none ↦ record { server = t; expected = t.writers; results = []; sweep_error = e }
      | some p ↦
          let (q, results) = wait (drain p) in
          record {
            server = record t { commit_pool = some q };
            expected = t.writers;
            results = results;
            sweep_error = e;
          }
    ]

unfoldable respond : Barrier → CommitResponse
unfolding report_pool reconcile bucket_results
respond b =
    let pooled =
      report_pool b.expected b.results
        (record { tables = []; all_success = not (is_some b.sweep_error) }) in
    let report = reconcile (is_some b.server.commit_pool) b.results b.expected pooled in
    record {
      success = report.all_success;
      buckets = bucket_results report.tables;
      error = b.sweep_error;
    }

unfoldable pub commit :
    (Text → Result Text (List WrittenFile))
    → (CommitPool → CommitPool)
    → ServerV2
    → ServerV2 × CommitResponse
unfolding respond
commit close drain s =
    let b = barrier close drain s in (record b.server { writers = [] }, respond b)
