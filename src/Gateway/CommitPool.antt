-- ===== src/Gateway/CommitPool.antt =====
-- pkg/datagateway/commit_pool.go: the pool of inline iceberg commits, as steps of its goroutines. A
-- critical section is one step. By the pool's contract no Dispatch runs during Wait, so Wait is one
-- step, taken when the tasks are done or its context is. Metrics, logs and durations are left out,
-- and so are the partition tuples, which the pool hands to CommitFn unread.
pub mod Key
pub mod Totals
pub mod Counts
pub mod Kept
pub mod Exact
use datuplet.Prelude.{
  Bool, List, Option, Result, Text, [], err, false, get_elem?, if◌then◌else◌, leb, nat_beq, none,
  ok, set, some, suc, true, zero, ℕ, ◌%◌, ◌++◌, ◌+◌, ◌-◌, ◌<◌, ◌^◌, ◌∷◌, ◌≡◌,
}
use datuplet.Gateway.CommitPool.Key.{compute_idempotency_key}

pub data WriteMode : Type 0 where
  append full_load : WriteMode

pub record CommitJob : Type 0 where
  pub writer_id : Text
  pub namespace : Text
  pub table : Text
  pub run_id : Text
  pub data_paths : List Text
  pub mode : WriteMode

-- An error of a commit: the context's after Cancel, or what the catalog or CommitFn returned.
pub data CommitError : Type 0 where
  context_canceled : CommitError
  commit_failed : Text → CommitError

pub record CommitResult : Type 0 where
  pub writer_id : Text
  pub namespace : Text
  pub table : Text
  pub error : Option CommitError
  pub snapshot_id_before : Text
  pub snapshot_id_after : Text
  pub data_files_added : ℕ
  pub idempotency_key : Text
  pub idempotency_hit : Bool

-- what icebergjob.CommitTableFiles returns on success
pub record TableCommit : Type 0 where
  pub before : Text
  pub after : Text
  pub files_added : ℕ
  pub hit : Bool

-- What the catalog and CommitFn answer to one commit; `none` is a nil result with a nil error.
pub data Outcome : Type 0 where
  no_catalog : CommitError → Outcome
  failed : CommitError → Outcome
  committed : Option TableCommit → Outcome

-- where a goroutine of Dispatch stands: before its select, with a place of the semaphore, and after
-- its result is recorded, with or without a place to give back
pub data Phase : Type 0 where
  queued holding recorded_holding recorded : Phase

pub record Task : Type 0 where
  pub sid : ℕ
  pub job : CommitJob
  pub phase : Phase

pub record CommitPool : Type 0 where
  pub workers : ℕ
  pub max_queue_size : ℕ
  pub inflight : ℕ
  pub closed : Bool
  pub results : List CommitResult
  pub session_id : ℕ
  pub tasks : List Task

-- NewCommitPool; a size that is not positive (0 here) takes its default
unfoldable pub new_commit_pool : ℕ → ℕ → CommitPool
new_commit_pool workers max_queue_size = record {
  workers = if nat_beq workers 0 then 4 else workers;
  max_queue_size = if nat_beq max_queue_size 0 then 256 else max_queue_size;
  inflight = 0;
  closed = false;
  results = [];
  session_id = 0;
  tasks = [];
}

pub data DispatchError : Type 0 where
  pool_closed queue_full : DispatchError

unfoldable pub dispatch : CommitPool → CommitJob → Result DispatchError CommitPool
dispatch p j =
    if p.closed
    then err pool_closed
    else if leb p.max_queue_size p.inflight
    then err queue_full
    else ok (record p {
      inflight = p.inflight + 1;
      tasks = record { sid = p.session_id; job = j; phase = queued } ∷ p.tasks;
    })

empty_result : CommitJob → Text → Option CommitError → CommitResult
empty_result j key error = record {
  writer_id = j.writer_id;
  namespace = j.namespace;
  table = j.table;
  error = error;
  snapshot_id_before = [];
  snapshot_id_after = [];
  data_files_added = 0;
  idempotency_key = key;
  idempotency_hit = false;
}

-- run: the result of a job, from what the catalog and CommitFn answer
unfoldable pub run : (Text → Text) → CommitJob → Outcome → CommitResult
unfolding empty_result
run sha256_hex j (no_catalog e) =
    empty_result j (compute_idempotency_key sha256_hex j.run_id j.namespace j.table j.data_paths)
      (some e)
run sha256_hex j (failed e) =
    empty_result j (compute_idempotency_key sha256_hex j.run_id j.namespace j.table j.data_paths)
      (some e)
run sha256_hex j (committed none) =
    empty_result j (compute_idempotency_key sha256_hex j.run_id j.namespace j.table j.data_paths)
      none
run sha256_hex j (committed (some res)) =
    record (empty_result j
      (compute_idempotency_key sha256_hex j.run_id j.namespace j.table j.data_paths) none) {
        snapshot_id_before = res.before;
        snapshot_id_after = res.after;
        data_files_added = res.files_added;
        idempotency_hit = res.hit;
      }

-- record: a result of an older session is dropped
unfoldable pub record_result : ℕ → CommitResult → CommitPool → CommitPool
record_result sid cr p =
    if nat_beq p.session_id sid then record p { results = p.results ++ (cr ∷ []) } else p

abbrev pub holds : Phase → Bool
holds holding = true
holds recorded_holding = true
holds _ = false

-- the places of the semaphore that are taken
unfoldable pub holders : List Task → ℕ
holders [] = 0
holders (t ∷ ts) = (if holds t.phase then 1 else 0) + holders ts

unfoldable pub with_phase : ℕ → Task → Phase → CommitPool → CommitPool
with_phase i t phase p = record p { tasks = set p.tasks i (record t { phase = phase }) }

-- `p.sem <- struct{}{}` in the select of task `i`, which has a place to take
unfoldable pub acquire : ℕ → Task → CommitPool → CommitPool
unfolding with_phase
acquire i t p = with_phase i t holding p

-- the other case of the select, once the pool's context is done
unfoldable pub abandon : ℕ → Task → CommitPool → CommitPool
unfolding with_phase record_result empty_result
abandon i t p =
    record_result t.sid (empty_result t.job [] (some context_canceled)) (with_phase i t recorded p)

-- run, up to its record
unfoldable pub complete : (Text → Text) → ℕ → Task → Outcome → CommitPool → CommitPool
unfolding with_phase record_result
complete sha256_hex i t outcome p =
    record_result t.sid (run sha256_hex t.job outcome) (with_phase i t recorded_holding p)

-- the first deferred function: `<-p.sem`
unfoldable pub release : ℕ → Task → CommitPool → CommitPool
unfolding with_phase
release i t p = with_phase i t recorded p

unfoldable pub drop_at : ℕ → List Task → List Task
drop_at i [] = []
drop_at zero (t ∷ ts) = ts
drop_at (suc i) (t ∷ ts) = t ∷ drop_at i ts

-- the other deferred function: `p.inflight--` and `p.wg.Done()`
unfoldable pub finish : ℕ → CommitPool → CommitPool
unfolding drop_at
finish i p = record p { inflight = p.inflight - 1; tasks = drop_at i p.tasks }

-- Wait once its select has passed: the results so far, and the pool with the next session. The
-- counter is a uint64.
unfoldable pub wait : CommitPool → CommitPool × List CommitResult
wait p = (record p { results = []; session_id = (p.session_id + 1) % 2 ^ 64 }, p.results)

unfoldable pub cancel : CommitPool → CommitPool
cancel p = record p { closed = true }

-- A pool with the writers whose jobs were dispatched in the current session.
pub record Session : Type 0 where
  pub pool : CommitPool
  pub dispatched : List Text

pub data Step (sha256_hex : Text → Text) : Session → Session → Type 0 where
  dispatch_step :
      (s : Session) (j : CommitJob) (p : CommitPool)
      → dispatch s.pool j ≡ ok p
      → Step sha256_hex s (record { pool = p; dispatched = j.writer_id ∷ s.dispatched })
  acquire_step :
      (s : Session) (i : ℕ) (t : Task)
      → get_elem? s.pool.tasks i ≡ some t
      → t.phase ≡ queued
      → holders s.pool.tasks < s.pool.workers
      → Step sha256_hex s (record s { pool = acquire i t s.pool })
  abandon_step :
      (s : Session) (i : ℕ) (t : Task)
      → get_elem? s.pool.tasks i ≡ some t
      → t.phase ≡ queued
      → s.pool.closed ≡ true
      → Step sha256_hex s (record s { pool = abandon i t s.pool })
  complete_step :
      (s : Session) (i : ℕ) (t : Task) (outcome : Outcome)
      → get_elem? s.pool.tasks i ≡ some t
      → t.phase ≡ holding
      → Step sha256_hex s (record s { pool = complete sha256_hex i t outcome s.pool })
  release_step :
      (s : Session) (i : ℕ) (t : Task)
      → get_elem? s.pool.tasks i ≡ some t
      → t.phase ≡ recorded_holding
      → Step sha256_hex s (record s { pool = release i t s.pool })
  finish_step :
      (s : Session) (i : ℕ) (t : Task)
      → get_elem? s.pool.tasks i ≡ some t
      → t.phase ≡ recorded
      → Step sha256_hex s (record s { pool = finish i s.pool })
  -- Wait returns, drained or on its context; a process does not come to its 2^64th session.
  wait_step :
      (s : Session)
      → s.pool.session_id + 1 < 2 ^ 64
      → Step sha256_hex s (record { pool = (wait s.pool).0; dispatched = [] })
  cancel_step : (s : Session) → Step sha256_hex s (record s { pool = cancel s.pool })

pub data Reach (sha256_hex : Text → Text) (start : Session) : Session → Type 0 where
  here : Reach sha256_hex start start
  next : {s u : Session} → Reach sha256_hex start s → Step sha256_hex s u → Reach sha256_hex start u
