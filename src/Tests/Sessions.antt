-- ===== src/Tests/Sessions.antt =====
-- Concrete runs of the commit pool and of the session barrier.
use mathlib.Core.List.{Permᴰ}
use datuplet.Prelude.{
  List, Result, Text, [], all, any, arith, bytes, false, insert, is_empty, is_some, length, none,
  not, ok, refl, some, text_beq, true, ◌&&◌, ◌||◌, ◌∷◌, ◌≡◌, ◌≤◌,
}
use datuplet.Gateway.CommitPool.{
  CommitJob, CommitPool, Outcome, Phase, Reach, Session, acquire, acquire_step, append, committed,
  complete, complete_step, dispatch, dispatch_step, drop_at, finish, finish_step, here, holders,
  holding, new_commit_pool, next, queued, record_result, recorded, recorded_holding, release,
  release_step, run, wait, with_phase,
}
use datuplet.Gateway.CommitPool.Key.{
  compute_idempotency_key, key-perm, key_input, key_input-injective, sort, text_leb,
}
use datuplet.Gateway.CommitPool.Counts.{jobs_of, results_of}
use datuplet.Gateway.CommitPool.Exact.{Reach-bounds, fresh, wait-exact}
use datuplet.Gateway.Session.{
  Config, ServerV2, WrittenFile, close_table_writer, declared_output_bucket, finalize_and_dispatch,
}
use datuplet.Gateway.Session.Barrier.{barrier, commit, sweep}
use datuplet.Gateway.Session.Barrier.Success.{commit-durable, commit-success, has_success}
use datuplet.Gateway.Session.Fence.{declared_output_bucket-declares, declares, names_nothing}

abbrev w1 : Text
w1 = bytes "w1"

abbrev raw : Text
raw = bytes "raw"

abbrev orders : Text
orders = bytes "orders"

abbrev run_id : Text
run_id = bytes "r1"

-- the hash is not computed here
abbrev no_hash : Text → Text
no_hash s = s

abbrev job : CommitJob
job = record {
  writer_id = w1;
  namespace = raw;
  table = orders;
  run_id = run_id;
  data_paths = bytes "a" ∷ [];
  mode = append;
}

abbrev at_phase : Phase → Session
at_phase phase = record {
  pool = record {
    workers = 1;
    max_queue_size = 1;
    inflight = 1;
    closed = false;
    results = [];
    session_id = 0;
    tasks = record { sid = 0; job = job; phase = phase } ∷ [];
  };
  dispatched = w1 ∷ [];
}

abbrev done : Outcome
done = committed (some (record { before = []; after = bytes "7"; files_added = 1; hit = false }))

abbrev with_result : Session → Session
with_result s = record s { pool = record s.pool { results = run no_hash job done ∷ [] } }

abbrev drained : Session
drained = record {
  pool = record {
    workers = 1;
    max_queue_size = 1;
    inflight = 0;
    closed = false;
    results = run no_hash job done ∷ [];
    session_id = 0;
    tasks = [];
  };
  dispatched = w1 ∷ [];
}

-- one job: dispatched, run, released, done
one_job : Reach no_hash (fresh 1 1) drained
unfolding new_commit_pool dispatch acquire complete release finish with_phase record_result drop_at
    holders
one_job =
    next
      (next
        (next
          (next (next here (dispatch_step (fresh 1 1) job (at_phase queued).pool refl)) (
            acquire_step (at_phase queued) 0 (record { sid = 0; job = job; phase = queued }) refl
              refl (omega arith)))
          (complete_step (at_phase holding) 0 (record { sid = 0; job = job; phase = holding }) done
            refl refl))
        (release_step (with_result (at_phase recorded_holding)) 0
          (record { sid = 0; job = job; phase = recorded_holding }) refl refl))
      (finish_step (with_result (at_phase recorded)) 0
        (record { sid = 0; job = job; phase = recorded }) refl refl)

wait-exact_example :
    (results_of w1 (wait drained.pool).1 ≤ jobs_of w1 drained.dispatched)
    × (drained.pool.tasks ≡ []
        → results_of w1 (wait drained.pool).1 ≡ jobs_of w1 drained.dispatched)
wait-exact_example = wait-exact 1 1 w1 one_job

Reach-bounds_example :
    (drained.pool.inflight ≡ length drained.pool.tasks)
    × (drained.pool.inflight ≤ drained.pool.max_queue_size)
    × (holders drained.pool.tasks ≤ drained.pool.workers)
Reach-bounds_example = Reach-bounds 1 1 one_job

key-perm_example :
    compute_idempotency_key no_hash run_id raw orders (bytes "b" ∷ bytes "a" ∷ [])
    ≡ compute_idempotency_key no_hash run_id raw orders (bytes "a" ∷ bytes "b" ∷ [])
key-perm_example = key-perm no_hash run_id raw orders ∣ Permᴰ.swap refl refl ∣₁

key_input-injective_example :
    (run_id ≡ run_id)
    × (raw ≡ raw)
    × (orders ≡ orders)
    × (sort (bytes "b" ∷ bytes "a" ∷ []) ≡ sort (bytes "a" ∷ bytes "b" ∷ []))
unfolding key_input sort text_leb
key_input-injective_example =
    key_input-injective run_id raw orders run_id raw orders (bytes "b" ∷ bytes "a" ∷ [])
      (bytes "a" ∷ bytes "b" ∷ []) (refl, (refl, (refl, (refl, (refl, tt)))))
      (refl, (refl, (refl, (refl, (refl, tt))))) refl

abbrev config : Config
config = record {
  default_bucket = raw;
  default_write_mode = bytes "FULL_LOAD";
  output_buckets = bytes "extra" ∷ raw ∷ [];
  output_tables = record { name = orders; bucket = bytes "core"; write_mode = bytes "append" } ∷ [];
  preview = false;
}

declared_output_bucket-declares_example : declared_output_bucket config (bytes "core") ≡ true
unfolding text_beq declares names_nothing
declared_output_bucket-declares_example = declared_output_bucket-declares config (bytes "core")

abbrev server : ServerV2
server = record {
  config = config;
  run_id = run_id;
  writers =
      (w1, record { bucket = raw; table = orders; opened = true; files = []; committed = false })
      ∷ [];
  commit_pool = some (new_commit_pool 1 1);
}

abbrev one_file : Text → Result Text (List WrittenFile)
one_file id = ok (record { path = bytes "a"; rows = 3; size = 90 } ∷ [])

-- the one job of the sweep is committed before Wait returns
abbrev run_all : CommitPool → CommitPool
run_all p = record p { inflight = 0; tasks = []; results = run no_hash job done ∷ [] }

commit-durable_example :
    let b = barrier one_file run_all server in
    (b.sweep_error ≡ none)
    × (all (λ r. not (is_some r.error)) b.results ≡ true)
    × (all (λ w. is_empty w.1.files || has_success b.results w.0) b.expected ≡ true)
unfolding commit barrier sweep close_table_writer finalize_and_dispatch dispatch new_commit_pool
    insert text_beq wait run
commit-durable_example = commit-durable one_file run_all server refl refl

commit-success_example : (commit one_file run_all server).1.success ≡ (
    not (is_some (commit one_file run_all server).1.error)
    && not (any (λ k. k.failed) (commit one_file run_all server).1.buckets))
commit-success_example = commit-success one_file run_all server
