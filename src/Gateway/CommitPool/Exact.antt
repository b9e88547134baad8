-- ===== src/Gateway/CommitPool/Exact.antt =====
-- The pool of pkg/datagateway/commit_pool.go over any run of its steps: its bounds, and the count of
-- the results of a session.
use datuplet.Prelude.{Text, [], ap, arith, length, refl, ℕ, ◌≡◌, ◌≤◌}
use datuplet.Gateway.CommitPool.{Reach, Session, here, holders, new_commit_pool, next, wait}
use datuplet.Gateway.CommitPool.Totals.{total}
use datuplet.Gateway.CommitPool.Counts.{jobs_of, owed, results_of}
use datuplet.Gateway.CommitPool.Kept.{IsSound, Step-IsSound}

Reach-IsSound :
    {sha256_hex : Text → Text} {start s : Session}
    → Reach sha256_hex start s
    → IsSound start
    → IsSound s
Reach-IsSound here h = h
Reach-IsSound (next r e) h = Step-IsSound e (Reach-IsSound r h)

-- the first session of a new pool
abbrev pub fresh : ℕ → ℕ → Session
fresh workers max_queue_size = record {
  pool = new_commit_pool workers max_queue_size;
  dispatched = [];
}

fresh-IsSound : (workers max_queue_size : ℕ) → IsSound (fresh workers max_queue_size)
unfolding new_commit_pool holders results_of jobs_of total
fresh-IsSound workers max_queue_size = record {
  counted = refl;
  bounded = omega arith;
  limited = omega arith;
  current = tt;
  exact = λ w. refl;
}

-- Whatever the interleaving: `inflight` is the number of live tasks and never more than the queue
-- admits, and never more tasks hold a place than there are workers.
pub Reach-bounds :
    (workers max_queue_size : ℕ) {sha256_hex : Text → Text} {s : Session}
    → Reach sha256_hex (fresh workers max_queue_size) s
    → (s.pool.inflight ≡ length s.pool.tasks)
      × (s.pool.inflight ≤ s.pool.max_queue_size)
      × (holders s.pool.tasks ≤ s.pool.workers)
Reach-bounds workers max_queue_size r =
    let h = Reach-IsSound r (fresh-IsSound workers max_queue_size) in
    (h.counted, h.bounded, h.limited)

-- Whatever the interleaving: at no time has a session more results of a writer than jobs of the
-- writer were dispatched in it, and once the tasks are done Wait returns exactly as many.
pub wait-exact :
    (workers max_queue_size : ℕ) {sha256_hex : Text → Text} {s : Session} (writer : Text)
    → Reach sha256_hex (fresh workers max_queue_size) s
    → (results_of writer (wait s.pool).1 ≤ jobs_of writer s.dispatched)
      × (s.pool.tasks ≡ [] → results_of writer (wait s.pool).1 ≡ jobs_of writer s.dispatched)
unfolding wait total
wait-exact workers max_queue_size {s = s} writer r =
    let h = Reach-IsSound r (fresh-IsSound workers max_queue_size) in
    (
      omega (arith, h.exact writer),
      λ e. omega (arith, h.exact writer, ap (total (owed writer s.pool.session_id)) e),
    )
