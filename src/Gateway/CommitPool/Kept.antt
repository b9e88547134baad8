-- ===== src/Gateway/CommitPool/Kept.antt =====
-- The invariant of the pool of pkg/datagateway/commit_pool.go, and the steps that keep it.
use datuplet.Prelude.{
  All, Text, [], ap, arith, false, get_elem?, length, nat_beq_iff, ok, refl, set, some, subst, sym,
  true, ℕ, ◌%◌, ◌+◌, ◌<◌, ◌^◌, ◌∷◌, ◌≡◌, ◌≤◌,
}
use datuplet.Gateway.CommitPool.{
  CommitJob, CommitPool, CommitResult, Phase, Session, Step, Task, abandon, abandon_step, acquire,
  acquire_step, cancel, cancel_step, complete, complete_step, dispatch, dispatch_step, drop_at,
  empty_result, finish, finish_step, holders, holding, holds, queued, record_result, recorded,
  recorded_holding, release, release_step, wait, wait_step, with_phase,
}
use datuplet.Gateway.CommitPool.Totals.{
  All-drop_at, All-set, all-get_elem?, length-total, total, total-drop_at, total-set,
}
use datuplet.Gateway.CommitPool.Counts.{
  IsOld, IsOld-next, holders-total, is_open, jobs_of, owed, owed-next, owed-recorded, owed-set,
  place, place-holds, record_result-results, results_of, run-writer_id, settled,
}

pub record IsSound (s : Session) : Type 0 where
  pub counted : s.pool.inflight ≡ length s.pool.tasks
  pub bounded : s.pool.inflight ≤ s.pool.max_queue_size
  pub limited : holders s.pool.tasks ≤ s.pool.workers
  pub current : All (λ t. t.sid ≤ s.pool.session_id) s.pool.tasks
  pub exact :
      (w : Text)
      → results_of w s.pool.results + total (owed w s.pool.session_id) s.pool.tasks
        ≡ jobs_of w s.dispatched

-- a task that moves on without a result
pub with_phase-IsSound :
    (s : Session) (i : ℕ) (t : Task) (phase : Phase)
    → get_elem? s.pool.tasks i ≡ some t
    → is_open phase ≡ is_open t.phase
    → (holds phase ≡ true → holds t.phase ≡ false → holders s.pool.tasks < s.pool.workers)
    → IsSound s
    → IsSound (record s { pool = with_phase i t phase s.pool })
unfolding with_phase
with_phase-IsSound s i t phase e o r h =
    let u : Task = record t { phase = phase } in
    let ones = total-set (λ _. 1) s.pool.tasks i t u e in
    let places = total-set place s.pool.tasks i t u e in
    record {
      counted =
          omega (
            arith,
            h.counted,
            ones,
            length-total s.pool.tasks,
            length-total (set s.pool.tasks i u),
          );
      bounded = h.bounded;
      limited = ground (
        arith,
        h.limited,
        places,
        r,
        holders-total s.pool.tasks,
        holders-total (set s.pool.tasks i u),
      );
      current =
          All-set (λ t. t.sid ≤ s.pool.session_id) s.pool.tasks i u h.current
            (all-get_elem? (λ t. t.sid ≤ s.pool.session_id) s.pool.tasks i t h.current e);
      exact = λ w. omega (
        arith,
        h.exact w,
        owed-set w s.pool.session_id t phase o,
        total-set (owed w s.pool.session_id) s.pool.tasks i t u e,
      );
    }

-- a task that records its result
pub settle-IsSound :
    (s : Session) (i : ℕ) (t : Task) (phase : Phase) (cr : CommitResult)
    → get_elem? s.pool.tasks i ≡ some t
    → is_open t.phase ≡ true
    → is_open phase ≡ false
    → holds phase ≡ holds t.phase
    → cr.writer_id ≡ t.job.writer_id
    → IsSound s
    → IsSound (record s { pool = record_result t.sid cr (with_phase i t phase s.pool) })
unfolding with_phase
settle-IsSound s i t phase cr e o c r v h =
    let u : Task = record t { phase = phase } in
    let p : CommitPool = record s.pool { tasks = set s.pool.tasks i u } in
    subst (λ q. IsSound (record s { pool = q })) (record_result-results t.sid cr p)
      (record {
        counted = omega (
          arith,
          h.counted,
          total-set (λ _. 1) s.pool.tasks i t u e,
          length-total s.pool.tasks,
          length-total (set s.pool.tasks i u),
        );
        bounded = h.bounded;
        limited = omega (
          arith,
          h.limited,
          total-set place s.pool.tasks i t u e,
          place-holds t phase r,
          holders-total s.pool.tasks,
          holders-total (set s.pool.tasks i u),
        );
        current =
            All-set (λ t. t.sid ≤ s.pool.session_id) s.pool.tasks i u h.current
              (all-get_elem? (λ t. t.sid ≤ s.pool.session_id) s.pool.tasks i t h.current e);
        exact = λ w. omega (
          arith,
          h.exact w,
          settled w t phase cr p o c v,
          total-set (owed w s.pool.session_id) s.pool.tasks i t u e,
        );
      })

pub dispatch-IsSound :
    (s : Session) (j : CommitJob) (p : CommitPool)
    → dispatch s.pool j ≡ ok p
    → IsSound s
    → IsSound (record { pool = p; dispatched = j.writer_id ∷ s.dispatched })
unfolding dispatch total holders jobs_of owed
dispatch-IsSound s j p e h =
    let q : CommitPool = record s.pool {
      inflight = s.pool.inflight + 1;
      tasks = record { sid = s.pool.session_id; job = j; phase = queued } ∷ s.pool.tasks;
    } in
    let k : (q ≡ p) × (s.pool.inflight < s.pool.max_queue_size) = ground arith in
    subst (λ p. IsSound (record { pool = p; dispatched = j.writer_id ∷ s.dispatched })) k.0
      (record {
        counted = omega (arith, h.counted);
        bounded = omega (arith, k.1);
        limited = omega (arith, h.limited, holders-total s.pool.tasks);
        current = (omega arith, h.current);
        exact = λ w. ground (arith, h.exact w, nat_beq_iff s.pool.session_id s.pool.session_id);
      })

pub finish-IsSound :
    (s : Session) (i : ℕ) (t : Task)
    → get_elem? s.pool.tasks i ≡ some t
    → t.phase ≡ recorded
    → IsSound s
    → IsSound (record s { pool = finish i s.pool })
unfolding finish
finish-IsSound s i t e q h = record {
  counted = omega (
    arith,
    h.counted,
    total-drop_at (λ _. 1) s.pool.tasks i t e,
    length-total s.pool.tasks,
    length-total (drop_at i s.pool.tasks),
  );
  bounded = omega (arith, h.bounded);
  limited = omega (
    arith,
    h.limited,
    total-drop_at place s.pool.tasks i t e,
    holders-total s.pool.tasks,
    holders-total (drop_at i s.pool.tasks),
  );
  current = All-drop_at (IsOld s.pool.session_id) s.pool.tasks i h.current;
  exact = λ w. omega (
    arith,
    h.exact w,
    owed-recorded w s.pool.session_id t q,
    total-drop_at (owed w s.pool.session_id) s.pool.tasks i t e,
  );
}

pub wait-IsSound :
    (s : Session)
    → s.pool.session_id + 1 < 2 ^ 64
    → IsSound s
    → IsSound (record { pool = (wait s.pool).0; dispatched = [] })
unfolding wait results_of jobs_of
wait-IsSound s r h =
    let e : (s.pool.session_id + 1) % 2 ^ 64 ≡ s.pool.session_id + 1 = omega arith in
    subst
      (λ sid.
        IsSound
          (record { pool = record s.pool { results = []; session_id = sid }; dispatched = [] }))
      (sym e)
      (record {
        counted = h.counted;
        bounded = h.bounded;
        limited = h.limited;
        current = IsOld-next s.pool.session_id s.pool.tasks h.current;
        exact = λ w. omega (arith, owed-next w s.pool.session_id s.pool.tasks h.current);
      })

pub Step-IsSound :
    {sha256_hex : Text → Text} {s u : Session} → Step sha256_hex s u → IsSound s → IsSound u
unfolding acquire abandon complete release cancel empty_result
Step-IsSound (dispatch_step s j p e) h = dispatch-IsSound s j p e h
Step-IsSound (acquire_step s i t e q r) h =
    with_phase-IsSound s i t holding e (ap is_open (sym q)) (λ _ _. r) h
Step-IsSound (abandon_step s i t e q _) h =
    settle-IsSound s i t recorded _ e (ap is_open q) refl (ap holds (sym q)) refl h
Step-IsSound (complete_step s i t outcome e q) h =
    settle-IsSound s i t recorded_holding _ e (ap is_open q) refl (ap holds (sym q))
      (run-writer_id _ t.job outcome) h
Step-IsSound (release_step s i t e q) h =
    with_phase-IsSound s i t recorded e (ap is_open (sym q)) (λ k _. absurd (cc)) h
Step-IsSound (finish_step s i t e q) h = finish-IsSound s i t e q h
Step-IsSound (wait_step s r) h = wait-IsSound s r h
Step-IsSound (cancel_step s) h = record {
  counted = h.counted;
  bounded = h.bounded;
  limited = h.limited;
  current = h.current;
  exact = h.exact;
}
