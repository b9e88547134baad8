-- ===== src/Gateway/CommitPool/Counts.antt =====
-- The counts that the pool of pkg/datagateway/commit_pool.go keeps in step: places taken, and for each
-- writer the jobs dispatched, the results recorded and the tasks that still owe one.
use datuplet.Prelude.{
  All, Bool, List, Text, [], ap, arith, false, if◌then◌else◌, nat_beq, nat_beq_iff, none, refl,
  some, text_beq, true, ℕ, ◌&&◌, ◌++◌, ◌+◌, ◌∷◌, ◌≡◌, ◌≤◌,
}
use datuplet.Gateway.CommitPool.{
  CommitJob, CommitPool, CommitResult, Outcome, Phase, Task, committed, empty_result, failed,
  holders, holding, holds, no_catalog, queued, record_result, recorded, run,
}
use datuplet.Gateway.CommitPool.Totals.{total}

abbrev pub place : Task → ℕ
place t = if holds t.phase then 1 else 0

pub holders-total : (ts : List Task) → holders ts ≡ total place ts
unfolding holders total
holders-total [] = refl
holders-total (t ∷ ts) = ap (λ n. (if holds t.phase then 1 else 0) + n) (holders-total ts)

-- a task that has not recorded its result yet
abbrev pub is_open : Phase → Bool
is_open queued = true
is_open holding = true
is_open _ = false

-- the result that a task of session `sid` still owes writer `w`
unfoldable pub owed : Text → ℕ → Task → ℕ
owed w sid t = if nat_beq sid t.sid && is_open t.phase && text_beq t.job.writer_id w then 1 else 0

-- how many results of writer `w` there are
unfoldable pub results_of : Text → List CommitResult → ℕ
results_of w [] = 0
results_of w (r ∷ rs) = (if text_beq r.writer_id w then 1 else 0) + results_of w rs

-- how many jobs of writer `w` were dispatched
unfoldable pub jobs_of : Text → List Text → ℕ
jobs_of w [] = 0
jobs_of w (v ∷ vs) = (if text_beq v w then 1 else 0) + jobs_of w vs

pub results_of-append :
    (w : Text) (rs ss : List CommitResult)
    → results_of w (rs ++ ss) ≡ results_of w rs + results_of w ss
unfolding results_of
results_of-append w [] ss = omega arith
results_of-append w (r ∷ rs) ss = ground (arith, results_of-append w rs ss)

pub owed-set :
    (w : Text) (sid : ℕ) (t : Task) (phase : Phase)
    → is_open phase ≡ is_open t.phase
    → owed w sid (record t { phase = phase }) ≡ owed w sid t
unfolding owed
owed-set w sid t phase h =
    ap (λ b. if nat_beq sid t.sid && b && text_beq t.job.writer_id w then 1 else 0) h

-- the results after record
unfoldable pub recorded_results : ℕ → CommitResult → CommitPool → List CommitResult
recorded_results sid cr p = if nat_beq p.session_id sid then p.results ++ (cr ∷ []) else p.results

pub record_result-results :
    (sid : ℕ) (cr : CommitResult) (p : CommitPool)
    → record p { results = recorded_results sid cr p } ≡ record_result sid cr p
unfolding record_result recorded_results
record_result-results sid cr p =
    elim (nat_beq p.session_id sid)
      as (λ b.
        record p { results = if b then p.results ++ (cr ∷ []) else p.results }
        ≡ (if b then record p { results = p.results ++ (cr ∷ []) } else p)) [
          | true ↦ refl
          | false ↦ refl
        ]

pub settled :
    (w : Text) (t : Task) (phase : Phase) (cr : CommitResult) (p : CommitPool)
    → is_open t.phase ≡ true
    → is_open phase ≡ false
    → cr.writer_id ≡ t.job.writer_id
    → results_of w (recorded_results t.sid cr p) + owed w p.session_id (record t { phase = phase })
      ≡ results_of w p.results + owed w p.session_id t
unfolding owed results_of recorded_results
settled w t phase cr p o c v =
    ground (arith, results_of-append w p.results (cr ∷ []), ap (λ i. text_beq i w) v)

pub place-holds :
    (t : Task) (phase : Phase)
    → holds phase ≡ holds t.phase
    → place (record t { phase = phase }) ≡ place t
place-holds t phase r = ground (arith, r)

abbrev pub IsOld : ℕ → Task → Type 0
IsOld sid t = t.sid ≤ sid

pub owed-next :
    (w : Text) (sid : ℕ) (ts : List Task) → All (IsOld sid) ts → total (owed w (sid + 1)) ts ≡ 0
unfolding total owed
owed-next w sid [] h = refl
owed-next w sid (t ∷ ts) h =
    ground (arith, owed-next w sid ts h.1, h.0, nat_beq_iff (sid + 1) t.sid)

pub run-writer_id :
    (sha256_hex : Text → Text) (j : CommitJob) (o : Outcome)
    → (run sha256_hex j o).writer_id ≡ j.writer_id
unfolding run empty_result
run-writer_id f j (no_catalog e) = refl
run-writer_id f j (failed e) = refl
run-writer_id f j (committed none) = refl
run-writer_id f j (committed (some r)) = refl

pub owed-recorded : (w : Text) (sid : ℕ) (t : Task) → t.phase ≡ recorded → owed w sid t ≡ 0
unfolding owed
owed-recorded w sid t q = ground (arith, ap is_open q)

pub IsOld-next : (sid : ℕ) (ts : List Task) → All (IsOld sid) ts → All (IsOld (sid + 1)) ts
IsOld-next sid [] h = h
IsOld-next sid (t ∷ ts) h = (omega (arith, h.0), IsOld-next sid ts h.1)
