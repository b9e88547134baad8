-- ===== src/Gateway/Session/Barrier/Success.antt =====
-- What the success of ServerV2.Commit (pkg/datagateway/server_v2_commit.go) means.
use datuplet.Prelude.{
  Assoc, Bool, Bool-cases, List, Option, Option-cases, Result, Result-cases, Text, [], all, any,
  any-append, arith, err, false, if◌then◌else◌, inl, inr, is_empty, is_some, none, not, ok, refl,
  some, subst, text_eq, true, ◌&&◌, ◌==◌, ◌||◌, ◌∙◌, ◌∷◌, ◌≡◌,
}
use datuplet.Gateway.CommitPool.{CommitPool, CommitResult, dispatch}
use datuplet.Gateway.Session.{
  ServerV2, SessionError, WriterState, WrittenFile, close_table_writer, dispatch_commit,
  finalize_and_dispatch, job_of, set_writer,
}
use datuplet.Gateway.Session.Barrier.{
  Report, TableCommitResult, after_close, append_result, barrier, bucket_results, commit, is_failed,
  missing_result, note_result, pooled_result, reconcile, report_pool, respond, seen, sweep,
  sweep_writer,
}

abbrev any_failed : Assoc Text (List TableCommitResult) → Bool
any_failed m = any (λ k. k.failed) (bucket_results m)

any_failed-append_result :
    (m : Assoc Text (List TableCommitResult)) (bucket : Text) (r : TableCommitResult)
    → any_failed (append_result m bucket r) ≡ (any_failed m || is_failed r.status)
unfolding append_result bucket_results
any_failed-append_result [] bucket r = ground arith
any_failed-append_result ((b, rs) ∷ m) bucket r =
    ground
      (arith, any_failed-append_result m bucket r, any-append (λ r. is_failed r.status) rs (r ∷ []))

-- allSuccess is set while nothing has failed
abbrev Agrees : Bool → Report → Type 0
Agrees swept report = report.all_success ≡ (swept && not (any_failed report.tables))

note_result-Agrees :
    (swept : Bool) (bucket : Text) (r : TableCommitResult) (report : Report)
    → Agrees swept report
    → Agrees swept (note_result bucket r report)
unfolding note_result
note_result-Agrees swept bucket r report h =
    ground (arith, any_failed-append_result report.tables bucket r)

report_pool-Agrees :
    (swept : Bool) (expected : Assoc Text WriterState) (rs : List CommitResult) (report : Report)
    → Agrees swept report
    → Agrees swept (report_pool expected rs report)
unfolding report_pool
report_pool-Agrees swept expected [] report h = h
report_pool-Agrees swept expected (r ∷ rs) report h =
    report_pool-Agrees swept expected rs (note_result r.namespace (pooled_result expected r) report)
      (note_result-Agrees swept r.namespace (pooled_result expected r) report h)

reconcile-Agrees :
    (swept has_pool : Bool) (results : List CommitResult) (ws : Assoc Text WriterState)
    (report : Report)
    → Agrees swept report
    → Agrees swept (reconcile has_pool results ws report)
unfolding reconcile
reconcile-Agrees swept has_pool results [] report h = h
reconcile-Agrees swept has_pool results ((id, w) ∷ rest) report h =
    let noted = note_result w.bucket (missing_result has_pool w) report in
    reconcile-Agrees swept has_pool results rest (if seen results id then report else noted)
      (elim (seen results id) as (λ b. Agrees swept (if b then report else noted)) [
        | true ↦ h
        | false ↦ note_result-Agrees swept w.bucket (missing_result has_pool w) report h
      ])

start-Agrees : (swept : Bool) → Agrees swept (record { tables = []; all_success = swept })
unfolding bucket_results
start-Agrees swept = ground arith

-- Commit reports success exactly when the sweep had no error and no bucket of its response failed.
pub commit-success :
    (close : Text → Result Text (List WrittenFile)) (drain : CommitPool → CommitPool) (s : ServerV2)
    → (commit close drain s).1.success ≡ (
        not (is_some (commit close drain s).1.error)
        && not (any (λ k. k.failed) (commit close drain s).1.buckets))
unfolding commit respond
commit-success close drain s =
    let b = barrier close drain s in
    let swept = not (is_some b.sweep_error) in
    let start : Report = record { tables = []; all_success = swept } in
    reconcile-Agrees swept (is_some b.server.commit_pool) b.results b.expected
      (report_pool b.expected b.results start)
      (report_pool-Agrees swept b.expected b.results start (start-Agrees swept))

-- a result of writer `id` without an error
unfoldable pub has_success : List CommitResult → Text → Bool
has_success [] id = false
has_success (r ∷ rs) id = r.writer_id == id && not (is_some r.error) || has_success rs id

note_result-keeps :
    (bucket : Text) (r : TableCommitResult) (report : Report)
    → (note_result bucket r report).all_success ≡ true
    → (report.all_success ≡ true) × (is_failed r.status ≡ false)
unfolding note_result
note_result-keeps bucket r report h = ground arith

failed_result :
    (expected : Assoc Text WriterState) (r : CommitResult)
    → is_failed (pooled_result expected r).status ≡ false
    → is_some r.error ≡ false
unfolding pooled_result
failed_result expected r h = ground arith

report_pool-ok :
    (expected : Assoc Text WriterState) (rs : List CommitResult) (report : Report)
    → (report_pool expected rs report).all_success ≡ true
    → (report.all_success ≡ true) × (all (λ r. not (is_some r.error)) rs ≡ true)
unfolding report_pool
report_pool-ok expected [] report h = (h, refl)
report_pool-ok expected (r ∷ rs) report h =
    let k =
      report_pool-ok expected rs (note_result r.namespace (pooled_result expected r) report) h in
    let l = note_result-keeps r.namespace (pooled_result expected r) report k.0 in
    (l.0, ground (arith, k, failed_result expected r l.1))

missing_failed :
    (w : WriterState) → is_failed (missing_result true w).status ≡ false → is_empty w.files ≡ true
unfolding missing_result
missing_failed w h = ground arith

reconcile-ok :
    (results : List CommitResult) (ws : Assoc Text WriterState) (report : Report)
    → (reconcile true results ws report).all_success ≡ true
    → (report.all_success ≡ true) × (all (λ w. is_empty w.1.files || seen results w.0) ws ≡ true)
unfolding reconcile
reconcile-ok results [] report h = (h, refl)
reconcile-ok results ((id, w) ∷ rest) report h =
    let noted = note_result w.bucket (missing_result true w) report in
    let k = reconcile-ok results rest (if seen results id then report else noted) h in
    elim (Bool-cases (seen results id)) [
      | inl e ↦ ground (arith, k, e)
      | inr e ↦
          let l =
            note_result-keeps w.bucket (missing_result true w) report (ground (arith, k, e)) in
          (l.0, ground (arith, k, missing_failed w, l.1))
    ]

has_success-seen :
    (rs : List CommitResult) (id : Text)
    → all (λ r. not (is_some r.error)) rs ≡ true
    → seen rs id ≡ has_success rs id
unfolding seen has_success
has_success-seen [] id h = refl
has_success-seen (r ∷ rs) id h = ground (arith, has_success-seen rs id)

succeeded :
    (rs : List CommitResult) (ws : Assoc Text WriterState)
    → all (λ r. not (is_some r.error)) rs ≡ true
    → all (λ w. is_empty w.1.files || seen rs w.0) ws ≡ true
    → all (λ w. is_empty w.1.files || has_success rs w.0) ws ≡ true
succeeded rs [] h k = refl
succeeded rs ((id, w) ∷ ws) h k = ground (arith, has_success-seen rs id h, succeeded rs ws h)

dispatch_commit-is_some :
    (s : ServerV2) (id : Text) (ws : WriterState) (p : Option CommitPool)
    → is_some s.commit_pool ≡ is_some p
    → is_some (dispatch_commit s id ws p).0.commit_pool ≡ is_some p
unfolding dispatch_commit
dispatch_commit-is_some s id ws none h = h
dispatch_commit-is_some s id ws (some p) h = elim (Result-cases (dispatch p (job_of s id ws))) [
  | inl (q, e) ↦ ground (arith, e, h)
  | inr (q, e) ↦ ground (arith, e, h)
]

finalize-is_some :
    (s : ServerV2) (id : Text) (ws : WriterState)
    → is_some (finalize_and_dispatch s id ws).0.commit_pool ≡ is_some s.commit_pool
unfolding finalize_and_dispatch
finalize-is_some s id ws =
    let claimed = set_writer id (record ws { committed = true }) s in
    ground (arith, dispatch_commit-is_some claimed id ws s.commit_pool refl)

after_close-is_some :
    (id : Text) (ws : WriterState) (r : Result Text (WriterState × List WrittenFile)) (s : ServerV2)
    → is_some (after_close id ws r s).0.commit_pool ≡ is_some s.commit_pool
unfolding after_close
after_close-is_some id ws (err e) s = refl
after_close-is_some id ws (ok (ws', files)) s = finalize-is_some (set_writer id ws' s) id ws'

sweep-is_some :
    (close : Text → Result Text (List WrittenFile)) (ws : Assoc Text WriterState) (s : ServerV2)
    → is_some (sweep close ws s).0.commit_pool ≡ is_some s.commit_pool
unfolding sweep sweep_writer
sweep-is_some close [] s = refl
sweep-is_some close ((id, w) ∷ ws) s = ground (
  arith,
  after_close-is_some id w (close_table_writer close id w) s,
  sweep-is_some close ws s,
  sweep-is_some close ws (sweep_writer close id w s).0,
)

barrier-is_some :
    (close : Text → Result Text (List WrittenFile)) (drain : CommitPool → CommitPool) (s : ServerV2)
    → is_some (barrier close drain s).server.commit_pool ≡ is_some s.commit_pool
unfolding barrier
barrier-is_some close drain s =
    let (t, e) = sweep close s.writers s in
    elim (Option-cases t.commit_pool) [
      | inl h ↦ ground (arith, h, sweep-is_some close s.writers s)
      | inr (p, h) ↦ ground (arith, h, sweep-is_some close s.writers s)
    ]

none_of_not : (e : Option SessionError) → not (is_some e) ≡ true → e ≡ none
none_of_not none h = refl
none_of_not (some e) h = cc

-- With a commit pool, a Commit that reports success leaves no file uncommitted: the pool reported no
-- error, and each writer that produced files has a result of the pool without one.
pub commit-durable :
    (close : Text → Result Text (List WrittenFile)) (drain : CommitPool → CommitPool) (s : ServerV2)
    → is_some s.commit_pool ≡ true
    → (commit close drain s).1.success ≡ true
    → let b = barrier close drain s in
      (b.sweep_error ≡ none)
      × (all (λ r. not (is_some r.error)) b.results ≡ true)
      × (all (λ w. is_empty w.1.files || has_success b.results w.0) b.expected ≡ true)
unfolding commit respond
commit-durable close drain s p h =
    let b = barrier close drain s in
    let start : Report = record { tables = []; all_success = not (is_some b.sweep_error) } in
    let pooled = report_pool b.expected b.results start in
    let live : is_some b.server.commit_pool ≡ true = barrier-is_some close drain s ∙ p in
    let k =
      reconcile-ok b.results b.expected pooled
        (subst (λ v. (reconcile v b.results b.expected pooled).all_success ≡ true) live h) in
    let l = report_pool-ok b.expected b.results start k.0 in
    (none_of_not b.sweep_error l.0, l.1, succeeded b.results b.expected l.1 k.1)
