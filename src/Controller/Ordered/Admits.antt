-- ===== src/Controller/Ordered/Admits.antt =====
-- handlePending of pkg/k8s/controllers/pipelinerun_controller.go keeps the stages in order.
use datuplet.Prelude.{
  Bool-cases, List, Option, Option-cases, Result, Text, [], arith, err, if◌then◌else◌, inl, inr,
  is_empty, ltb, map, none, not, ok, refl, some, subst, sym, ◌&&◌, ◌+◌, ◌∷◌, ◌≡◌,
}
use datuplet.Pipeline.{Finding, Pipeline, PipelineSpec, ResolvedComponent, StageSpec}
use datuplet.Controller.{Answers, Got-cases, PipelineRunSpec, PipelineRunStatus, World}
use datuplet.Controller.Findings.{
  first_error_finding, first_transient_finding, non_resource_findings,
}
use datuplet.Controller.Admission.{
  Frozen, Refusal, admit, await_pipeline, find_pipeline, freeze, pending_stage, rejected,
  requeue_on_transient_admission_error, start_run, unavailable, validate_and_freeze, with_snapshot,
}
use datuplet.Controller.Secrets.{
  Snapshot, create_snapshot, read_project, snapshot_run_secrets, update_secrets_resolved_condition,
}
use datuplet.Controller.Ordered.{AllPending, InOrder, Orderly, Safe, update_status-Safe}

pending_stages-AllPending : (gs : List StageSpec) → AllPending (map pending_stage gs)
pending_stages-AllPending [] = tt
pending_stages-AllPending (g ∷ gs) = (refl, pending_stages-AllPending gs)

pending_stages-InOrder : (gs : List StageSpec) → InOrder gs (map pending_stage gs)
pending_stages-InOrder [] = tt
pending_stages-InOrder (g ∷ gs) = (tt, pending_stages-AllPending gs, pending_stages-InOrder gs)

module _ (refs : Pipeline → List Text) (validated : Pipeline → List Finding)
    (resolve : Text → Text → Option ResolvedComponent × List Finding) (a : Answers) where
  snapshot_run_secrets-status :
      (names : List Text) (run_id : Text) (w : World)
      → (snapshot_run_secrets names a run_id w).0.status ≡ w.status
  unfolding snapshot_run_secrets read_project create_snapshot
  snapshot_run_secrets-status [] run_id w = refl
  snapshot_run_secrets-status (n ∷ names) run_id w = ground arith

  requeue-Safe :
      (w : World) (s : PipelineRunStatus) (m : Text)
      → Orderly w.status
      → Safe (requeue_on_transient_admission_error a w s m)
  unfolding requeue_on_transient_admission_error
  requeue-Safe w s m h = elim (Bool-cases (ltb (w.transient_retries + 1) 5)) [
    | inl e ↦ rw e (h, λ q. cc)
    | inr e ↦ rw e (update_status-Safe a _ _ _ h tt (λ q. cc))
  ]

  condition-Ordered :
      (names : List Text) (s : PipelineRunStatus)
      → Orderly s
      → Orderly (update_secrets_resolved_condition names s)
  unfolding update_secrets_resolved_condition
  condition-Ordered [] s h = h
  condition-Ordered (n ∷ names) s h = h

  start_run-Safe :
      (p : Pipeline) (w : World) (s : PipelineRunStatus) (f : Frozen StageSpec)
      → Orderly w.status
      → Safe (start_run refs validated resolve a p w s f)
  unfolding start_run
  start_run-Safe p w s f h =
      update_status-Safe a _ _ _ h (condition-Ordered (refs p) _ (pending_stages-InOrder f.frozen))
        (λ q. cc)

  freeze-Safe :
      (p : Pipeline) (w : World) (s : PipelineRunStatus) (r : Result Refusal (Frozen StageSpec))
      → Orderly w.status
      → Safe (freeze refs validated resolve a p w s r)
  unfolding freeze
  freeze-Safe p w s (err (unavailable m)) h = requeue-Safe w s m h
  freeze-Safe p w s (err (rejected m)) h = update_status-Safe a _ _ _ h tt (λ q. cc)
  freeze-Safe p w s (ok f) h = start_run-Safe p w s f h

  validate_and_freeze-Safe :
      (p : Pipeline) (w : World) (s : PipelineRunStatus)
      → Orderly w.status
      → Safe (validate_and_freeze refs validated resolve a p w s)
  unfolding validate_and_freeze
  validate_and_freeze-Safe p w s h = elim (Option-cases (first_transient_finding (validated p))) [
    | inr (f, e) ↦ rw (e, validate_and_freeze) (requeue-Safe w s f.message h)
    | inl e ↦ elim (Option-cases (first_error_finding (non_resource_findings (validated p)))) [
      | inr (f, e') ↦ rw (e, e', validate_and_freeze) (update_status-Safe a _ _ _ h tt (λ q. cc))
      | inl e' ↦ rw (e, e', validate_and_freeze) (freeze-Safe p w s _ h)
    ]
  ]

  with_snapshot-Safe :
      (p : Pipeline) (s : PipelineRunStatus) (r : World × Snapshot)
      → Orderly r.0.status
      → Safe (with_snapshot refs validated resolve a p s r)
  unfolding with_snapshot
  with_snapshot-Safe p s (w, err e) h = (h, λ q. cc)
  with_snapshot-Safe p s (w, ok []) h = validate_and_freeze-Safe p w s h
  with_snapshot-Safe p s (w, ok (n ∷ missing)) h = update_status-Safe a _ _ _ h tt (λ q. cc)

  admit-Safe :
      (run : PipelineRunSpec) (p : Pipeline) (w : World) (s : PipelineRunStatus)
      → Orderly w.status
      → Safe (admit refs validated resolve a run p w s)
  unfolding admit
  admit-Safe run p w s h =
      let w' = record w { not_found_retries = 0 } in
      elim (Bool-cases (not (is_empty run.run_id) && not (a.is_uuid run.run_id))) [
        | inl e ↦ rw (e, admit) (update_status-Safe a _ _ _ h tt (λ q. cc))
        | inr e ↦
            rw (e, admit)
              (with_snapshot-Safe p _ _ (
                subst (λ t. Orderly t)
                  (sym (
                    snapshot_run_secrets-status (refs p)
                      (if is_empty run.run_id then a.new_uuid else run.run_id) w'))
                  h))
      ]

  await_pipeline-Safe :
      (run : PipelineRunSpec) (w : World) (s : PipelineRunStatus)
      → Orderly w.status
      → Safe (await_pipeline refs validated resolve a run w s)
  unfolding await_pipeline
  await_pipeline-Safe run w s h = elim (Bool-cases (ltb (w.not_found_retries + 1) 5)) [
    | inl e ↦ rw e (h, λ q. cc)
    | inr e ↦ rw e (update_status-Safe a _ _ _ h tt (λ q. cc))
  ]

  pub find_pipeline-Safe :
      (run : PipelineRunSpec) (w : World) (s : PipelineRunStatus) (o : Option PipelineSpec)
      → Orderly w.status
      → Safe (find_pipeline refs validated resolve a run w s o)
  unfolding find_pipeline
  find_pipeline-Safe run w s (some spec) h = admit-Safe run _ w s h
  find_pipeline-Safe run w s none h = elim (Bool-cases (is_empty run.pipeline_ref)) [
    | inl e ↦ rw (e, find_pipeline) (update_status-Safe a _ _ _ h tt (λ q. cc))
    | inr e ↦ elim (Got-cases a.pipeline) [
      | inl e' ↦ rw (e, e', find_pipeline) (await_pipeline-Safe run w s h)
      | inr (inl (f, e')) ↦ rw (e, e', find_pipeline) (h, λ q. cc)
      | inr (inr (p, e')) ↦ rw (e, e', find_pipeline) (admit-Safe run p w s h)
    ]
  ]
