-- ===== src/Controller/Budget.antt =====
-- The retries of an admission in pkg/k8s/controllers/pipelinerun_controller.go while the registry does not
-- answer.
use datuplet.Prelude.{
  Bool-cases, List, Option, Text, [], ap, arith, false, if◌then◌else◌, inl, inr, is_empty, ltb,
  none, not, refl, some, subst, suc, sym, text_eq, true, zero, ℕ, ◌&&◌, ◌+◌, ◌<◌, ◌∙◌, ◌≡◌, ◌≤◌,
}
use datuplet.Pipeline.{Finding, Pipeline, PipelineSpec, ResolvedComponent}
use datuplet.Controller.{Answers, PipelineRunSpec, PipelineRunStatus, RunPhase, World, found}
use datuplet.Controller.Findings.{first_transient_finding}
use datuplet.Controller.Admission.{
  admit, find_pipeline, handle_pending, requeue_on_transient_admission_error, validate_and_freeze,
  with_snapshot,
}
use datuplet.Controller.Secrets.{snapshot_run_secrets}
use datuplet.Controller.Jobs.{propagate_cancel_to_pods}
use datuplet.Controller.Reconcile.{after_get, by_run_phase, reconcile_run}
use datuplet.Controller.Runs.{here, new_status, next, reconciled}
use datuplet.Controller.Frozen.{is_over}
use datuplet.Controller.Frozen.Kept.{Reach-over}
use datuplet.Controller.Finishes.Ends.{reconciles}
use datuplet.Controller.Finishes.Done.{updated}

-- a reconcile that finds the run, with an inline specification that refers to no secret and a run id that
-- is unset or a UUID; validation meets a registry error, and the API server accepts an update of the status
pub record Blocked (refs : Pipeline → List Text) (validated : Pipeline → List Finding)
    (run : PipelineRunSpec) (spec : PipelineSpec) (a : Answers) : Type 0 where
  pub finds_run : a.run ≡ found run
  pub updates : a.update_status ≡ none
  pub is_inline : run.pipeline_spec ≡ some spec
  pub has_id : (not (is_empty run.run_id) && not (a.is_uuid run.run_id)) ≡ false
  pub needs_no_secret : refs (record { name = run.name; generation = 0; spec = spec }) ≡ []
  pub is_transient :
      (f : Finding) × (first_transient_finding
          (validated (record { name = run.name; generation = 0; spec = spec }))
        ≡ some f)

module _ (refs : Pipeline → List Text) (validated : Pipeline → List Finding)
    (resolve : Text → Text → Option ResolvedComponent × List Finding) (run : PipelineRunSpec)
    (spec : PipelineSpec) where
  -- within the budget the status stays and the attempt is counted; at its end the run fails
  abbrev Counted : World → World → Type 0
  Counted w w' =
      (w.transient_retries + 1 < 5
        → (w'.status ≡ w.status) × (w'.transient_retries ≡ w.transient_retries + 1))
      × (5 ≤ w.transient_retries + 1 → w'.status.phase ≡ RunPhase.failed_application)

  requeue-Counted :
      (a : Answers) (w w' : World) (s : PipelineRunStatus) (m : Text)
      → a.update_status ≡ none
      → w'.status ≡ w.status
      → w'.transient_retries ≡ w.transient_retries
      → Counted w (requeue_on_transient_admission_error a w' s m).0
  unfolding requeue_on_transient_admission_error
  requeue-Counted a w w' s m u h k = elim (Bool-cases (ltb (w'.transient_retries + 1) 5)) [
    | inl e ↦ rw e ((λ q. (h, ap (λ n. n + 1) k)), λ q. absurd (ground (arith, e, k, q)))
    | inr e ↦
        rw e ((λ q. absurd (ground (arith, e, k, q))), λ q. ap (λ t. t.phase) (updated a _ _ _ u))
  ]

  find_pipeline-Counted :
      (a : Answers) (w w' : World) (s : PipelineRunStatus)
      → (blocked : Blocked refs validated run spec a) → w'.status ≡ w.status
      → w'.transient_retries ≡ w.transient_retries
      → Counted w (find_pipeline refs validated resolve a run w' s (some spec)).0
  unfolding find_pipeline admit with_snapshot snapshot_run_secrets validate_and_freeze
  find_pipeline-Counted a w w' s blocked h k =
      let p : Pipeline = record { name = run.name; generation = 0; spec = spec } in
      let run_id = if is_empty run.run_id then a.new_uuid else run.run_id in
      rw (blocked.has_id, find_pipeline, admit)
        (subst
          (λ names.
            Counted w
              (with_snapshot refs validated resolve a p (record s { run_id = run_id })
                (snapshot_run_secrets names a run_id (record w' { not_found_retries = 0 }))).0)
          (sym blocked.needs_no_secret)
          (rw (blocked.is_transient.1, validate_and_freeze)
            (requeue-Counted a w _ _ blocked.is_transient.0.message blocked.updates h k)))

  reconcile_run-Counted :
      (a : Answers) (w : World)
      → Blocked refs validated run spec a
      → w.status.phase ≡ RunPhase.unset
      → Counted w (reconcile_run refs validated resolve a w).0
  unfolding reconcile_run after_get by_run_phase handle_pending
  reconcile_run-Counted a w blocked e =
      let s = record w.status { observed_generation = run.generation } in
      let pods = if run.cancel then propagate_cancel_to_pods a s.run_id w.pods else w.pods in
      let w' = record w { pods = pods } in
      subst (λ g. Counted w (after_get refs validated resolve a w g).0) (sym blocked.finds_run)
        (subst (λ p. Counted w (by_run_phase refs validated resolve a run w' s p).0) (sym e)
          (subst (λ o. Counted w (find_pipeline refs validated resolve a run w' s o).0)
            (sym blocked.is_inline) (find_pipeline-Counted a w w' s blocked refl refl)))

  reconciles-failed :
      (answers : ℕ → Answers) (n : ℕ) (w : World)
      → w.status.phase ≡ RunPhase.failed_application
      → (reconciles refs validated resolve answers n w).status.phase ≡ RunPhase.failed_application
  unfolding reconciles
  reconciles-failed answers zero w h = h
  reconciles-failed answers (suc n) w h =
      let same =
        Reach-over refs (subst (λ p. is_over p ≡ true) (sym h) refl)
          (next here (reconciled w validated resolve (answers 0))) in
      reconciles-failed (λ k. answers (suc k)) n _ (ap (λ s. s.phase) same ∙ h)

  reconciles-from :
      (answers : ℕ → Answers) (n : ℕ) (w : World)
      → ((k : ℕ) → Blocked refs validated run spec (answers k))
      → w.status.phase ≡ RunPhase.unset
      → w.transient_retries < 5
      → (n + w.transient_retries < 5
          → (reconciles refs validated resolve answers n w).status ≡ w.status)
        × (5 ≤ n + w.transient_retries
            → (reconciles refs validated resolve answers n w).status.phase
              ≡ RunPhase.failed_application)
  unfolding reconciles
  reconciles-from answers zero w blocked e h = (λ q. refl, λ q. absurd (omega (arith, h, q)))
  reconciles-from answers (suc n) w blocked e h =
      let w' = (reconcile_run refs validated resolve (answers 0) w).0 in
      let c = reconcile_run-Counted (answers 0) w (blocked 0) e in
      elim (Bool-cases (ltb (w.transient_retries + 1) 5)) [
        | inl b ↦
            let d = c.0 (ground (arith, b)) in
            let ih =
              reconciles-from (λ k. answers (suc k)) n w' (λ k. blocked (suc k))
                (ap (λ s. s.phase) d.0 ∙ e) (ground (arith, d.1, b)) in
            (λ q. ih.0 (omega (arith, d.1, q)) ∙ d.0, λ q. ih.1 (omega (arith, d.1, q)))
        | inr b ↦
            let d = c.1 (ground (arith, b)) in
            (
              λ q. absurd (ground (arith, b, q)),
              λ q. reconciles-failed (λ k. answers (suc k)) n w' d,
            )
      ]

  -- A new run has an inline specification, which refers to no secret, and a run id that is unset or a
  -- UUID, and the controller has counted no failed attempt for it yet. Suppose that at every reconcile the
  -- controller finds the run with this specification, validation meets an error of the registry, whatever
  -- else it finds, and the API server accepts an update of the status; the controller, which keeps the
  -- count in memory, is not restarted. Then the run's status is as it was through the first four
  -- reconciles, and from the fifth on the run has failed, as an application error.
  pub reconciles-outage :
      (answers : ℕ → Answers) (n : ℕ) (w : World)
      → ((k : ℕ) → Blocked refs validated run spec (answers k))
      → w.status ≡ new_status
      → w.transient_retries ≡ 0
      → (n < 5 → (reconciles refs validated resolve answers n w).status ≡ new_status)
        × (5 ≤ n
            → (reconciles refs validated resolve answers n w).status.phase
              ≡ RunPhase.failed_application)
  reconciles-outage answers n w blocked e h =
      let r = reconciles-from answers n w blocked (ap (λ s. s.phase) e) (omega (arith, h)) in
      (λ q. r.0 (omega (arith, h, q)) ∙ e, λ q. r.1 (omega (arith, h, q)))
