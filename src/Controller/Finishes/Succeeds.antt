-- ===== src/Controller/Finishes/Succeeds.antt =====
-- A run in pkg/k8s/controllers/pipelinerun_controller.go from its creation to its end, while nothing fails.
use datuplet.Prelude.{
  List, Option, Text, arith, if◌then◌else◌, length, none, subst, suc, sym, text_eq, zero, ℕ, ◌*◌,
  ◌+◌, ◌≡◌, ◌≤◌,
}
use datuplet.Pipeline.{Finding, Pipeline, PipelineSpec, ResolvedComponent}
use datuplet.Controller.{Answers, PipelineRunSpec, RunPhase, World}
use datuplet.Controller.Admission.{find_pipeline, handle_pending}
use datuplet.Controller.Jobs.{propagate_cancel_to_pods}
use datuplet.Controller.Reconcile.{after_get, by_run_phase, reconcile_run}
use datuplet.Controller.Finishes.{Serves}
use datuplet.Controller.Finishes.Ends.{reconciles, reconciles-succeed}
use datuplet.Controller.Finishes.Admits.{Started, Welcome, find_pipeline-Started}

module _ (refs : Pipeline → List Text) (validated : Pipeline → List Finding)
    (resolve : Text → Text → Option ResolvedComponent × List Finding) (run : PipelineRunSpec)
    (spec : PipelineSpec) where
  first_reconcile-Started :
      (a : Answers) (w : World) (welcome : Welcome refs validated resolve run spec a)
      → (serves : Serves run a) → w.status.phase ≡ RunPhase.unset
      → Started refs validated resolve run spec a welcome serves.updates
          (reconcile_run refs validated resolve a w).0.status
  unfolding reconcile_run after_get by_run_phase handle_pending
  first_reconcile-Started a w welcome serves e =
      let s = record w.status { observed_generation = run.generation } in
      let pods = if run.cancel then propagate_cancel_to_pods a s.run_id w.pods else w.pods in
      let w' = record w { pods = pods } in
      let Goal = Started refs validated resolve run spec a welcome serves.updates in
      subst (λ g. Goal (after_get refs validated resolve a w g).0.status) (sym serves.finds_run)
        (subst (λ p. Goal (by_run_phase refs validated resolve a run w' s p).0.status) (sym e)
          (subst (λ o. Goal (find_pipeline refs validated resolve a run w' s o).0.status)
            (sym welcome.is_inline)
            (find_pipeline-Started refs validated resolve run spec a welcome serves.updates w' s)))

  -- A new run with an inline specification, which is no preview, refers to no secret and which
  -- validation and the registry let pass, succeeds: in a cluster whose calls succeed and whose Jobs are
  -- complete when they are looked at, it takes no more than three reconciles for each stage and two.
  pub new_run-succeeds :
      (answers : ℕ → Answers) (n : ℕ) (w : World)
      → run.preview ≡ none
      → w.status.phase ≡ RunPhase.unset
      → Welcome refs validated resolve run spec (answers 0)
      → ((k : ℕ) → Serves run (answers k))
      → 3 * length spec.stages + 2 ≤ n
      → (reconciles refs validated resolve answers n w).status.phase ≡ RunPhase.succeeded
  unfolding reconciles
  new_run-succeeds answers zero w no_preview e welcome serves h = absurd (omega (arith, h))
  new_run-succeeds answers (suc n) w no_preview e welcome serves h =
      let (f, ready, weighs) = first_reconcile-Started (answers 0) w welcome (serves 0) e in
      reconciles-succeed refs validated resolve run no_preview f (λ k. answers (suc k)) n _
        (λ k. serves (suc k)) ready (omega (arith, h, weighs))
