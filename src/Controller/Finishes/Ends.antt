-- ===== src/Controller/Finishes/Ends.antt =====
-- A run that is reconciled again and again by pkg/k8s/controllers/pipelinerun_controller.go.
use datuplet.Prelude.{
  List, Option, Text, ap, arith, if◌then◌else◌, inl, inr, none, refl, subst, suc, sym, true, zero,
  ℕ, ◌<◌, ◌∙◌, ◌≡◌,
}
use datuplet.Pipeline.{Finding, Pipeline, PipelineSpec, ResolvedComponent}
use datuplet.Controller.{Answers, PipelineRunSpec, RunPhase, World}
use datuplet.Controller.Jobs.{propagate_cancel_to_pods}
use datuplet.Controller.Reconcile.{
  after_get, by_run_phase, handle_running, reconcile_run, with_frozen,
}
use datuplet.Controller.Runs.{here, next, reconciled}
use datuplet.Controller.Frozen.Kept.{Reach-over}
use datuplet.Controller.Frozen.{is_over}
use datuplet.Controller.Finishes.{Ready, Serves, total_weight}
use datuplet.Controller.Finishes.Done.{Advances, observed, with_frozen-Advances}

-- reconcile after reconcile
unfoldable pub reconciles :
    (Pipeline → List Text)
    → (Pipeline → List Finding)
    → (Text → Text → Option ResolvedComponent × List Finding)
    → (ℕ → Answers)
    → ℕ
    → World
    → World
reconciles refs validated resolve answers zero w = w
reconciles refs validated resolve answers (suc n) w =
    reconciles refs validated resolve (λ k. answers (suc k)) n
      (reconcile_run refs validated resolve (answers 0) w).0

module _ (refs : Pipeline → List Text) (validated : Pipeline → List Finding)
    (resolve : Text → Text → Option ResolvedComponent × List Finding) (run : PipelineRunSpec)
    (no_preview : run.preview ≡ none) (f : PipelineSpec) where
  reconcile_run-Advances :
      (a : Answers) (w : World)
      → Serves run a
      → Ready f w.status
      → Advances f
          (total_weight w.status.stage_statuses)
          (reconcile_run refs validated resolve a w).0.status
  unfolding reconcile_run after_get by_run_phase handle_running
  reconcile_run-Advances a w serves ready =
      let s = record w.status { observed_generation = run.generation } in
      let pods = if run.cancel then propagate_cancel_to_pods a s.run_id w.pods else w.pods in
      let w' = record w { pods = pods } in
      let n = total_weight w.status.stage_statuses in
      subst (λ g. Advances f n (after_get refs validated resolve a w g).0.status)
        (sym serves.finds_run)
        (subst (λ p. Advances f n (by_run_phase refs validated resolve a run w' s p).0.status)
          (sym ready.is_running)
          (subst (λ o. Advances f n (with_frozen run a w' s o).0.status) (sym ready.is_frozen)
            (with_frozen-Advances run a serves no_preview w' s f (observed run.generation ready))))

  reconciles-over :
      (answers : ℕ → Answers) (n : ℕ) (w : World)
      → w.status.phase ≡ RunPhase.succeeded
      → (reconciles refs validated resolve answers n w).status.phase ≡ RunPhase.succeeded
  unfolding reconciles
  reconciles-over answers zero w h = h
  reconciles-over answers (suc n) w h =
      let same =
        Reach-over refs (subst (λ p. is_over p ≡ true) (sym h) refl)
          (next here (reconciled w validated resolve (answers 0))) in
      reconciles-over (λ k. answers (suc k)) n _ (ap (λ s. s.phase) same ∙ h)

  -- A run of which nothing has failed finishes, and is not a preview: in a cluster whose calls succeed and
  -- whose Jobs are complete when they are looked at, it has succeeded after as many reconciles as its
  -- stages weigh and one; a stage weighs three at most.
  pub reconciles-succeed :
      (answers : ℕ → Answers) (n : ℕ) (w : World)
      → ((k : ℕ) → Serves run (answers k))
      → Ready f w.status
      → total_weight w.status.stage_statuses < n
      → (reconciles refs validated resolve answers n w).status.phase ≡ RunPhase.succeeded
  unfolding reconciles
  reconciles-succeed answers zero w serves ready h = absurd (omega (arith, h))
  reconciles-succeed answers (suc n) w serves ready h =
      elim (reconcile_run-Advances (answers 0) w (serves 0) ready) [
        | inl done ↦ reconciles-over (λ k. answers (suc k)) n _ done
        | inr (ready', less) ↦
            reconciles-succeed (λ k. answers (suc k)) n _ (λ k. serves (suc k)) ready'
              (omega (arith, h, less))
      ]
