-- ===== src/Controller/Finishes/Checks.antt =====
-- checkStageComponents of pkg/k8s/controllers/pipelinerun_controller.go while nothing fails.
use datuplet.Prelude.{
  List, Option, Option-cases, Result, Result-cases, Text, [], arith, err, false, inl, inr, none, ok,
  refl, some, subst, true, ◌&&◌, ◌∙◌, ◌∷◌, ◌≡◌,
}
use datuplet.Pipeline.{ComponentSpec}
use datuplet.Controller.{Answers, ComponentPhase, ComponentStatus, PipelineRunSpec}
use datuplet.Controller.Jobs.{component_job_name}
use datuplet.Controller.Checks.{
  Tally, apply_condition, apply_conditions, check_component, check_components, check_live,
  job_success,
}
use datuplet.Controller.Finishes.{LiveComponents, Serves, all_done, is_live, is_succeeded}

module _ (run : PipelineRunSpec) (a : Answers) (serves : Serves run a)
    (stage_name run_id : Text) where
  -- a component that is checked has succeeded, nothing else is counted
  abbrev Passed : ComponentPhase → Tally → Result Text (ComponentStatus × Tally) → Type 0
  Passed p k (err e) = ⊥
  Passed p k (ok (cs', k')) =
      (cs'.phase ≡ ComponentPhase.succeeded)
      × (k'.any_failed_user ≡ k.any_failed_user)
      × (k'.any_failed_app ≡ k.any_failed_app)
      × (k'.all_succeeded ≡ (k.all_succeeded && is_succeeded p))

  check_live-Passed :
      (cs : ComponentStatus) (k : Tally) (p : ComponentPhase)
      → is_succeeded p ≡ false
      → Passed p k (check_live run a stage_name run_id cs k)
  unfolding check_live apply_conditions apply_condition job_success
  check_live-Passed cs k p h =
      let (view, m, seen, complete) =
        serves.completes (component_job_name run.name stage_name cs.name run_id) in
      rw (seen, complete, check_live, apply_conditions) (refl, refl, refl, ground (arith, h))

  check_component-Passed :
      (p : ComponentPhase) (cs : ComponentStatus) (k : Tally)
      → cs.phase ≡ p
      → is_live p ≡ true
      → Passed p k (check_component run a stage_name run_id p cs k)
  unfolding check_component
  check_component-Passed ComponentPhase.pending cs k e h =
      check_live-Passed cs k ComponentPhase.pending refl
  check_component-Passed ComponentPhase.running cs k e h =
      check_live-Passed cs k ComponentPhase.running refl
  check_component-Passed ComponentPhase.succeeded cs k e h = (e, refl, refl, ground arith)
  check_component-Passed ComponentPhase.failed_user cs k e h = cc
  check_component-Passed ComponentPhase.failed_application cs k e h = cc

  abbrev pub AllPassed :
      List ComponentSpec
      → List ComponentStatus
      → Tally
      → Option (Result Text (List ComponentStatus × Tally))
      → Type 0
  AllPassed comps css k none = ⊥
  AllPassed comps css k (some (err e)) = ⊥
  AllPassed comps css k (some (ok (css', k'))) =
      LiveComponents comps css'
      × (all_done css' ≡ true)
      × (k'.any_failed_user ≡ k.any_failed_user)
      × (k'.any_failed_app ≡ k.any_failed_app)
      × (k'.all_succeeded ≡ (k.all_succeeded && all_done css))

  pub check_components-AllPassed :
      (comps : List ComponentSpec) (css : List ComponentStatus) (k : Tally)
      → LiveComponents comps css
      → AllPassed comps css k (check_components run a stage_name run_id comps css k)
  unfolding check_components
  check_components-AllPassed [] [] k h = (tt, refl, refl, refl, ground arith)
  check_components-AllPassed [] (cs ∷ css) k h = absurd h
  check_components-AllPassed (comp ∷ comps) [] k h = absurd h
  check_components-AllPassed (comp ∷ comps) (cs ∷ css) k h =
      elim (Result-cases (check_component run a stage_name run_id cs.phase cs k)) [
        | inr (e, failure) ↦
            absurd
              (subst (Passed cs.phase k) failure (check_component-Passed cs.phase cs k refl h.0))
        | inl ((cs', k'), checked) ↦
            let p : Passed cs.phase k (ok (cs', k')) =
              subst (Passed cs.phase k) checked (check_component-Passed cs.phase cs k refl h.0) in
            let ih = check_components-AllPassed comps css k' h.1 in
            elim (Option-cases (check_components run a stage_name run_id comps css k')) [
              | inl q ↦ absurd (subst (AllPassed comps css k') q ih)
              | inr (err e, q) ↦ absurd (subst (AllPassed comps css k') q ih)
              | inr (ok (css', k''), q) ↦
                  let r : AllPassed comps css k' (some (ok (css', k''))) =
                    subst (AllPassed comps css k') q ih in
                  rw (checked, q, check_components)
                    (
                      (ground (arith, p.0), r.0),
                      ground (arith, p.0, r.1),
                      r.2 ∙ p.1,
                      r.3 ∙ p.2,
                      ground (arith, r.4, p.3),
                    )
            ]
      ]
