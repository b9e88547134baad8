-- ===== src/Controller/Frozen/Images.antt =====
-- The images that checkStageComponents of pkg/k8s/controllers/pipelinerun_controller.go records.
use datuplet.Prelude.{
  Bool, Bool-cases, List, Option, Result, Text, [], arith, err, false, inl, inr, is_empty, none, ok,
  refl, some, subst, sym, text_eq, true, ◌&&◌, ◌==◌, ◌∙◌, ◌∷◌, ◌≡◌,
}
use datuplet.Pipeline.{ComponentSpec}
use datuplet.Controller.{
  Answers, ComponentPhase, ComponentStatus, ConditionType, Got-cases, JobCondition, JobView,
  PipelineRunSpec, ResolvedComponentStatus, job_complete, job_failed, other_condition,
}
use datuplet.Controller.Splits.{check_components-split}
use datuplet.Controller.Jobs.{component_job_name}
use datuplet.Controller.Checks.{
  Tally, apply_condition, apply_conditions, check_component, check_components, check_live,
  job_failure, record_component_image_id,
}
use datuplet.Controller.Frozen.{SameComponents, SameComponents-refl, SameComponents-trans}

empty_text : (t : Text) → is_empty t ≡ true → t ≡ []
empty_text [] h = refl
empty_text (c ∷ t) h = cc

pub record_component_image_id-Same :
    (name image : Text) (rs : List ResolvedComponentStatus)
    → SameComponents rs (record_component_image_id name image rs)
unfolding record_component_image_id
record_component_image_id-Same name image [] = tt
record_component_image_id-Same name image (r ∷ rs) =
    let same : SameComponents (r ∷ rs) (r ∷ rs) = SameComponents-refl (r ∷ rs) in
    elim (Bool-cases (is_empty image)) [
      | inl e ↦ rw e same
      | inr e ↦ elim (Bool-cases (r.name == name && is_empty r.image_id)) [
        | inl e' ↦
            rw (e, e')
              (
                (
                  refl,
                  refl,
                  refl,
                  refl,
                  λ h. absurd (h (empty_text r.image_id (ground (arith, e')))),
                ),
                SameComponents-refl rs,
              )
        | inr e' ↦ rw (e, e') (same.0, record_component_image_id-Same name image rs)
      ]
    ]

module _ (a : Answers) (job_name : Text) (view : JobView) where
  apply_condition-resolved :
      (t : ConditionType) (holds : Bool) (message : Text) (r : ComponentStatus × Tally)
      → (apply_condition a job_name view t holds message r).1.resolved ≡ r.1.resolved
  unfolding apply_condition job_failure
  apply_condition-resolved job_complete true message (cs, k) = refl
  apply_condition-resolved job_failed true message (cs, k) = ground arith
  apply_condition-resolved job_complete false message (cs, k) = refl
  apply_condition-resolved job_failed false message (cs, k) = refl
  apply_condition-resolved other_condition holds message (cs, k) = refl

  apply_conditions-resolved :
      (conditions : List JobCondition) (r : ComponentStatus × Tally)
      → (apply_conditions a job_name view conditions r).1.resolved ≡ r.1.resolved
  unfolding apply_conditions
  apply_conditions-resolved [] r = refl
  apply_conditions-resolved (c ∷ cs) r =
      apply_conditions-resolved cs _
      ∙ apply_condition-resolved c.condition_type c.is_true c.message r

module _ (run : PipelineRunSpec) (a : Answers) (stage_name run_id : Text) where
  abbrev SameTally : Tally → Result Text (ComponentStatus × Tally) → Type 0
  SameTally k (err e) = Unit
  SameTally k (ok (cs, k')) = SameComponents k.resolved k'.resolved

  check_live-Same :
      (cs : ComponentStatus) (k : Tally) → SameTally k (check_live run a stage_name run_id cs k)
  unfolding check_live
  check_live-Same cs k =
      let job_name = component_job_name run.name stage_name cs.name run_id in
      elim (Got-cases (a.job job_name)) [
        | inl absent ↦ rw (absent, check_live) (SameComponents-refl k.resolved)
        | inr (inl (e, failure)) ↦ rw (failure, check_live) tt
        | inr (inr (view, seen)) ↦
            rw (seen, check_live)
              (subst (SameComponents k.resolved)
                (sym (apply_conditions-resolved a job_name view view.conditions _))
                (record_component_image_id-Same cs.name view.image_id k.resolved))
      ]

  check_component-Same :
      (p : ComponentPhase) (cs : ComponentStatus) (k : Tally)
      → SameTally k (check_component run a stage_name run_id p cs k)
  unfolding check_component
  check_component-Same ComponentPhase.succeeded cs k = SameComponents-refl k.resolved
  check_component-Same ComponentPhase.failed_user cs k = SameComponents-refl k.resolved
  check_component-Same ComponentPhase.failed_application cs k = SameComponents-refl k.resolved
  check_component-Same ComponentPhase.pending cs k = check_live-Same cs k
  check_component-Same ComponentPhase.running cs k = check_live-Same cs k

  abbrev pub SameLoop : Tally → Option (Result Text (List ComponentStatus × Tally)) → Type 0
  SameLoop k none = Unit
  SameLoop k (some (err e)) = Unit
  SameLoop k (some (ok (css, k'))) = SameComponents k.resolved k'.resolved

  pub check_components-Same :
      (comps : List ComponentSpec) (css : List ComponentStatus) (k : Tally)
      → SameLoop k (check_components run a stage_name run_id comps css k)
  unfolding check_components
  check_components-Same [] css k = SameComponents-refl k.resolved
  check_components-Same (comp ∷ comps) [] k = tt
  check_components-Same (comp ∷ comps) (cs ∷ css) k =
      check_components-split run a stage_name run_id (SameLoop k) comp comps cs css k (λ e. tt)
        (λ cs' k' checked out. tt)
        (λ cs' k' css' k'' checked rest.
          SameComponents-trans k.resolved k'.resolved k''.resolved
            (subst (SameTally k) checked (check_component-Same cs.phase cs k))
            (subst (SameLoop k') rest (check_components-Same comps css k')))
