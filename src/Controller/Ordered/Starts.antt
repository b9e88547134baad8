-- ===== src/Controller/Ordered/Starts.antt =====
-- startStage of pkg/k8s/controllers/pipelinerun_controller.go: a status for each component.
use datuplet.Prelude.{List, Option-cases, Text, [], inl, inr, map, refl, set, some, ℕ, ◌∷◌, ◌≡◌}
use datuplet.Pipeline.{ComponentSpec, PipelineSpec, StageSpec}
use datuplet.Controller.{
  Answers, Job, PipelineRunSpec, PipelineRunStatus, RunPhase, StageStatus, World,
}
use datuplet.Controller.Stages.{
  Starting, after_start, broken, pending_status, start_components, start_stage, unbuilt,
}
use datuplet.Controller.Splits.{start_components-split}
use datuplet.Controller.Ordered.{
  InOrder, Matches, Orderly, Safe, StageOk, running-Ordered, update_status-Safe,
}

pending-Matches : (comps : List ComponentSpec) → Matches comps (map pending_status comps)
pending-Matches [] = tt
pending-Matches (c ∷ comps) = (refl, λ h. cc, pending-Matches comps)

module _ (run : PipelineRunSpec) (a : Answers) (s : PipelineRunStatus) where
  start_components-Matches :
      (frozen : PipelineSpec) (comps : List ComponentSpec) (jobs : List Job) (maps : List Text)
      → Matches comps (start_components run a s frozen comps jobs maps).statuses
  unfolding start_components
  start_components-Matches frozen [] jobs maps = tt
  start_components-Matches frozen (c ∷ comps) jobs maps =
      start_components-split run a s frozen (λ r. Matches (c ∷ comps) r.statuses) c comps jobs maps
        (λ e. (refl, λ h. cc, pending-Matches comps)) (λ maps' e. pending-Matches (c ∷ comps))
        (λ job jobs' maps' built made.
          (refl, λ h. cc, start_components-Matches frozen comps jobs' maps'))

module _ (run : PipelineRunSpec) (a : Answers) (w : World) (s : PipelineRunStatus)
    (frozen : PipelineSpec) (i : ℕ) (g : StageSpec) (st : StageStatus) (before : Orderly w.status)
    (is_running : s.phase ≡ RunPhase.running) (is_frozen : s.resolved_spec ≡ some frozen)
    (write : (st' : StageStatus)
      → StageOk g st' st'.phase
      → InOrder frozen.stages (set s.stage_statuses i st')) where
  after_start-Safe :
      (p : Starting) → Matches g.components p.statuses → Safe (after_start run a s w i st p)
  unfolding after_start
  after_start-Safe p h = elim (Option-cases p.stop) [
    | inl e ↦
        rw (e, after_start)
          (update_status-Safe a _ _ _ before
            (running-Ordered _ _ _ frozen is_running is_frozen (write _ h)) (λ q. cc))
    | inr (broken b, e) ↦ rw (e, after_start) (before, λ q. cc)
    | inr (unbuilt n b, e) ↦
        rw (e, after_start)
          (update_status-Safe a _ _ _ before
            (running-Ordered _ _ _ frozen is_running is_frozen (write _ tt)) (λ q. cc))
  ]

  pub start_stage-Safe : Safe (start_stage run a s w frozen i g st)
  unfolding start_stage
  start_stage-Safe =
      after_start-Safe _ (start_components-Matches run a s frozen g.components w.jobs w.config_maps)
