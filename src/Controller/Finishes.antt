-- ===== src/Controller/Finishes.antt =====
-- The progress of a run in pkg/k8s/controllers/pipelinerun_controller.go while nothing fails.
pub mod Starts
pub mod Checks
pub mod Done
pub mod Ends
pub mod Admits
pub mod Succeeds
use datuplet.Prelude.{
  All, Bool, List, Text, [], all, false, get_elem?, if◌then◌else◌, is_some, none, some, text_eq,
  true, ℕ, ◌+◌, ◌∷◌, ◌≡◌,
}
use datuplet.Pipeline.{ComponentSpec, PipelineSpec, StageSpec}
use datuplet.Controller.{
  Answers, ComponentPhase, ComponentStatus, JobView, PipelineRunSpec, PipelineRunStatus,
  ResolvedComponentStatus, RunPhase, StagePhase, StageStatus, committing, failed_application,
  failed_user, found, job_complete, pending, running, succeeded,
}
use datuplet.Controller.Jobs.{create_config_map, create_job, resolved_of, stage_of}

-- a cluster in which the calls of a reconcile succeed and every Job is complete
pub record Serves (run : PipelineRunSpec) (a : Answers) : Type 0 where
  pub finds_run : a.run ≡ found run
  pub owns : a.set_owner ≡ none
  pub configures : (name : Text) → a.gateway_config name ≡ none
  pub maps_config : (name : Text) → a.create_config_map name ≡ none
  pub makes_job : (name : Text) → a.create_job name ≡ none
  pub updates : a.update_status ≡ none
  pub completes :
      (name : Text)
      → (view : JobView) × (m : Text) × (a.job name ≡ found view)
        × (view.conditions
            ≡ record { condition_type = job_complete; is_true = true; message = m } ∷ [])

abbrev pub is_live : ComponentPhase → Bool
is_live ComponentPhase.pending = true
is_live ComponentPhase.running = true
is_live ComponentPhase.succeeded = true
is_live ComponentPhase.failed_user = false
is_live ComponentPhase.failed_application = false

abbrev pub is_succeeded : ComponentPhase → Bool
is_succeeded ComponentPhase.pending = false
is_succeeded ComponentPhase.running = false
is_succeeded ComponentPhase.succeeded = true
is_succeeded ComponentPhase.failed_user = false
is_succeeded ComponentPhase.failed_application = false

-- a status for each component, none of them failed
abbrev pub LiveComponents : List ComponentSpec → List ComponentStatus → Type 0
LiveComponents [] [] = Unit
LiveComponents [] (cs ∷ css) = ⊥
LiveComponents (c ∷ comps) [] = ⊥
LiveComponents (c ∷ comps) (cs ∷ css) = (is_live cs.phase ≡ true) × LiveComponents comps css

abbrev pub all_done : List ComponentStatus → Bool
all_done css = all (λ (cs : ComponentStatus). is_succeeded cs.phase) css

abbrev pub LiveStage : StageSpec → StageStatus → StagePhase → Type 0
LiveStage g st StagePhase.pending = Unit
LiveStage g st StagePhase.running = LiveComponents g.components st.component_statuses
LiveStage g st StagePhase.committing = ⊥
LiveStage g st StagePhase.succeeded = Unit
LiveStage g st StagePhase.failed_user = ⊥
LiveStage g st StagePhase.failed_application = ⊥

abbrev pub Live : List StageSpec → List StageStatus → Type 0
Live [] [] = Unit
Live [] (st ∷ sts) = ⊥
Live (g ∷ gs) [] = ⊥
Live (g ∷ gs) (st ∷ sts) = LiveStage g st st.phase × Live gs sts

-- how many reconciles a stage needs at most
abbrev pub weight : StagePhase → List ComponentStatus → ℕ
weight StagePhase.pending css = 3
weight StagePhase.running css = if all_done css then 1 else 2
weight StagePhase.committing css = 0
weight StagePhase.succeeded css = 0
weight StagePhase.failed_user css = 0
weight StagePhase.failed_application css = 0

abbrev pub total_weight : List StageStatus → ℕ
total_weight [] = 0
total_weight (st ∷ sts) = weight st.phase st.component_statuses + total_weight sts

-- the Jobs of these components can be built
abbrev pub Buildable : List StageSpec → List ResolvedComponentStatus → List ComponentSpec → Type 0
Buildable gs rcs comps =
    All
      (λ (c : ComponentSpec).
        (is_some (stage_of gs c.name) ≡ true) × (is_some (resolved_of rcs c.name) ≡ true))
      comps

-- a running run of which nothing has failed
pub record Ready (f : PipelineSpec) (s : PipelineRunStatus) : Type 0 where
  pub is_running : s.phase ≡ RunPhase.running
  pub is_frozen : s.resolved_spec ≡ some f
  pub live : Live f.stages s.stage_statuses
  pub buildable :
      (j : ℕ) (g : StageSpec)
      → get_elem? f.stages j ≡ some g
      → Buildable f.stages s.components g.components
