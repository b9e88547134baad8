-- ===== src/Controller/Splits.antt =====
-- The ways of one round of the loops of pkg/k8s/controllers/pipelinerun_controller.go.
use datuplet.Prelude.{
  List, Option, Option-cases, Result, Result-cases, Text, [], bytes, err, inl, inr, map, none, ok,
  some, ◌++◌, ◌∷◌, ◌≡◌,
}
use datuplet.Pipeline.{ComponentSpec, PipelineSpec}
use datuplet.Controller.{
  Answers, ComponentPhase, ComponentStatus, Job, PipelineRunSpec, PipelineRunStatus,
}
use datuplet.Controller.Jobs.{build_component_job, create_config_map, create_job}
use datuplet.Controller.Checks.{Tally, check_component, check_components}
use datuplet.Controller.Stages.{
  Starting, broken, component_status, pending_status, running_first, start_components, stopped,
  unbuilt,
}

module _ (run : PipelineRunSpec) (a : Answers) (s : PipelineRunStatus) (frozen : PipelineSpec) where
  -- a round of startStage stops at a Job that cannot be built, or at a call that fails, or goes on
  pub start_components-split :
      (P : Starting → Type 0) (c : ComponentSpec) (comps : List ComponentSpec) (jobs : List Job)
      (maps : List Text)
      → ((e : Text)
          → P (
              stopped jobs maps
                (component_status ComponentPhase.failed_application [] e none c
                  ∷ map pending_status comps)
                (unbuilt c.name e)))
      → ((maps' : List Text) (e : Text)
          → P (stopped jobs maps' (map pending_status (c ∷ comps)) (broken e)))
      → ((job : Job) (jobs' : List Job) (maps' : List Text)
          → build_component_job run a s frozen c ≡ ok job
          → create_job (a.create_job c.name) job jobs ≡ ok jobs'
          → P (running_first a c job (start_components run a s frozen comps jobs' maps')))
      → P (start_components run a s frozen (c ∷ comps) jobs maps)
  unfolding start_components
  start_components-split P c comps jobs maps bad fails goes =
      elim (Result-cases (build_component_job run a s frozen c)) [
        | inr (e, no_job) ↦ rw (no_job, start_components) (bad e)
        | inl (job, built) ↦ elim (Option-cases a.set_owner) [
          | inr (e, not_owned) ↦ rw (built, not_owned, start_components) (fails maps e)
          | inl owned ↦
              elim (Result-cases (
                create_config_map (a.create_config_map c.name) (bytes "gateway-config-" ++ job.name)
                  maps)) [
                    | inr (e, no_map) ↦ rw (built, owned, no_map, start_components) (fails maps e)
                    | inl (maps', mapped) ↦
                        elim (Result-cases (create_job (a.create_job c.name) job jobs)) [
                          | inr (e, not_made) ↦
                              rw (built, owned, mapped, not_made, start_components) (fails maps' e)
                          | inl (jobs', made) ↦
                              rw (built, owned, mapped, made, start_components)
                                (goes job jobs' maps' built made)
                        ]
                  ]
        ]
      ]

module _ (run : PipelineRunSpec) (a : Answers) (stage_name run_id : Text) where
  -- a round of checkStageComponents returns an error, or goes on and returns what the rest returns
  pub check_components-split :
      (P : Option (Result Text (List ComponentStatus × Tally)) → Type 0) (comp : ComponentSpec)
      (comps : List ComponentSpec) (cs : ComponentStatus) (css : List ComponentStatus) (k : Tally)
      → ((e : Text) → P (some (err e)))
      → ((cs' : ComponentStatus) (k' : Tally)
          → check_component run a stage_name run_id cs.phase cs k ≡ ok (cs', k')
          → check_components run a stage_name run_id comps css k' ≡ none
          → P none)
      → ((cs' : ComponentStatus) (k' : Tally) (css' : List ComponentStatus) (k'' : Tally)
          → check_component run a stage_name run_id cs.phase cs k ≡ ok (cs', k')
          → check_components run a stage_name run_id comps css k' ≡ some (ok (css', k''))
          → P (some (ok (cs' ∷ css', k''))))
      → P (check_components run a stage_name run_id (comp ∷ comps) (cs ∷ css) k)
  unfolding check_components
  check_components-split P comp comps cs css k fails out goes =
      elim (Result-cases (check_component run a stage_name run_id cs.phase cs k)) [
        | inr (e, failure) ↦ rw (failure, check_components) (fails e)
        | inl ((cs', k'), checked) ↦
            elim (Option-cases (check_components run a stage_name run_id comps css k')) [
              | inl q ↦ rw (checked, q, check_components) (out cs' k' checked q)
              | inr (err e, q) ↦ rw (checked, q, check_components) (fails e)
              | inr (ok (css', k''), q) ↦
                  rw (checked, q, check_components) (goes cs' k' css' k'' checked q)
            ]
      ]
