-- ===== src/Controller/Finishes/Starts.antt =====
-- The current stage of handleRunning, and startStage, in pkg/k8s/controllers/pipelinerun_controller.go
-- while nothing fails.
use datuplet.Prelude.{
  Bool-cases, List, Option-cases, Result-cases, Text, [], arith, false, get_elem?, inl, inr,
  is_some, none, ok, refl, set, some, suc, true, ℕ, ◌+◌, ◌<◌, ◌∷◌, ◌≡◌,
}
use datuplet.Pipeline.{ComponentSpec, PipelineSpec, StageSpec}
use datuplet.Controller.{Answers, Job, PipelineRunSpec, PipelineRunStatus, StageStatus}
use datuplet.Controller.Jobs.{
  build_component_job, create_config_map, create_job, resolved_of, stage_of,
}
use datuplet.Controller.Stages.{start_components}
use datuplet.Controller.Reconcile.{current_stage_idx, stage_succeeded}
use datuplet.Controller.Finishes.{
  Buildable, Live, LiveComponents, LiveStage, Serves, total_weight, weight,
}

pub record Current (gs : List StageSpec) (sts : List StageStatus) (j : ℕ) : Type 0 where
  pub stage : StageSpec
  pub status : StageStatus
  pub stage_at : get_elem? gs j ≡ some stage
  pub status_at : get_elem? sts j ≡ some status
  pub live : LiveStage stage status status.phase
  pub still_open : stage_succeeded status.phase ≡ false
  pub write :
      (st' : StageStatus)
      → LiveStage stage st' st'.phase
      → weight st'.phase st'.component_statuses < weight status.phase status.component_statuses
      → Live gs (set sts j st') × (total_weight (set sts j st') < total_weight sts)

pub current_stage_idx-Live :
    (k : ℕ) (gs : List StageSpec) (sts : List StageStatus) (n : ℕ)
    → Live gs sts
    → current_stage_idx k sts ≡ some n
    → (j : ℕ) × (n ≡ k + j) × Current gs sts j
unfolding current_stage_idx
current_stage_idx-Live k [] [] n h e = cc
current_stage_idx-Live k [] (st ∷ sts) n h e = absurd h
current_stage_idx-Live k (g ∷ gs) [] n h e = absurd h
current_stage_idx-Live k (g ∷ gs) (st ∷ sts) n h e = elim (Bool-cases (stage_succeeded st.phase)) [
  | inl done ↦
      let (j, q, c) = current_stage_idx-Live (k + 1) gs sts n h.1 (rw done at e) in
      (
        suc j,
        omega (arith, q),
        record {
          stage = c.stage;
          status = c.status;
          stage_at = c.stage_at;
          status_at = c.status_at;
          live = c.live;
          still_open = c.still_open;
          write = λ st' ok' less. let r = c.write st' ok' less in ((h.0, r.0), omega (arith, r.1));
        },
      )
  | inr open_ ↦ (
    0,
    ground (arith, e, open_),
    record {
      stage = g;
      status = st;
      stage_at = refl;
      status_at = refl;
      live = h.0;
      still_open = open_;
      write = λ st' ok' less. ((ok', h.1), omega (arith, less));
    },
  )
]

module _ (run : PipelineRunSpec) (a : Answers) (serves : Serves run a) (s : PipelineRunStatus)
    (frozen : PipelineSpec) where
  build-ok :
      (c : ComponentSpec)
      → is_some (stage_of frozen.stages c.name) ≡ true
      → is_some (resolved_of s.components c.name) ≡ true
      → (job : Job) × (build_component_job run a s frozen c ≡ ok job)
  unfolding build_component_job
  build-ok c h k = elim (Option-cases (stage_of frozen.stages c.name)) [
    | inl e ↦ absurd (ground (arith, h, e))
    | inr (g, e) ↦ elim (Option-cases (resolved_of s.components c.name)) [
      | inl e' ↦ absurd (ground (arith, k, e'))
      | inr (rc, e') ↦ elim (Result-cases (build_component_job run a s frozen c)) [
        | inl built ↦ built
        | inr (x, failure) ↦ absurd (ground (arith, failure, e, e', serves.configures c.name))
      ]
    ]
  ]

  pub start_components-live :
      (comps : List ComponentSpec) (jobs : List Job) (maps : List Text)
      → Buildable frozen.stages s.components comps
      → let r = start_components run a s frozen comps jobs maps in
        (r.stop ≡ none) × LiveComponents comps r.statuses
  unfolding start_components create_config_map create_job
  start_components-live [] jobs maps h = (refl, tt)
  start_components-live (c ∷ comps) jobs maps h =
      let (job, built) = build-ok c h.0.0 h.0.1 in
      rw
        (
          built,
          serves.owns,
          serves.maps_config c.name,
          serves.makes_job c.name,
          start_components,
          create_config_map,
          create_job,
        )
        (let ih = start_components-live comps _ _ h.1 in (ih.0, (refl, ih.1)))
