-- ===== src/Controller/Finishes/Done.antt =====
-- One reconcile of pkg/k8s/controllers/pipelinerun_controller.go while nothing fails.
use datuplet.Prelude.{
  Bool-cases, List, Option-cases, Text, [], ap, arith, err, false, get_elem?, if◌then◌else◌, inl,
  inr, is_some, none, ok, refl, some, subst, sym, true, ℕ, ◌<◌, ◌∷◌, ◌≡◌, ◌⊎◌,
}
use datuplet.Pipeline.{ComponentSpec, PipelineSpec, StageSpec}
use datuplet.Controller.{
  Answers, Outcome, PipelineRunSpec, PipelineRunStatus, ResolvedComponentStatus, RunPhase,
  StagePhase, World,
}
use datuplet.Controller.Jobs.{resolved_of}
use datuplet.Controller.Admission.{update_status}
use datuplet.Controller.Checks.{after_check, check_components, check_stage_components, start_tally}
use datuplet.Controller.Stages.{after_start, start_components, start_stage}
use datuplet.Controller.Reconcile.{
  by_stage_phase, current_stage_idx, preview_deadline_passed, run_stage, stage_succeeded,
  with_frozen,
}
use datuplet.Controller.Frozen.{SameComponents}
use datuplet.Controller.Frozen.Images.{SameLoop, check_components-Same}
use datuplet.Controller.Finishes.{
  Buildable, LiveComponents, LiveStage, Ready, Serves, all_done, total_weight, weight,
}
use datuplet.Controller.Finishes.Starts.{Current, current_stage_idx-Live, start_components-live}
use datuplet.Controller.Finishes.Checks.{AllPassed, check_components-AllPassed}

-- after a reconcile the run has succeeded, or is ready and has less to do
abbrev pub Advances : PipelineSpec → ℕ → PipelineRunStatus → Type 0
Advances f n s = (s.phase ≡ RunPhase.succeeded) ⊎ (Ready f s × (total_weight s.stage_statuses < n))

-- an update that goes through
pub updated :
    (a : Answers) (w : World) (s : PipelineRunStatus) (o : Outcome)
    → a.update_status ≡ none
    → (update_status a w s o).0.status ≡ s
updated a w s o e = rw e refl

resolved_of-Same :
    (rs ts : List ResolvedComponentStatus) (name : Text)
    → SameComponents rs ts
    → is_some (resolved_of rs name) ≡ true
    → is_some (resolved_of ts name) ≡ true
unfolding resolved_of
resolved_of-Same [] ts name h k = cc
resolved_of-Same (r ∷ rs) [] name h k = absurd h
resolved_of-Same (r ∷ rs) (t ∷ ts) name h k =
    let ih = resolved_of-Same rs ts name h.1 in ground (arith, ih, h.0.0, k)

Buildable-Same :
    (gs : List StageSpec) (rs ts : List ResolvedComponentStatus) (comps : List ComponentSpec)
    → SameComponents rs ts
    → Buildable gs rs comps
    → Buildable gs ts comps
Buildable-Same gs rs ts [] h b = tt
Buildable-Same gs rs ts (c ∷ comps) h b =
    ((b.0.0, resolved_of-Same rs ts c.name h b.0.1), Buildable-Same gs rs ts comps h b.1)

module _ (run : PipelineRunSpec) (a : Answers) (serves : Serves run a) (w : World)
    (s : PipelineRunStatus) (f : PipelineSpec) (ready : Ready f s) (i : ℕ)
    (c : Current f.stages s.stage_statuses i) where
  start_stage-Advances :
      c.status.phase ≡ StagePhase.pending
      → Advances f
          (total_weight s.stage_statuses)
          (start_stage run a s w f i c.stage c.status).0.status
  unfolding start_stage after_start
  start_stage-Advances p =
      let r =
        start_components-live run a serves s f c.stage.components w.jobs w.config_maps
          (ready.buildable i c.stage c.stage_at) in
      let css = (start_components run a s f c.stage.components w.jobs w.config_maps).statuses in
      let st' = record c.status {
        component_statuses = css;
        phase = StagePhase.running;
        start_time = some a.now;
      } in
      let light : (if all_done css then 1 else 2) < 3 = ground arith in
      let q = c.write st' r.1 (
        subst (λ p'. (if all_done css then 1 else 2) < weight p' c.status.component_statuses)
          (sym p) light) in
      rw (r.0, after_start)
        (subst (Advances f (total_weight s.stage_statuses)) (sym (updated a _ _ _ serves.updates)) (
          inr (
            record {
              is_running = ready.is_running;
              is_frozen = ready.is_frozen;
              live = q.0;
              buildable = ready.buildable;
            },
            q.1,
          )))

  check_stage_components-Advances :
      c.status.phase ≡ StagePhase.running
      → Advances f
          (total_weight s.stage_statuses)
          (check_stage_components a w s run i c.stage c.status).0.status
  unfolding check_stage_components after_check
  check_stage_components-Advances p =
      let k0 = start_tally s.components in
      let css0 = c.status.component_statuses in
      let h : LiveComponents c.stage.components css0 =
        subst (LiveStage c.stage c.status) p c.live in
      let passed =
        check_components-AllPassed run a serves c.stage.name s.run_id c.stage.components css0 k0
          h in
      let same = check_components-Same run a c.stage.name s.run_id c.stage.components css0 k0 in
      let heavy : weight c.status.phase css0 ≡ (if all_done css0 then 1 else 2) =
        ap (λ p'. weight p' css0) p in
      elim (Option-cases
        (check_components run a c.stage.name s.run_id c.stage.components css0 k0)) [
          | inl e ↦ absurd (
              subst (AllPassed run a serves c.stage.name s.run_id c.stage.components css0 k0) e
                passed)
          | inr (err x, e) ↦ absurd (
              subst (AllPassed run a serves c.stage.name s.run_id c.stage.components css0 k0) e
                passed)
          | inr (ok (css, k), e) ↦
              let r : AllPassed run a serves c.stage.name s.run_id c.stage.components css0 k0
                  (some (ok (css, k))) =
                subst (AllPassed run a serves c.stage.name s.run_id c.stage.components css0 k0) e
                  passed in
              let b = λ (j : ℕ) (g : StageSpec) (at : get_elem? f.stages j ≡ some g).
                Buildable-Same f.stages s.components k.resolved g.components
                  (subst (SameLoop run a c.stage.name s.run_id k0) e same)
                  (ready.buildable j g at) in
              elim (Bool-cases (all_done css0)) [
                | inl done ↦
                    let q =
                      c.write
                        (record c.status {
                          component_statuses = css;
                          phase = StagePhase.succeeded;
                          completion_time = some a.now;
                        })
                        tt (ground (arith, heavy, done)) in
                    rw (e, r.2, r.3, r.4, done, check_stage_components, after_check)
                      (subst (Advances f (total_weight s.stage_statuses))
                        (sym (updated a _ _ _ serves.updates))
                        (inr (
                          record {
                            is_running = ready.is_running;
                            is_frozen = ready.is_frozen;
                            live = q.0;
                            buildable = b;
                          },
                          q.1,
                        )))
                | inr busy ↦
                    let st' = record c.status { component_statuses = css } in
                    let light : weight c.status.phase css ≡ (if all_done css then 1 else 2) =
                      ap (λ p'. weight p' css) p in
                    let q =
                      c.write st' (subst (LiveStage c.stage st') (sym p) r.0)
                        (ground (arith, heavy, light, r.1, busy)) in
                    rw (e, r.2, r.3, r.4, busy, check_stage_components, after_check)
                      (subst (Advances f (total_weight s.stage_statuses))
                        (sym (updated a _ _ _ serves.updates))
                        (inr (
                          record {
                            is_running = ready.is_running;
                            is_frozen = ready.is_frozen;
                            live = q.0;
                            buildable = b;
                          },
                          q.1,
                        )))
              ]
        ]

  by_stage_phase-Advances :
      (p : StagePhase)
      → c.status.phase ≡ p
      → stage_succeeded p ≡ false
      → Advances f
          (total_weight s.stage_statuses)
          (by_stage_phase run a w s f i c.stage c.status p).0.status
  unfolding by_stage_phase
  by_stage_phase-Advances StagePhase.pending e o = start_stage-Advances e
  by_stage_phase-Advances StagePhase.running e o = check_stage_components-Advances e
  by_stage_phase-Advances StagePhase.succeeded e o = cc
  by_stage_phase-Advances StagePhase.committing e o =
      absurd (subst (LiveStage c.stage c.status) e c.live)
  by_stage_phase-Advances StagePhase.failed_user e o =
      absurd (subst (LiveStage c.stage c.status) e c.live)
  by_stage_phase-Advances StagePhase.failed_application e o =
      absurd (subst (LiveStage c.stage c.status) e c.live)

-- the current stage, under its name
pub observed :
    {f : PipelineSpec} {s : PipelineRunStatus} (n : ℕ)
    → Ready f s
    → Ready f (record s { observed_generation = n })
observed n r = record {
  is_running = r.is_running;
  is_frozen = r.is_frozen;
  live = r.live;
  buildable = r.buildable;
}

named :
    {f : PipelineSpec} (s : PipelineRunStatus) (name : Text)
    → Ready f s
    → Ready f (record s { current_stage = name })
named s name r = record {
  is_running = r.is_running;
  is_frozen = r.is_frozen;
  live = r.live;
  buildable = r.buildable;
}

module _ (run : PipelineRunSpec) (a : Answers) (serves : Serves run a)
    (no_preview : run.preview ≡ none) (w : World) (s : PipelineRunStatus) (f : PipelineSpec)
    (ready : Ready f s) where
  run_stage-Advances :
      (i : ℕ) (c : Current f.stages s.stage_statuses i)
      → Advances f
          (total_weight s.stage_statuses)
          (run_stage run a w s f i (some c.stage) (some c.status)).0.status
  unfolding run_stage preview_deadline_passed
  run_stage-Advances i c =
      let never : preview_deadline_passed run.preview s.start_time a.now ≡ false =
        ap (λ p. preview_deadline_passed p s.start_time a.now) no_preview in
      rw (never, run_stage)
        (by_stage_phase-Advances run a serves w (record s { current_stage = c.stage.name }) f
          (named s c.stage.name ready) i c c.status.phase refl c.still_open)

  pub with_frozen-Advances :
      Advances f (total_weight s.stage_statuses) (with_frozen run a w s (some f)).0.status
  unfolding with_frozen
  with_frozen-Advances = elim (Option-cases (current_stage_idx 0 s.stage_statuses)) [
    | inl e ↦
        rw (e, with_frozen)
          (subst (Advances f (total_weight s.stage_statuses)) (sym (updated a _ _ _ serves.updates))
            (inl refl))
    | inr (n, e) ↦
        let (j, q, c0) = current_stage_idx-Live 0 f.stages s.stage_statuses n ready.live e in
        let n-j : n ≡ j = omega (arith, q) in
        let c : Current f.stages s.stage_statuses n =
          subst (Current f.stages s.stage_statuses) (sym n-j) c0 in
        rw (e, c.stage_at, c.status_at, with_frozen) (run_stage-Advances n c)
  ]
