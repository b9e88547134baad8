-- ===== src/Controller/Ordered/Current.antt =====
-- The current stage of a run in handleRunning of pkg/k8s/controllers/pipelinerun_controller.go.
use datuplet.Prelude.{
  Bool-cases, List, [], arith, false, get_elem?, inl, inr, none, refl, set, some, subst, suc, sym,
  true, ℕ, ◌+◌, ◌∷◌, ◌≡◌,
}
use datuplet.Pipeline.{StageSpec}
use datuplet.Controller.{StagePhase, StageStatus}
use datuplet.Controller.Reconcile.{current_stage_idx, stage_succeeded}
use datuplet.Controller.Ordered.{After, AllDone, AllPending, InOrder, StageOk}

-- the stage at an index, which has not succeeded, and its status; another status may be put there
pub record Current (gs : List StageSpec) (sts : List StageStatus) (j : ℕ) : Type 0 where
  pub stage : StageSpec
  pub status : StageStatus
  pub stage_at : get_elem? gs j ≡ some stage
  pub status_at : get_elem? sts j ≡ some status
  pub stage_ok : StageOk stage status status.phase
  pub still_open : stage_succeeded status.phase ≡ false
  pub write : (st' : StageStatus) → StageOk stage st' st'.phase → InOrder gs (set sts j st')

After-pending : (p : StagePhase) (sts : List StageStatus) → AllPending sts → After p sts
After-pending StagePhase.pending sts h = h
After-pending StagePhase.running sts h = h
After-pending StagePhase.committing sts h = h
After-pending StagePhase.succeeded sts h = tt
After-pending StagePhase.failed_user sts h = h
After-pending StagePhase.failed_application sts h = h

After-open :
    (p : StagePhase) (sts : List StageStatus)
    → stage_succeeded p ≡ false
    → After p sts
    → AllPending sts
After-open StagePhase.pending sts o h = h
After-open StagePhase.running sts o h = h
After-open StagePhase.committing sts o h = h
After-open StagePhase.succeeded sts o h = cc
After-open StagePhase.failed_user sts o h = h
After-open StagePhase.failed_application sts o h = h

succeeded_phase : (p : StagePhase) → stage_succeeded p ≡ true → p ≡ StagePhase.succeeded
succeeded_phase StagePhase.pending e = cc
succeeded_phase StagePhase.running e = cc
succeeded_phase StagePhase.committing e = cc
succeeded_phase StagePhase.succeeded e = refl
succeeded_phase StagePhase.failed_user e = cc
succeeded_phase StagePhase.failed_application e = cc

-- with no stage left, all have succeeded
pub current_stage_idx-none :
    (k : ℕ) (gs : List StageSpec) (sts : List StageStatus)
    → InOrder gs sts
    → current_stage_idx k sts ≡ none
    → AllDone gs sts
unfolding current_stage_idx
current_stage_idx-none k [] [] h e = tt
current_stage_idx-none k [] (st ∷ sts) h e = h
current_stage_idx-none k (g ∷ gs) [] h e = h
current_stage_idx-none k (g ∷ gs) (st ∷ sts) h e = elim (Bool-cases (stage_succeeded st.phase)) [
  | inl done ↦
      let p = succeeded_phase st.phase done in
      (p, subst (StageOk g st) p h.0, current_stage_idx-none (k + 1) gs sts h.2 (rw done at e))
  | inr left ↦ absurd (ground (arith, e, left))
]

pub current_stage_idx-some :
    (k : ℕ) (gs : List StageSpec) (sts : List StageStatus) (n : ℕ)
    → InOrder gs sts
    → current_stage_idx k sts ≡ some n
    → (j : ℕ) × (n ≡ k + j) × Current gs sts j
unfolding current_stage_idx
current_stage_idx-some k [] [] n h e = cc
current_stage_idx-some k [] (st ∷ sts) n h e = absurd h
current_stage_idx-some k (g ∷ gs) [] n h e = absurd h
current_stage_idx-some k (g ∷ gs) (st ∷ sts) n h e = elim (Bool-cases (stage_succeeded st.phase)) [
  | inl done ↦
      let (j, q, c) = current_stage_idx-some (k + 1) gs sts n h.2 (rw done at e) in
      (
        suc j,
        omega (arith, q),
        record {
          stage = c.stage;
          status = c.status;
          stage_at = c.stage_at;
          status_at = c.status_at;
          stage_ok = c.stage_ok;
          still_open = c.still_open;
          write = λ st' ok'. (
            h.0,
            subst (λ p. After p (set sts j st')) (sym (succeeded_phase st.phase done)) tt,
            c.write st' ok',
          );
        },
      )
  | inr open_ ↦ (
    0,
    ground (arith, e, open_),
    record {
      stage = g;
      status = st;
      stage_at = refl;
      status_at = refl;
      stage_ok = h.0;
      still_open = open_;
      write =
          λ st' ok'. (ok', After-pending st'.phase sts (After-open st.phase sts open_ h.1), h.2);
    },
  )
]
