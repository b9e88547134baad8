-- ===== src/Controller/Ordered.antt =====
-- The stages of a run in pkg/k8s/controllers/pipelinerun_controller.go, reconcile after reconcile.
pub mod Current
pub mod Starts
pub mod Checks
pub mod Admits
pub mod Kept
use datuplet.Prelude.{
  All, List, Option, Option-cases, [], inl, inr, none, some, subst, sym, ◌∷◌, ◌≡◌, ◌≢◌,
}
use datuplet.Pipeline.{ComponentSpec, PipelineSpec, StageSpec, pos}
use datuplet.Controller.{
  Answers, ComponentPhase, ComponentStatus, Outcome, PipelineRunStatus, RunPhase, StagePhase,
  StageStatus, World, committing, failed_application, failed_user, panicked, pending, running,
  succeeded, unknown, unset,
}
use datuplet.Controller.Admission.{update_status}

-- one status for each component, in order; one that has succeeded has exit code 0
abbrev pub Matches : List ComponentSpec → List ComponentStatus → Type 0
Matches [] [] = Unit
Matches [] (cs ∷ css) = ⊥
Matches (c ∷ comps) [] = ⊥
Matches (c ∷ comps) (cs ∷ css) =
    (cs.name ≡ c.name)
    × (cs.phase ≡ ComponentPhase.succeeded → cs.exit_code ≡ some (pos 0))
    × Matches comps css

-- one status for each component, in order, each a success with exit code 0
abbrev pub Succeeded : List ComponentSpec → List ComponentStatus → Type 0
Succeeded [] [] = Unit
Succeeded [] (cs ∷ css) = ⊥
Succeeded (c ∷ comps) [] = ⊥
Succeeded (c ∷ comps) (cs ∷ css) =
    (cs.name ≡ c.name)
    × (cs.phase ≡ ComponentPhase.succeeded)
    × (cs.exit_code ≡ some (pos 0))
    × Succeeded comps css

-- what is known of a stage in each phase
abbrev pub StageOk : StageSpec → StageStatus → StagePhase → Type 0
StageOk g st StagePhase.pending = Unit
StageOk g st StagePhase.running = Matches g.components st.component_statuses
StageOk g st StagePhase.committing = ⊥
StageOk g st StagePhase.succeeded = Succeeded g.components st.component_statuses
StageOk g st StagePhase.failed_user = Unit
StageOk g st StagePhase.failed_application = Unit

abbrev pub AllPending : List StageStatus → Type 0
AllPending sts = All (λ (st : StageStatus). st.phase ≡ StagePhase.pending) sts

-- after a stage that has not succeeded all stages are pending
abbrev pub After : StagePhase → List StageStatus → Type 0
After StagePhase.succeeded sts = Unit
After StagePhase.pending sts = AllPending sts
After StagePhase.running sts = AllPending sts
After StagePhase.committing sts = AllPending sts
After StagePhase.failed_user sts = AllPending sts
After StagePhase.failed_application sts = AllPending sts

-- the stages of a run: a status for each, each stage started only after all before it succeeded
abbrev pub InOrder : List StageSpec → List StageStatus → Type 0
InOrder [] [] = Unit
InOrder [] (st ∷ sts) = ⊥
InOrder (g ∷ gs) [] = ⊥
InOrder (g ∷ gs) (st ∷ sts) = StageOk g st st.phase × After st.phase sts × InOrder gs sts

-- every stage has succeeded, with every component of it
abbrev pub AllDone : List StageSpec → List StageStatus → Type 0
AllDone [] [] = Unit
AllDone [] (st ∷ sts) = ⊥
AllDone (g ∷ gs) [] = ⊥
AllDone (g ∷ gs) (st ∷ sts) =
    (st.phase ≡ StagePhase.succeeded)
    × Succeeded g.components st.component_statuses
    × AllDone gs sts

abbrev pub OfSpec :
    (List StageSpec → List StageStatus → Type 0) → Option PipelineSpec → List StageStatus → Type 0
OfSpec P none sts = ⊥
OfSpec P (some f) sts = P f.stages sts

abbrev pub Ordered : RunPhase → Option PipelineSpec → List StageStatus → Type 0
Ordered RunPhase.unset f sts = Unit
Ordered RunPhase.pending f sts = Unit
Ordered RunPhase.running f sts = OfSpec InOrder f sts
Ordered RunPhase.succeeded f sts = OfSpec AllDone f sts
Ordered RunPhase.failed_user f sts = Unit
Ordered RunPhase.failed_application f sts = Unit
Ordered (RunPhase.unknown phase) f sts = Unit

-- a run that is running has its stages in order, one that succeeded has them all done
abbrev pub Orderly : PipelineRunStatus → Type 0
Orderly s = Ordered s.phase s.resolved_spec s.stage_statuses

-- a run's stages are in order, and the reconcile has read no list out of range
abbrev pub Safe : World × Outcome → Type 0
Safe r = Orderly r.0.status × (r.1 ≢ panicked)

pub update_status-Safe :
    (a : Answers) (w : World) (s : PipelineRunStatus) (o : Outcome)
    → Orderly w.status
    → Orderly s
    → o ≢ panicked
    → Safe (update_status a w s o)
update_status-Safe a w s o before after fine = elim (Option-cases a.update_status) [
  | inl none_yet ↦ rw none_yet (after, fine)
  | inr (e, failure) ↦ rw failure (before, λ h. cc)
]

-- a running run with stages in order
pub running-Ordered :
    (p : RunPhase) (o : Option PipelineSpec) (sts : List StageStatus) (frozen : PipelineSpec)
    → p ≡ RunPhase.running
    → o ≡ some frozen
    → InOrder frozen.stages sts
    → Ordered p o sts
running-Ordered p o sts frozen e f h =
    subst (λ q. Ordered q o sts) (sym e) (subst (λ r. OfSpec InOrder r sts) (sym f) h)
