-- ===== src/Controller/Frozen.antt =====
-- What the reconciles of pkg/k8s/controllers/pipelinerun_controller.go leave alone once a run was admitted.
pub mod Images
pub mod Kept
use datuplet.Prelude.{Bool, List, [], false, refl, sym, true, ◌∙◌, ◌∷◌, ◌≡◌, ◌≢◌}
use datuplet.Controller.{
  PipelineRunStatus, ResolvedComponentStatus, RunPhase, failed_application, failed_user, pending,
  running, succeeded, unknown, unset,
}

-- the same resolved component, whose image may only have been recorded for the first time
abbrev pub SameComponent : ResolvedComponentStatus → ResolvedComponentStatus → Type 0
SameComponent r t =
    (t.name ≡ r.name)
    × (t.component ≡ r.component)
    × (t.version ≡ r.version)
    × (t.image ≡ r.image)
    × ((r.image_id ≢ []) → t.image_id ≡ r.image_id)

abbrev pub SameComponents : List ResolvedComponentStatus → List ResolvedComponentStatus → Type 0
SameComponents [] [] = Unit
SameComponents [] (t ∷ ts) = ⊥
SameComponents (r ∷ rs) [] = ⊥
SameComponents (r ∷ rs) (t ∷ ts) = SameComponent r t × SameComponents rs ts

-- a run that was admitted: running, or at its end
abbrev pub is_admitted : RunPhase → Bool
is_admitted RunPhase.unset = false
is_admitted RunPhase.pending = false
is_admitted RunPhase.running = true
is_admitted RunPhase.succeeded = true
is_admitted RunPhase.failed_user = true
is_admitted RunPhase.failed_application = true
is_admitted (RunPhase.unknown phase) = false

abbrev pub is_over : RunPhase → Bool
is_over RunPhase.unset = false
is_over RunPhase.pending = false
is_over RunPhase.running = false
is_over RunPhase.succeeded = true
is_over RunPhase.failed_user = true
is_over RunPhase.failed_application = true
is_over (RunPhase.unknown phase) = false

-- what a running run froze
abbrev pub SameRun : PipelineRunStatus → PipelineRunStatus → Type 0
SameRun s t =
    (is_admitted t.phase ≡ true)
    × (t.run_id ≡ s.run_id)
    × (t.resolved_spec ≡ s.resolved_spec)
    × (t.pipeline_generation ≡ s.pipeline_generation)
    × (t.start_time ≡ s.start_time)
    × SameComponents s.components t.components

pub SameComponents-refl : (rs : List ResolvedComponentStatus) → SameComponents rs rs
SameComponents-refl [] = tt
SameComponents-refl (r ∷ rs) = ((refl, refl, refl, refl, λ h. refl), SameComponents-refl rs)

pub SameComponents-trans :
    (rs ts us : List ResolvedComponentStatus)
    → SameComponents rs ts
    → SameComponents ts us
    → SameComponents rs us
SameComponents-trans [] [] [] h k = tt
SameComponents-trans [] [] (u ∷ us) h k = absurd k
SameComponents-trans [] (t ∷ ts) us h k = absurd h
SameComponents-trans (r ∷ rs) [] us h k = absurd h
SameComponents-trans (r ∷ rs) (t ∷ ts) [] h k = absurd k
SameComponents-trans (r ∷ rs) (t ∷ ts) (u ∷ us) (h, hs) (k, ks) = (
  (k.0 ∙ h.0, k.1 ∙ h.1, k.2 ∙ h.2, k.3 ∙ h.3, λ q. k.4 (λ e. q (sym (h.4 q) ∙ e)) ∙ h.4 q),
  SameComponents-trans rs ts us hs ks,
)

pub SameRun-refl : (s : PipelineRunStatus) → is_admitted s.phase ≡ true → SameRun s s
SameRun-refl s h = (h, refl, refl, refl, refl, SameComponents-refl s.components)

pub SameRun-trans : (s t u : PipelineRunStatus) → SameRun s t → SameRun t u → SameRun s u
SameRun-trans s t u h k = (
  k.0,
  k.1 ∙ h.1,
  k.2 ∙ h.2,
  k.3 ∙ h.3,
  k.4 ∙ h.4,
  SameComponents-trans s.components t.components u.components h.5 k.5,
)
