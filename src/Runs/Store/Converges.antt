-- ===== src/Runs/Store/Converges.antt =====
-- Rows of pkg/pipelineapi/store/run.go under any sequence of UpdateRunPhase calls.
use datuplet.Prelude.{
  All, Bool, List, Text, [], ap, arith, false, if◌then◌else◌, is_some, ltb, max, refl, true, ℕ, ◌<◌,
  ◌∙◌, ◌∷◌, ◌≡◌, ◌≤◌,
}
use datuplet.Runs.Store.{Run, UpdateRunPhaseOpts, admits, is_out_of_band, update_row, written}

-- the row after updates, each at its instant
unfoldable pub replay : Run → List (ℕ × UpdateRunPhaseOpts) → Run
replay r [] = r
replay r ((now, o) ∷ os) = replay (update_row now o r).0 os

-- the observer's write of version `rv`
abbrev pub event : (ℕ → UpdateRunPhaseOpts) → ℕ → UpdateRunPhaseOpts
event status rv = record (status rv) { observed_rv = rv; guard_terminal = true }

-- the observer's events: an object has one content at each resource version
unfoldable pub events : (ℕ → UpdateRunPhaseOpts) → List (ℕ × ℕ) → List (ℕ × UpdateRunPhaseOpts)
events status [] = []
events status ((now, rv) ∷ rvs) = (now, event status rv) ∷ events status rvs

-- the newest version among the row's and the events'
unfoldable pub newest : ℕ → List (ℕ × ℕ) → ℕ
newest rv [] = rv
newest rv ((now, v) ∷ vs) = newest (max rv v) vs

newest-grows : (rv : ℕ) (vs : List (ℕ × ℕ)) → rv ≤ newest rv vs
unfolding newest
newest-grows rv [] = omega arith
newest-grows rv ((now, v) ∷ vs) = omega (arith, newest-grows (max rv v) vs)

-- phase, stage and message: of a row, of an update, and of the newer of a row and version `m`
unfoldable pub shown : Run → Text × Text × Text
shown r = (r.phase, r.current_stage, r.message)

unfoldable pub proposed : UpdateRunPhaseOpts → Text × Text × Text
proposed o = (o.phase, o.current_stage, o.message)

unfoldable pub shown_at : (ℕ → UpdateRunPhaseOpts) → Run → ℕ → Text × Text × Text
shown_at status r m = if ltb r.observed_rv m then proposed (status m) else shown r

update_row-event :
    (status : ℕ → UpdateRunPhaseOpts) (now : ℕ) (r : Run) (v : ℕ)
    → 0 < v
    → is_out_of_band r.phase ≡ false
    → let r' = (update_row now (event status v) r).0 in
      (r'.observed_rv ≡ max r.observed_rv v) × (shown r' ≡ shown_at status r v)
unfolding update_row admits written shown_at shown proposed
update_row-event status now r v p k = ground (arith, k)

shown_at-next :
    (status : ℕ → UpdateRunPhaseOpts) (r r' : Run) (v m : ℕ)
    → r'.observed_rv ≡ max r.observed_rv v
    → shown r' ≡ shown_at status r v
    → max r.observed_rv v ≤ m
    → shown_at status r' m ≡ shown_at status r m
unfolding shown_at
shown_at-next status r r' v m e k l = ground (arith, λ (q : v ≡ m). ap (λ i. proposed (status i)) q)

shown_at-open :
    (status : ℕ → UpdateRunPhaseOpts) (r : Run) (v : ℕ)
    → ((rv : ℕ) → is_out_of_band (status rv).phase ≡ false)
    → is_out_of_band r.phase ≡ false
    → is_out_of_band (shown_at status r v).0 ≡ false
unfolding shown_at shown proposed
shown_at-open status r v h k =
    elim (ltb r.observed_rv v)
      as (λ b. is_out_of_band (if b then proposed (status v) else shown r).0 ≡ false) [
        | true ↦ h v
        | false ↦ k
      ]

shown_at_self :
    (status : ℕ → UpdateRunPhaseOpts) (r : Run) → shown r ≡ shown_at status r r.observed_rv
unfolding shown_at
shown_at_self status r = ground arith

-- Whatever the order, the repetitions and the losses: after events of the observer, with positive
-- versions and one content for each version, the row has the newest version among them and its own,
-- and the phase, stage and message of that version, while neither the row nor any event is in a phase
-- that is written out of band.
pub replay-newest :
    (status : ℕ → UpdateRunPhaseOpts) (r : Run) (vs : List (ℕ × ℕ))
    → All (λ v. 0 < v.1) vs
    → ((rv : ℕ) → is_out_of_band (status rv).phase ≡ false)
    → is_out_of_band r.phase ≡ false
    → let r' = replay r (events status vs) in
      (r'.observed_rv ≡ newest r.observed_rv vs)
      × (shown r' ≡ shown_at status r (newest r.observed_rv vs))
unfolding replay events newest shown
replay-newest status r [] p h k = (refl, shown_at_self status r)
replay-newest status r ((now, v) ∷ vs) p h k =
    let r' = (update_row now (event status v) r).0 in
    let step = update_row-event status now r v p.0 k in
    let open_phase : is_out_of_band r'.phase ≡ false =
      ap (λ x. is_out_of_band x.0) step.1 ∙ shown_at-open status r v h k in
    let ih = replay-newest status r' vs p.1 h open_phase in
    let same = ap (λ i. newest i vs) step.0 in
    let m = newest (max r.observed_rv v) vs in
    (
      ih.0 ∙ same,
      ih.1
          ∙ ap (shown_at status r') same
          ∙ shown_at-next status r r' v m step.0 step.1 (newest-grows (max r.observed_rv v) vs),
    )

refused :
    (o : UpdateRunPhaseOpts) (r : Run)
    → is_out_of_band r.phase ≡ true
    → o.guard_terminal ≡ true
    → admits o r ≡ false
unfolding admits
refused o r k h = ground (arith, k, h)

-- A run that was cancelled or has expired keeps its row, whatever updates the observer makes.
pub replay-closed :
    (r : Run) (os : List (ℕ × UpdateRunPhaseOpts))
    → is_out_of_band r.phase ≡ true
    → All (λ o. o.1.guard_terminal ≡ true) os
    → replay r os ≡ r
unfolding replay update_row
replay-closed r [] k h = refl
replay-closed r ((now, o) ∷ os) k h =
    let dropped : admits o r ≡ false = refused o r k h.0 in
    let same : (update_row now o r).0 ≡ r =
      ap (λ b. (if◌then◌else◌ {A = Run × Bool} b (written now o r, true) (r, false)).0) dropped in
    ap (λ q. replay q os) same ∙ replay-closed r os k h.1

update_row-keeps :
    (now : ℕ) (o : UpdateRunPhaseOpts) (r : Run)
    → let r' = (update_row now o r).0 in
      (is_some r.started_at ≡ true → is_some r'.started_at ≡ true)
      × (is_some r.completed_at ≡ true → is_some r'.completed_at ≡ true)
      × (is_some r.stage_statuses ≡ true → is_some r'.stage_statuses ≡ true)
      × (r.observed_rv ≤ r'.observed_rv)
unfolding update_row written
update_row-keeps now o r =
    (λ h. ground (arith, h), λ h. ground (arith, h), λ h. ground (arith, h), ground arith)

-- No update, guarded or not, takes a timeline, a start or an end that the row has from it, and none
-- lowers the version it has seen.
pub replay-keeps :
    (r : Run) (os : List (ℕ × UpdateRunPhaseOpts))
    → let r' = replay r os in
      (is_some r.started_at ≡ true → is_some r'.started_at ≡ true)
      × (is_some r.completed_at ≡ true → is_some r'.completed_at ≡ true)
      × (is_some r.stage_statuses ≡ true → is_some r'.stage_statuses ≡ true)
      × (r.observed_rv ≤ r'.observed_rv)
unfolding replay
replay-keeps r [] = (λ h. h, λ h. h, λ h. h, omega arith)
replay-keeps r ((now, o) ∷ os) =
    let ih = replay-keeps (update_row now o r).0 os in
    let step = update_row-keeps now o r in
    (λ h. ih.0 (step.0 h), λ h. ih.1 (step.1 h), λ h. ih.2 (step.2 h), omega (arith, ih.3, step.3))
