-- ===== src/Runs/Mirror/Reaper/Spares.antt =====
-- What the sweep of pkg/pipelineapi/k8s/reaper.go leaves alone.
use datuplet.Prelude.{
  All, Bool, Bool-cases, List, Option, Result, Text, [], ap, arith, bytes, err, false, get_or,
  if◌then◌else◌, inl, inr, is_some, ltb, none, not, ok, refl, some, subst, text_beq_iff, true, ℕ,
  ◌&&◌, ◌++◌, ◌+◌, ◌<◌, ◌↔◌, ◌∷◌, ◌≡◌, ◌⊎◌,
}
use mathlib.Core.List.{Memᴰ}
use datuplet.Runs.Mirror.{PipelineRun, RunStatus}
use datuplet.Runs.Store.{coalesce}
use datuplet.Runs.Mirror.Reaper.{
  DeleteOutcome, Sweep, delete_failed, deleted, expired_status, is_due, is_terminal_phase, labelled,
  mark, not_found, reap_age, reap_once, reap_run, reap_runs, was_deleted,
}

-- the run has succeeded or failed
unfoldable pub IsOver : Text → Type 0
IsOver phase =
    (phase ≡ bytes "Succeeded") ⊎ (phase ≡ bytes "FailedUser") ⊎ (phase ≡ bytes "FailedApplication")

-- The instant that a run's age counts from: the start of one that goes on; of one that is over the
-- completion, or the start without it, or the creation without both.
unfoldable pub AgesFrom : PipelineRun → ℕ → Type 0
unfolding IsOver
AgesFrom pr t =
    (¬ IsOver pr.phase × (pr.start_time ≡ some t))
    ⊎ (IsOver pr.phase
        × ((pr.completion_time ≡ some t)
            ⊎ ((pr.completion_time ≡ none) × (pr.start_time ≡ some t))
            ⊎ ((pr.completion_time ≡ none) × (pr.start_time ≡ none) × (pr.creation_timestamp ≡ t))))

-- an object of the list that the sweep may ask to delete
unfoldable pub IsReapable : ℕ → ℕ → List PipelineRun → PipelineRun → Type 0
unfolding AgesFrom
IsReapable now max_age prs pr =
    Memᴰ pr prs × (is_some pr.run_label ≡ true) × ((t : ℕ) × AgesFrom pr t × (t + max_age < now))

-- a status that marks the run, which the sweep deleted itself and which was not over
unfoldable pub MarksRun : (PipelineRun → DeleteOutcome) → RunStatus → PipelineRun → Type 0
unfolding IsOver
MarksRun delete s pr =
    (delete pr ≡ deleted)
    × ¬ IsOver pr.phase
    × (get_or pr.run_label none ≡ some s.run_id)
    × (s.namespace ≡ pr.namespace)
    × (s.pipeline_run_name ≡ pr.name)
    × (s.phase ≡ bytes "Expired")
    × (s.resource_version ≡ 0)

-- a status that marks a run whose delete the sweep asked for
unfoldable pub Marks : (PipelineRun → DeleteOutcome) → List PipelineRun → RunStatus → Type 0
Marks delete requested s = (pr : PipelineRun) × Memᴰ pr requested × MarksRun delete s pr

is_terminal_phase-IsOver : (phase : Text) → (is_terminal_phase phase ≡ true) ↔ IsOver phase
unfolding is_terminal_phase IsOver
is_terminal_phase-IsOver phase = ground (
  arith,
  text_beq_iff phase (bytes "Succeeded"),
  text_beq_iff phase (bytes "FailedUser"),
  text_beq_iff phase (bytes "FailedApplication"),
)

not-IsOver : (phase : Text) → is_terminal_phase phase ≡ false → ¬ IsOver phase
not-IsOver phase h over = cc ((is_terminal_phase-IsOver phase).1 over, h)

aged :
    (now max_age : ℕ) (o : Option ℕ)
    → elim o [ none ↦ false | some age ↦ ltb (age + max_age) now ] ≡ true
    → (t : ℕ) × (o ≡ some t) × (t + max_age < now)
aged now max_age none h = absurd (cc)
aged now max_age (some t) h = (t, refl, ground (arith, h))

some_eq : {a b : ℕ} → some a ≡ some b → a ≡ b
some_eq {a} e = ap (λ o. get_or o a) e

last_instant :
    (completion start : Option ℕ) (creation t : ℕ)
    → some (get_or (coalesce completion start) creation) ≡ some t
    → (completion ≡ some t)
      ⊎ ((completion ≡ none) × (start ≡ some t))
      ⊎ ((completion ≡ none) × (start ≡ none) × (creation ≡ t))
last_instant (some c) start creation t e = inl e
last_instant none (some s) creation t e = inr (inl (refl, e))
last_instant none none creation t e = inr (inr (refl, refl, some_eq e))

reap_age-AgesFrom : (pr : PipelineRun) (t : ℕ) → reap_age pr ≡ some t → AgesFrom pr t
unfolding reap_age AgesFrom
reap_age-AgesFrom pr t h = elim (Bool-cases (is_terminal_phase pr.phase)) [
  | inr e ↦ inl (not-IsOver pr.phase e, simp e at h)
  | inl e ↦ inr (
    (is_terminal_phase-IsOver pr.phase).0 e,
    last_instant pr.completion_time pr.start_time pr.creation_timestamp t (simp e at h),
  )
]

is_due-AgesFrom :
    (now max_age : ℕ) (pr : PipelineRun)
    → is_due now max_age pr ≡ true
    → (t : ℕ) × AgesFrom pr t × (t + max_age < now)
unfolding is_due
is_due-AgesFrom now max_age pr h =
    let found = aged now max_age (reap_age pr) h in
    (found.0, reap_age-AgesFrom pr found.0 found.1, found.2)

was_deleted_eq : (o : DeleteOutcome) → was_deleted o ≡ true → o ≡ deleted
was_deleted_eq deleted h = refl
was_deleted_eq not_found h = cc
was_deleted_eq (delete_failed e) h = cc

All-concat : {A : Type 0} (P : A → Type 0) (xs ys : List A) → All P xs → All P ys → All P (xs ++ ys)
All-concat P [] ys h k = k
All-concat P (x ∷ xs) ys h k = (h.0, All-concat P xs ys h.1 k)

All-map :
    {A : Type 0} (P Q : A → Type 0) (xs : List A) → ((x : A) → P x → Q x) → All P xs → All Q xs
All-map P Q [] f h = tt
All-map P Q (x ∷ xs) f h = (f x h.0, All-map P Q xs f h.1)

module _ (has_updater : Bool) (now max_age : ℕ) (message : Text)
    (delete : PipelineRun → DeleteOutcome) where
  expired_status-Marks :
      (pr : PipelineRun) (requested : List PipelineRun)
      → delete pr ≡ deleted
      → is_terminal_phase pr.phase ≡ false
      → All (Marks delete (pr ∷ requested)) (expired_status now message pr)
  unfolding expired_status Marks MarksRun
  expired_status-Marks pr requested h k =
      elim (get_or pr.run_label none)
          as (λ o.
            get_or pr.run_label none ≡ o
            → All (Marks delete (pr ∷ requested))
                (elim o [ none ↦ [] | some id ↦ mark now message pr id ∷ [] ])) [
                  | none ↦ λ e. tt
                  | some id ↦ λ e. (
                    (pr, Memᴰ.head refl, (h, not-IsOver pr.phase k, e, refl, refl, refl, refl)),
                    tt,
                  )
                ]
        refl

  reap_run-Marks :
      (pr : PipelineRun) (requested : List PipelineRun)
      → All
          (Marks delete (pr ∷ requested))
          (reap_run has_updater now message (delete pr) pr).expired
  unfolding reap_run
  reap_run-Marks pr requested =
      let test = has_updater && not (is_terminal_phase pr.phase) && was_deleted (delete pr) in
      elim (Bool-cases test) [
        | inl e ↦ rw e (
            expired_status-Marks pr requested (was_deleted_eq (delete pr) (ground (arith, e)))
              (ground (arith, e)))
        | inr e ↦ rw e tt
      ]

  -- the objects and the statuses of a sweep over a list are as they should be
  IsSafe : List PipelineRun → Sweep → Type 0
  IsSafe prs sweep =
      All (IsReapable now max_age prs) sweep.requested
      × All (Marks delete sweep.requested) sweep.expired

  in_longer :
      (p : PipelineRun) (prs : List PipelineRun) (pr : PipelineRun)
      → IsReapable now max_age prs pr
      → IsReapable now max_age (p ∷ prs) pr
  unfolding IsReapable
  in_longer p prs pr h = (Memᴰ.tail h.0, h.1, h.2)

  Marks-longer :
      (p : PipelineRun) (requested : List PipelineRun) (s : RunStatus)
      → Marks delete requested s
      → Marks delete (p ∷ requested) s
  unfolding Marks
  Marks-longer p requested s h = (h.0, Memᴰ.tail h.1, h.2)

  reap_runs-IsSafe :
      (prs : List PipelineRun)
      → All (λ pr. is_some pr.run_label ≡ true) prs
      → IsSafe prs (reap_runs has_updater now max_age message delete prs)
  unfolding reap_runs IsSafe reap_run IsReapable
  reap_runs-IsSafe [] h = (tt, tt)
  reap_runs-IsSafe (pr ∷ prs) h =
      let rest = reap_runs has_updater now max_age message delete prs in
      let ih = reap_runs-IsSafe prs h.1 in
      let old =
        All-map (IsReapable now max_age prs) (IsReapable now max_age (pr ∷ prs)) rest.requested
          (in_longer pr prs) ih.0 in
      elim (Bool-cases (is_due now max_age pr)) [
        | inl e ↦ rw e (
          ((Memᴰ.head refl, h.0, is_due-AgesFrom now max_age pr e), old),
          All-concat (Marks delete (pr ∷ rest.requested))
              (reap_run has_updater now message (delete pr) pr).expired rest.expired
              (reap_run-Marks pr rest.requested)
              (All-map (Marks delete rest.requested) (Marks delete (pr ∷ rest.requested))
                rest.expired (Marks-longer pr rest.requested) ih.1),
        )
        | inr e ↦ rw e (old, ih.1)
      ]

mem_if :
    (b : Bool) (p pr : PipelineRun) (prs : List PipelineRun)
    → Memᴰ pr (if b then p ∷ prs else prs)
    → (pr ≡ p) ⊎ Memᴰ pr prs
mem_if true p pr prs (Memᴰ.head e) = inl e
mem_if true p pr prs (Memᴰ.tail m) = inr m
mem_if false p pr prs m = inr m

mem-labelled : (prs : List PipelineRun) (pr : PipelineRun) → Memᴰ pr (labelled prs) → Memᴰ pr prs
mem-labelled [] pr m = m
mem-labelled (p ∷ prs) pr m = elim (mem_if (is_some p.run_label) p pr (labelled prs) m) [
  | inl e ↦ Memᴰ.head e
  | inr k ↦ Memᴰ.tail (mem-labelled prs pr k)
]

labelled-All : (prs : List PipelineRun) → All (λ pr. is_some pr.run_label ≡ true) (labelled prs)
labelled-All [] = tt
labelled-All (pr ∷ prs) =
    elim (is_some pr.run_label)
        as (λ b.
          is_some pr.run_label ≡ b
          → All (λ pr. is_some pr.run_label ≡ true)
              (if b then pr ∷ labelled prs else labelled prs)) [
                | true ↦ λ e. (e, labelled-All prs)
                | false ↦ λ e. labelled-All prs
              ]
      refl

-- A sweep that runs had a positive age to go by and a list of objects. It asks to delete only objects of
-- the list that carry a run id and are older than that age, counted from the start of a run that goes on,
-- and from the completion, the start or the creation, the first of them that is set, of one that is over.
-- It marks as expired, under the object's name and the run id of its label, only runs whose delete it
-- asked for and made itself and that were not over.
pub reap_once-spares :
    (has_updater : Bool) (now max_age : ℕ) (message : ℕ → Text)
    (listed : Result Text (List PipelineRun)) (delete : PipelineRun → DeleteOutcome) (sweep : Sweep)
    → reap_once has_updater now max_age message listed delete ≡ ok sweep
    → (0 < max_age)
      × ((prs : List PipelineRun) × (listed ≡ ok prs)
          × All (IsReapable now max_age prs) sweep.requested
          × All (Marks delete sweep.requested) sweep.expired)
unfolding reap_once IsSafe IsReapable
reap_once-spares has_updater now max_age message (err e) delete sweep h = absurd (ground (arith, h))
reap_once-spares has_updater now max_age message (ok prs) delete sweep h =
    let made = reap_runs has_updater now max_age (message max_age) delete (labelled prs) in
    let k : (0 < max_age) × (made ≡ sweep) = ground (arith, h) in
    let safe =
      reap_runs-IsSafe has_updater now max_age (message max_age) delete (labelled prs)
        (labelled-All prs) in
    let held =
      subst (IsSafe has_updater now max_age (message max_age) delete (labelled prs)) k.1 safe in
    (
      k.0,
      (
        prs,
        refl,
        All-map (IsReapable now max_age (labelled prs)) (IsReapable now max_age prs) sweep.requested
            (λ pr r. (mem-labelled prs pr r.0, r.1, r.2)) held.0,
        held.1,
      ),
    )
