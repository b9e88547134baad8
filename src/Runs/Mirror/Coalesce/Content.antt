-- ===== src/Runs/Mirror/Coalesce/Content.antt =====
-- What UpdateRunPhase shows of a row, and a write of pkg/pipelineapi/k8s/coalesce.go's statuses to it.
use datuplet.Prelude.{
  Assoc, Bool, List, Option, Result, Text, [], ap, arith, false, get_or, if◌then◌else◌, is_empty,
  is_some, max, nat_beq_iff, none, not, ok, refl, some, sym, text_beq_iff, true, ℕ, ◌&&◌, ◌<◌, ◌∙◌,
  ◌∷◌, ◌≡◌, ◌≤◌, ◌⊎◌,
}
use datuplet.Runs.Store.{Run, StoreError, admits, coalesce, is_out_of_band, update_row, written}
use datuplet.Runs.Mirror.{RunStatus, opts_of}
use datuplet.Runs.Mirror.Coalesce.{
  CoalesceEntry, Key, bytes_equal, equals_for_db, key_of, time_ptr_equal, update,
}

-- the write of a status to the row, by DBRunUpdater once it knows the object
unfoldable pub write_row : ℕ → Run → RunStatus → Run × Result StoreError Bool
write_row now r s = let (r', affected) = update_row now (opts_of s) r in (r', ok affected)

-- the row that gets every status, and the cache and the row behind the decorator
unfoldable pub direct : Run → List (ℕ × RunStatus) → Run
unfolding write_row
direct r [] = r
direct r ((now, s) ∷ es) = direct (write_row now r s).0 es

unfoldable pub coalesced :
    Assoc Key CoalesceEntry × Run → List (ℕ × RunStatus) → Assoc Key CoalesceEntry × Run
unfolding write_row
coalesced c [] = c
coalesced c ((now, s) ∷ es) = coalesced (update (write_row now) now c s).0 es

abbrev Content : Type 0
Content = Text × Text × Text × Option ℕ × Option ℕ × Option Text

-- what UpdateRunPhase shows of a row: all but the version and the instant of the write
unfoldable pub content : Run → Content
content r = (r.phase, r.current_stage, r.message, r.started_at, r.completed_at, r.stage_statuses)

unfoldable pub put : RunStatus → Content → Content
put s (p, c, m, started, completed, stages) = (
  s.phase,
  s.current_stage,
  s.message,
  coalesce s.started_at started,
  coalesce s.completed_at completed,
  coalesce s.stage_statuses stages,
)

-- a timeline, where there is one, is not empty: it is marshalled from at least one stage
abbrev pub is_marshalled : RunStatus → Bool
is_marshalled s = not (is_some s.stage_statuses && is_empty (get_or s.stage_statuses []))

pub put_idem : (s : RunStatus) (c : Content) → put s (put s c) ≡ put s c
unfolding put
put_idem s (p, c, m, started, completed, stages) = ground arith

pub time_ptr_equal_eq : (a b : Option ℕ) → time_ptr_equal a b ≡ true → a ≡ b
unfolding time_ptr_equal
time_ptr_equal_eq none none h = refl
time_ptr_equal_eq none (some b) h = cc
time_ptr_equal_eq (some a) none h = cc
time_ptr_equal_eq (some a) (some b) h = ap some ((nat_beq_iff a b).0 h)

abbrev pub nonempty : Option Text → Bool
nonempty o = not (is_some o && is_empty (get_or o []))

pub bytes_equal_eq :
    (a b : Option Text) → bytes_equal a b ≡ true → nonempty a ≡ true → nonempty b ≡ true → a ≡ b
unfolding bytes_equal
bytes_equal_eq none none h k l = refl
bytes_equal_eq none (some []) h k l = cc
bytes_equal_eq none (some (c ∷ b)) h k l = let e = (text_beq_iff [] (c ∷ b)).0 h in cc
bytes_equal_eq (some []) b h k l = cc
bytes_equal_eq (some (c ∷ a)) none h k l = let e = (text_beq_iff (c ∷ a) []).0 h in cc
bytes_equal_eq (some (c ∷ a)) (some b) h k l = ap some ((text_beq_iff (c ∷ a) b).0 h)

pub put-equals_for_db :
    (a b : RunStatus) (c : Content)
    → equals_for_db a b ≡ true
    → is_marshalled a ≡ true
    → is_marshalled b ≡ true
    → put a c ≡ put b c
unfolding put equals_for_db
put-equals_for_db a b (p, c, m, started, completed, stages) h k l = ground (
  arith,
  h,
  text_beq_iff a.phase b.phase,
  text_beq_iff a.current_stage b.current_stage,
  text_beq_iff a.message b.message,
  time_ptr_equal_eq a.started_at b.started_at,
  time_ptr_equal_eq a.completed_at b.completed_at,
  λ (q : bytes_equal a.stage_statuses b.stage_statuses ≡ true).
      bytes_equal_eq a.stage_statuses b.stage_statuses q k l,
)

-- the events of one object in the order of its versions, all above `rv`
abbrev pub InOrder : Key → ℕ → List (ℕ × RunStatus) → Type 0
InOrder key rv [] = Unit
InOrder key rv ((now, s) ∷ es) =
    (key_of s ≡ key)
    × (rv < s.resource_version)
    × (is_marshalled s ≡ true)
    × InOrder key s.resource_version es

pub write_row-content :
    (now : ℕ) (r : Run) (s : RunStatus)
    → r.observed_rv < s.resource_version
    → content (write_row now r s).0
      ≡ (if is_out_of_band r.phase then content r else put s (content r))
unfolding write_row update_row admits written content put
write_row-content now r s h = ground (arith, h)

pub write_row-grows :
    (now : ℕ) (r : Run) (s : RunStatus)
    → (r.observed_rv ≤ (write_row now r s).0.observed_rv)
      × ((write_row now r s).0.observed_rv ≤ max r.observed_rv s.resource_version)
unfolding write_row update_row written
write_row-grows now r s = ground arith

-- a refused write leaves the row, and one that is made settles it
pub write_row-cases :
    (now : ℕ) (r : Run) (s : RunStatus)
    → ((write_row now r s ≡ (r, ok false)))
      ⊎ ((write_row now r s ≡ (written now (opts_of s) r, ok true)))
unfolding write_row update_row
write_row-cases now r s = ground arith

pub both-content :
    (now : ℕ) (r r' : Run) (s : RunStatus)
    → content r ≡ content r'
    → r.observed_rv ≤ r'.observed_rv
    → r'.observed_rv < s.resource_version
    → content (write_row now r s).0 ≡ content (write_row now r' s).0
unfolding content
both-content now r r' s h k l =
    let phases : r.phase ≡ r'.phase = ap (λ c. c.0) h in
    write_row-content now r s (omega (arith, k, l))
    ∙ ground (arith, h, phases)
    ∙ sym (write_row-content now r' s l)
