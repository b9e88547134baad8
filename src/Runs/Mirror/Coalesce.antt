-- ===== src/Runs/Mirror/Coalesce.antt =====
-- CoalescedUpdater of pkg/pipelineapi/k8s/coalesce.go: a decorator of any updater, as a function of the
-- updater's state and its own cache. A call is one step: the observer reconciles a key in one worker.
pub mod Content
pub mod Transparent
pub mod Late
use datuplet.Prelude.{
  Assoc, Bool, Eq, Option, Result, Text, [], arith, err, false, get_or, if◌then◌else◌, insert,
  length, lookup, ltb, nat_beq, none, ok, remove, some, text_beq, text_beq_iff, text_eq, true, ℕ,
  ◌&&◌, ◌+◌, ◌↔◌, ◌∷◌, ◌≡◌,
}
use datuplet.Runs.Mirror.{RunStatus, pipeline_run_name}

pub record Key : Type 0 where
  pub namespace : Text
  pub name : Text

abbrev pub key_beq : Key → Key → Bool
key_beq a b = text_beq a.namespace b.namespace && text_beq a.name b.name

pub key_beq_iff : (a b : Key) → (key_beq a b ≡ true) ↔ (a ≡ b)
key_beq_iff a b = ground (arith, text_beq_iff a.namespace b.namespace, text_beq_iff a.name b.name)

instance abbrev pub key_eq : Eq Key
key_eq = record { eqb = key_beq; eqb_iff = key_beq_iff }

pub record CoalesceEntry : Type 0 where
  pub status : RunStatus
  pub written_at : ℕ

unfoldable time_ptr_equal : Option ℕ → Option ℕ → Bool
time_ptr_equal none none = true
time_ptr_equal none (some b) = false
time_ptr_equal (some a) none = false
time_ptr_equal (some a) (some b) = nat_beq a b

-- bytes.Equal: nil and empty are equal
unfoldable bytes_equal : Option Text → Option Text → Bool
bytes_equal a b = text_beq (get_or a []) (get_or b [])

unfoldable pub equals_for_db : RunStatus → RunStatus → Bool
unfolding time_ptr_equal bytes_equal
equals_for_db a b =
    text_beq a.phase b.phase
    && text_beq a.current_stage b.current_stage
    && text_beq a.message b.message
    && time_ptr_equal a.started_at b.started_at
    && time_ptr_equal a.completed_at b.completed_at
    && bytes_equal a.stage_statuses b.stage_statuses

abbrev key_of : RunStatus → Key
key_of s = record { namespace = s.namespace; name = s.pipeline_run_name }

unfoldable is_cached : Assoc Key CoalesceEntry → RunStatus → Bool
is_cached cache s = elim (lookup cache (key_of s)) [
  | none ↦ false
  | some prev ↦ equals_for_db prev.status s
]

module _ {E W : Type 0} (inner : W → RunStatus → W × Result E Bool) where
  -- what Update does with the answer of the updater inside
  unfoldable pub settle :
      ℕ
      → Assoc Key CoalesceEntry
      → RunStatus
      → W × Result E Bool
      → (Assoc Key CoalesceEntry × W) × Result E Bool
  settle now cache s (w, err e) = ((cache, w), err e)
  settle now cache s (w, ok false) = ((cache, w), ok false)
  settle now cache s (w, ok true) =
      ((insert cache (key_of s) (record { status = s; written_at = now }), w), ok true)

  unfoldable pub update :
      ℕ → Assoc Key CoalesceEntry × W → RunStatus → (Assoc Key CoalesceEntry × W) × Result E Bool
  unfolding settle is_cached
  update now (cache, w) s =
      if is_cached cache s then ((cache, w), ok false) else settle now cache s (inner w s)

unfoldable pub forget : Assoc Key CoalesceEntry → Key → Assoc Key CoalesceEntry
forget cache key = remove cache key

unfoldable pub size : Assoc Key CoalesceEntry → ℕ
size cache = length cache

-- SweepOnce with the cutoff `now - max_age`, compared without subtracting
unfoldable pub sweep_once : ℕ → ℕ → Assoc Key CoalesceEntry → Assoc Key CoalesceEntry
sweep_once now max_age [] = []
sweep_once now max_age ((k, v) ∷ cache) =
    let rest = sweep_once now max_age cache in
    if ltb (v.written_at + max_age) now then rest else (k, v) ∷ rest
