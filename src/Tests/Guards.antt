-- ===== src/Tests/Guards.antt =====
-- Concrete runs of the rate limiter, the retry loop, the resource clamp and the row cap.
use datuplet.Prelude.{
  List, Option, Text, [], arith, bytes, if◌then◌else◌, is_some, lookup, ltb, none, refl, some,
  text_beq, text_eq, true, ℕ, ◌+◌, ◌<◌, ◌∷◌, ◌≡◌,
}
use datuplet.Gateway.RowCap.{new_row_cap}
use datuplet.Gateway.RowCap.Fair.{Request, granted_for, granted_for-new_row_cap, requested_for}
use datuplet.Limits.RateLimit.{granted, granted-no_window, made, new_limiter}
use datuplet.Limits.Retry.{
  CommitFailure, conflict, is_commit_conflict, retry_on_conflict, retry_on_conflict-reaches,
}
use datuplet.Limits.Clamp.{
  ResourceRequirements, apply_defaults_then_clamp, apply_defaults_then_clamp-exact,
}

abbrev alice : Text
alice = bytes "10.0.0.1"

abbrev bob : Text
bob = bytes "10.0.0.2"

granted-no_window_example :
    granted (new_limiter 1 0) ((101, alice) ∷ (102, alice) ∷ (103, alice) ∷ []) alice ≡ 3
unfolding made text_beq
granted-no_window_example =
    granted-no_window 1 100 ((101, alice) ∷ (102, alice) ∷ (103, alice) ∷ []) alice (omega arith)
      (omega arith, (omega arith, (omega arith, tt)))

-- a conflict at the first two tries
abbrev third_try : ℕ → Option CommitFailure
third_try n = if ltb n 3 then some (conflict (bytes "409")) else none

abbrev quiet : ℕ → Option Text
quiet n = none

third_conflicts : (i : ℕ) → i < 2 → is_some (third_try (1 + i)) ≡ true
third_conflicts i p = ground arith

conflicts_only : (i : ℕ) (e : CommitFailure) → third_try i ≡ some e → is_commit_conflict e ≡ true
unfolding is_commit_conflict
conflicts_only i e h = ground arith

retry_on_conflict-reaches_example :
    let r = retry_on_conflict quiet third_try quiet 0 0 in (r.error ≡ none) × (r.calls ≡ 3)
retry_on_conflict-reaches_example =
    retry_on_conflict-reaches quiet third_try quiet 0 0 2 (omega arith) (λ i. refl) (λ i. refl)
      third_conflicts conflicts_only refl

abbrev cpu : Text
cpu = bytes "cpu"

abbrev gpu : Text
gpu = bytes "gpu"

abbrev greedy : ResourceRequirements
greedy = record { limits = (cpu, 4) ∷ (gpu, 1) ∷ []; requests = (cpu, 3) ∷ [] }

-- four CPUs asked for, two allowed
apply_defaults_then_clamp-exact_example :
    let r =
      (apply_defaults_then_clamp
        (some greedy)
        (record { limits = []; requests = [] })
        ((cpu, 2) ∷ [])).resources in
    (lookup r.limits cpu ≡ some 2) × (lookup r.requests cpu ≡ some 2)
unfolding lookup text_beq apply_defaults_then_clamp
apply_defaults_then_clamp-exact_example =
    apply_defaults_then_clamp-exact greedy (record { limits = []; requests = [] }) ((cpu, 2) ∷ [])
      cpu refl

abbrev raw : Text
raw = bytes "raw"

abbrev orders : Text
orders = bytes "orders"

abbrev asked : List Request
asked =
    record { bucket = raw; table = orders; rows = 7 }
    ∷ record { bucket = raw; table = cpu; rows = 9 }
    ∷ record { bucket = raw; table = orders; rows = 8 }
    ∷ []

granted_for-new_row_cap_example : granted_for (new_row_cap 10) raw orders asked ≡ 10
unfolding requested_for text_beq
granted_for-new_row_cap_example =
    granted_for-new_row_cap 10 raw orders asked refl (refl, (refl, (refl, tt)))
