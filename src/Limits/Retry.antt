-- ===== src/Limits/Retry.antt =====
-- RetryOnConflict of pkg/catalogwriter/retry.go. What the context, the commit and the sleep answer at an
-- attempt are parameters; the jitter is left out, so a sleep is named by its backoff, as the bits of an
-- int64.
use datuplet.Prelude.{
  Bool, List, Option, Option-cases, Text, [], ap, arith, false, if◌then◌else◌, inl, inr, is_some,
  nat_beq, none, not, some, subst, suc, true, zero, ℕ, ◌%◌, ◌*◌, ◌+◌, ◌-◌, ◌<◌, ◌^◌, ◌∙◌, ◌∷◌, ◌≡◌,
  ◌≤◌,
}

-- an error of the commit: the catalog's 409, or another
pub data CommitFailure : Type 0 where
  conflict other : Text → CommitFailure

pub data RetryError : Type 0 where
  cancelled : Text → RetryError
  failed : CommitFailure → RetryError
  exhausted : ℕ → CommitFailure → RetryError

unfoldable pub is_commit_conflict : CommitFailure → Bool
is_commit_conflict (conflict e) = true
is_commit_conflict (other e) = false

-- how often the commit was called, the sleeps in between, and what is returned
pub record Retried : Type 0 where
  pub calls : ℕ
  pub sleeps : List ℕ
  pub error : Option RetryError

unfoldable pub backoff : ℕ → ℕ → ℕ
backoff base attempt = base * 2 ^ (attempt - 1) % 2 ^ 64

abbrev stop : ℕ → Option RetryError → Retried
stop calls e = record { calls = calls; sleeps = []; error = e }

abbrev after_sleep : ℕ → Retried → Retried
after_sleep d r = record { calls = suc r.calls; sleeps = d ∷ r.sleeps; error = r.error }

module _ (ctx : ℕ → Option Text) (commit : ℕ → Option CommitFailure) (sleep : ℕ → Option Text) where
  -- the loop from `attempt`, with so many attempts after it
  unfoldable pub attempts : ℕ → ℕ → ℕ → Retried
  attempts base zero attempt = elim (ctx attempt) [
    | some e ↦ stop 0 (some (cancelled e))
    | none ↦ elim (commit attempt) [
      | none ↦ stop 1 none
      | some e ↦ stop 1 (some (if is_commit_conflict e then exhausted attempt e else failed e))
    ]
  ]
  attempts base (suc left) attempt =
      let rest = attempts base left (attempt + 1) in
      elim (ctx attempt) [
        | some e ↦ stop 0 (some (cancelled e))
        | none ↦ elim (commit attempt) [
          | none ↦ stop 1 none
          | some e ↦
              if not (is_commit_conflict e)
              then stop 1 (some (failed e))
              else elim (sleep attempt) [
                | some f ↦ record {
                  calls = 1;
                  sleeps = backoff base attempt ∷ [];
                  error = some (cancelled f);
                }
                | none ↦ after_sleep (backoff base attempt) rest
              ]
        ]
      ]

  -- sizes that are not positive (0 here) take the defaults; durations in nanoseconds
  unfoldable pub retry_on_conflict : ℕ → ℕ → Retried
  retry_on_conflict max_attempts base_backoff =
      let tries = if nat_beq max_attempts 0 then 5 else max_attempts in
      let base = if nat_beq base_backoff 0 then 100000000 else base_backoff in
      attempts base (tries - 1) 1

  attempts-reaches :
      (base left attempt k : ℕ)
      → k ≤ left
      → ((i : ℕ) → ctx i ≡ none)
      → ((i : ℕ) → sleep i ≡ none)
      → ((i : ℕ) → i < k → is_some (commit (attempt + i)) ≡ true)
      → ((i : ℕ) (e : CommitFailure) → commit i ≡ some e → is_commit_conflict e ≡ true)
      → commit (attempt + k) ≡ none
      → let r = attempts base left attempt in (r.error ≡ none) × (r.calls ≡ suc k)
  unfolding attempts
  attempts-reaches base zero attempt k b c s f g h =
      let here : commit (attempt + k) ≡ commit attempt = ap commit (omega (arith, b)) in
      ground (arith, c attempt, here, h, b)
  attempts-reaches base (suc left) attempt zero b c s f g h =
      let here : commit (attempt + 0) ≡ commit attempt = ap commit (omega arith) in
      ground (arith, c attempt, here, h)
  attempts-reaches base (suc left) attempt (suc k) b c s f g h =
      let here : commit (attempt + 0) ≡ commit attempt = ap commit (omega arith) in
      let there : commit (attempt + 1 + k) ≡ commit (attempt + suc k) = ap commit (omega arith) in
      let ih =
        attempts-reaches base left (attempt + 1) k (omega (arith, b)) c s
          (λ i p.
            subst (λ n. is_some (commit n) ≡ true) (omega arith) (f (suc i) (omega (arith, p))))
          g (there ∙ h) in
      elim (Option-cases (commit attempt)) [
        | inl e ↦ absurd (ground (arith, f 0 (omega arith), here, e))
        | inr (e, q) ↦ ground (arith, c attempt, s attempt, q, g attempt e q, ih)
      ]

  -- A commit that succeeds at try `k`, after conflicts only and within the tries allowed, succeeds, with
  -- `k` calls, while neither the context nor a sleep is interrupted.
  pub retry_on_conflict-reaches :
      (max_attempts base_backoff k : ℕ)
      → suc k ≤ (if nat_beq max_attempts 0 then 5 else max_attempts)
      → ((i : ℕ) → ctx i ≡ none)
      → ((i : ℕ) → sleep i ≡ none)
      → ((i : ℕ) → i < k → is_some (commit (1 + i)) ≡ true)
      → ((i : ℕ) (e : CommitFailure) → commit i ≡ some e → is_commit_conflict e ≡ true)
      → commit (1 + k) ≡ none
      → let r = retry_on_conflict max_attempts base_backoff in (r.error ≡ none) × (r.calls ≡ suc k)
  unfolding retry_on_conflict
  retry_on_conflict-reaches max_attempts base_backoff k b c s f g h =
      attempts-reaches _ _ 1 k (ground (arith, b)) c s f g h
