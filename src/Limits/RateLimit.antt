-- ===== src/Limits/RateLimit.antt =====
-- Limiter of pkg/pipelineapi/auth/ratelimit.go: requests per key in a fixed window. Instants are numbers,
-- and a call takes the time it reads as an argument; a rate that is not positive is 0.
use datuplet.Prelude.{
  Assoc, Bool, Bool-cases, List, Option, Option-cases, Text, [], ap, arith, false, if◌then◌else◌,
  inl, inr, insert, leb, lookup, lookup-insert, ltb, nat_beq, none, refl, some, text_eq, true, ℕ,
  ◌&&◌, ◌+◌, ◌<◌, ◌==◌, ◌∙◌, ◌∷◌, ◌≡◌, ◌≤◌,
}

pub record Bucket : Type 0 where
  pub count : ℕ
  pub reset : ℕ

pub record Limiter : Type 0 where
  pub buckets : Assoc Text Bucket
  pub rate : ℕ
  pub window : ℕ

unfoldable pub new_limiter : ℕ → ℕ → Limiter
new_limiter rate window = record { buckets = []; rate = rate; window = window }

abbrev set_bucket : Limiter → Text → Bucket → Limiter
set_bucket l key b = record l { buckets = insert l.buckets key b }

-- whether there is no bucket to count in
unfoldable is_stale : ℕ → Option Bucket → Bool
is_stale now none = true
is_stale now (some b) = ltb b.reset now

abbrev count_of : Option Bucket → ℕ
count_of none = 0
count_of (some b) = b.count

abbrev reset_of : Option Bucket → ℕ
reset_of none = 0
reset_of (some b) = b.reset

unfoldable pub allow : Limiter → ℕ → Text → Limiter × Bool
unfolding is_stale
allow l now key =
    let b = lookup l.buckets key in
    if nat_beq l.rate 0
    then (l, false)
    else if is_stale now b
    then (set_bucket l key (record { count = 1; reset = now + l.window }), true)
    else if leb l.rate (count_of b)
    then (l, false)
    else (set_bucket l key (record { count = count_of b + 1; reset = reset_of b }), true)

-- of a run of requests, each with its time and key: how many of `key` are let through, and made
unfoldable pub granted : Limiter → List (ℕ × Text) → Text → ℕ
granted l [] key = 0
granted l ((now, k) ∷ rs) key =
    let (l', passed) = allow l now k in (if k == key && passed then 1 else 0) + granted l' rs key

unfoldable pub made : List (ℕ × Text) → Text → ℕ
made [] key = 0
made ((now, k) ∷ rs) key = (if k == key then 1 else 0) + made rs key

abbrev Within : Text → ℕ → List (ℕ × Text) → Type 0
Within key reset [] = Unit
Within key reset ((now, k) ∷ rs) = ((k ≡ key → now ≤ reset)) × Within key reset rs

abbrev counted : Text → Text → List (ℕ × Text) → Limiter × Bool → ℕ
counted k key rs (l, passed) = (if k == key && passed then 1 else 0) + granted l rs key

allow-stale :
    (l : Limiter) (now : ℕ) (key : Text)
    → is_stale now (lookup l.buckets key) ≡ true
    → 0 < l.rate
    → allow l now key ≡ (set_bucket l key (record { count = 1; reset = now + l.window }), true)
unfolding allow
allow-stale l now key h p = ground (arith, h, p)

abbrev Increasing : ℕ → List (ℕ × Text) → Type 0
Increasing t [] = Unit
Increasing t ((now, k) ∷ rs) = (t < now) × Increasing now rs

-- every window ended by `t`
abbrev Ended : ℕ → Limiter → Type 0
Ended t l = (k : Text) (b : Bucket) → lookup l.buckets k ≡ some b → b.reset ≤ t

Ended-is_stale :
    (t now : ℕ) (l : Limiter) (k : Text)
    → Ended t l
    → t < now
    → is_stale now (lookup l.buckets k) ≡ true
unfolding is_stale
Ended-is_stale t now l k h p = elim (Option-cases (lookup l.buckets k)) [
  | inl e ↦ ground (arith, e)
  | inr (b, e) ↦ let q = h k b e in ground (arith, e, q, p)
]

Ended-next :
    (t now : ℕ) (l : Limiter) (k : Text)
    → Ended t l
    → t < now
    → l.window ≡ 0
    → Ended now (set_bucket l k (record { count = 1; reset = now + l.window }))
Ended-next t now l k h p z j b e =
    let look = lookup-insert l.buckets k (record { count = 1; reset = now + l.window }) j in
    elim (Bool-cases (k == j)) [
      | inl y ↦ ground (arith, look, y, e, z)
      | inr n ↦ let q = h j b in ground (arith, look, n, e, q, p)
    ]

granted-Ended :
    (l : Limiter) (t : ℕ) (rs : List (ℕ × Text)) (key : Text)
    → Ended t l
    → 0 < l.rate
    → l.window ≡ 0
    → Increasing t rs
    → granted l rs key ≡ made rs key
unfolding granted made
granted-Ended l t [] key h p z i = refl
granted-Ended l t ((now, k) ∷ rs) key h p z i =
    let l' = set_bucket l k (record { count = 1; reset = now + l.window }) in
    let step = ap (counted k key rs) (allow-stale l now k (Ended-is_stale t now l k h i.0) p) in
    let ih = granted-Ended l' now rs key (Ended-next t now l k h i.0 z) p z i.1 in
    step ∙ ground (arith, ih)

-- With a positive rate and a window of zero, requests of any keys at increasing times are all let
-- through, however many more than `rate` they are.
pub granted-no_window :
    (rate now : ℕ) (rs : List (ℕ × Text)) (key : Text)
    → 0 < rate
    → Increasing now rs
    → granted (new_limiter rate 0) rs key ≡ made rs key
unfolding new_limiter lookup
granted-no_window rate now rs key p i =
    granted-Ended (new_limiter rate 0) now rs key (λ k b e. absurd (cc)) p refl i
