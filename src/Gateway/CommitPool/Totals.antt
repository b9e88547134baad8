-- ===== src/Gateway/CommitPool/Totals.antt =====
-- Sums and predicates over the tasks of the pool of pkg/datagateway/commit_pool.go, as one task changes
-- or goes.
use datuplet.Prelude.{
  All, List, [], ap, arith, get_elem?, length, refl, set, some, subst, suc, zero, ℕ, ◌+◌, ◌∷◌, ◌≡◌,
}
use datuplet.Gateway.CommitPool.{Task, drop_at}

-- the sum of a measure over the tasks
unfoldable pub total : (Task → ℕ) → List Task → ℕ
total f [] = 0
total f (t ∷ ts) = f t + total f ts

pub total-set :
    (f : Task → ℕ) (ts : List Task) (i : ℕ) (t u : Task)
    → get_elem? ts i ≡ some t
    → total f (set ts i u) + f t ≡ total f ts + f u
unfolding total
total-set f [] i t u h = cc
total-set f (x ∷ ts) zero t u h = let e : x ≡ t = ground arith in ground (arith, ap f e)
total-set f (x ∷ ts) (suc i) t u h = ground (arith, total-set f ts i t u h)

pub total-drop_at :
    (f : Task → ℕ) (ts : List Task) (i : ℕ) (t : Task)
    → get_elem? ts i ≡ some t
    → total f (drop_at i ts) + f t ≡ total f ts
unfolding total drop_at
total-drop_at f [] i t h = cc
total-drop_at f (x ∷ ts) zero t h = let e : x ≡ t = ground arith in ground (arith, ap f e)
total-drop_at f (x ∷ ts) (suc i) t h = ground (arith, total-drop_at f ts i t h)

pub All-set :
    (P : Task → Type 0) (ts : List Task) (i : ℕ) (u : Task) → All P ts → P u → All P (set ts i u)
All-set P [] i u h k = h
All-set P (x ∷ ts) zero u h k = (k, h.1)
All-set P (x ∷ ts) (suc i) u h k = (h.0, All-set P ts i u h.1 k)

pub All-drop_at : (P : Task → Type 0) (ts : List Task) (i : ℕ) → All P ts → All P (drop_at i ts)
unfolding drop_at
All-drop_at P [] i h = h
All-drop_at P (x ∷ ts) zero h = h.1
All-drop_at P (x ∷ ts) (suc i) h = (h.0, All-drop_at P ts i h.1)

pub all-get_elem? :
    (P : Task → Type 0) (ts : List Task) (i : ℕ) (t : Task)
    → All P ts
    → get_elem? ts i ≡ some t
    → P t
all-get_elem? P [] i t h e = absurd (cc)
all-get_elem? P (x ∷ ts) zero t h e = let k : x ≡ t = ground arith in subst P k h.0
all-get_elem? P (x ∷ ts) (suc i) t h e = all-get_elem? P ts i t h.1 e

pub length-total : (ts : List Task) → length ts ≡ total (λ _. 1) ts
unfolding total
length-total [] = refl
length-total (t ∷ ts) = omega (arith, length-total ts)
