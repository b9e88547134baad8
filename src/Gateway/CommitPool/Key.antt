-- ===== src/Gateway/CommitPool/Key.antt =====
-- ComputeIdempotencyKey of pkg/datagateway/commit_pool.go. The hash is a parameter.
use mathlib.Core.List.{Perm, Permᴰ}
use mathlib.Core.List
use native.Mathlib.Nat.{ℕ_set}
use datuplet.Prelude.{
  All, Bool, List, NoNul, Text, [], ap, arith, false, if◌then◌else◌, ltb, nat_beq, nat_eq, refl,
  sym, text_eq, true, ◌++◌, ◌∙◌, ◌∷◌, ◌≡◌, ◌≢◌,
}

-- strings compare byte by byte, a proper prefix first
unfoldable pub text_leb : Text → Text → Bool
text_leb [] t = true
text_leb (c ∷ s) [] = false
text_leb (c ∷ s) (d ∷ t) =
    let rest = text_leb s t in if ltb c d then true else if nat_beq c d then rest else false

-- sort.Strings: equal strings cannot be told apart, so any sort gives this list
unfoldable pub insert_sorted : Text → List Text → List Text
insert_sorted s [] = s ∷ []
insert_sorted s (t ∷ ts) =
    let rest = insert_sorted s ts in if text_leb s t then s ∷ t ∷ ts else t ∷ rest

unfoldable pub sort : List Text → List Text
unfolding insert_sorted
sort [] = []
sort (s ∷ ss) = insert_sorted s (sort ss)

-- each text followed by a NUL byte
unfoldable pub terminated : List Text → Text
terminated [] = []
terminated (s ∷ ss) = s ++ (0 ∷ terminated ss)

-- what is written to the hash
unfoldable pub key_input : Text → Text → Text → List Text → Text
unfolding terminated
key_input run_id namespace table paths = terminated (run_id ∷ namespace ∷ table ∷ sort paths)

unfoldable pub compute_idempotency_key : (Text → Text) → Text → Text → Text → List Text → Text
compute_idempotency_key sha256_hex run_id namespace table paths =
    sha256_hex (key_input run_id namespace table paths)

pub text_leb_total : (s t : Text) → text_leb s t ≡ false → text_leb t s ≡ true
unfolding text_leb
text_leb_total [] t h = cc
text_leb_total (c ∷ s) [] h = refl
text_leb_total (c ∷ s) (d ∷ t) h = ground (arith, text_leb_total s t)

pub text_leb_antisym : (s t : Text) → text_leb s t ≡ true → text_leb t s ≡ true → s ≡ t
unfolding text_leb
text_leb_antisym [] [] h k = refl
text_leb_antisym [] (d ∷ t) h k = cc
text_leb_antisym (c ∷ s) [] h k = cc
text_leb_antisym (c ∷ s) (d ∷ t) h k = ground (arith, text_leb_antisym s t)

pub text_leb_trans :
    (s t u : Text) → text_leb s t ≡ true → text_leb t u ≡ true → text_leb s u ≡ true
unfolding text_leb
text_leb_trans [] t u h k = refl
text_leb_trans (c ∷ s) [] u h k = cc
text_leb_trans (c ∷ s) (d ∷ t) [] h k = cc
text_leb_trans (c ∷ s) (d ∷ t) (e ∷ u) h k = ground (arith, text_leb_trans s t u)

insert_sorted_comm :
    (s t : Text) (us : List Text)
    → insert_sorted s (insert_sorted t us) ≡ insert_sorted t (insert_sorted s us)
unfolding insert_sorted
insert_sorted_comm s t [] =
    ground (arith, text_leb_total s t, text_leb_total t s, text_leb_antisym s t)
insert_sorted_comm s t (u ∷ us) = ground (
  arith,
  text_leb_total s t,
  text_leb_total t s,
  text_leb_antisym s t,
  text_leb_trans s t u,
  text_leb_trans t s u,
  insert_sorted_comm s t us,
  text_leb_total s u,
  text_leb_total t u,
  text_leb_trans s u t,
  text_leb_trans t u s,
)

sort-permᴰ : {xs ys : List Text} → Permᴰ xs ys → sort xs ≡ sort ys
unfolding sort
sort-permᴰ Permᴰ.nil = refl
sort-permᴰ (Permᴰ.cons e p) = ground (arith, sort-permᴰ p)
sort-permᴰ {xs = a ∷ b ∷ l} (Permᴰ.swap e k) = ground (arith, insert_sorted_comm a b (sort l))
sort-permᴰ (Permᴰ.trans p q) = sort-permᴰ p ∙ sort-permᴰ q

texts_set : IsSet (List Text)
texts_set = List.is_set (List.is_set ℕ_set)

sort-perm : {xs ys : List Text} → Perm xs ys → sort xs ≡ sort ys
sort-perm {xs} {ys} p = ∥∥₁_rec (texts_set (sort xs) (sort ys)) sort-permᴰ p

split_nul : (s t u v : Text) → NoNul s → NoNul t → s ++ (0 ∷ u) ≡ t ++ (0 ∷ v) → (s ≡ t) × (u ≡ v)
split_nul [] [] u v h k e = (refl, ground arith)
split_nul [] (d ∷ t) u v h k e = absurd (ground arith)
split_nul (c ∷ s) [] u v h k e = absurd (ground arith)
split_nul (c ∷ s) (d ∷ t) u v h k e = ground (arith, split_nul s t u v)

nil≢terminated : (t u : Text) → [] ≢ (t ++ (0 ∷ u))
nil≢terminated [] u e = cc
nil≢terminated (c ∷ t) u e = cc

terminated-injective :
    (ss ts : List Text) → All NoNul ss → All NoNul ts → terminated ss ≡ terminated ts → ss ≡ ts
unfolding terminated
terminated-injective [] [] h k e = refl
terminated-injective [] (t ∷ ts) h k e = absurd (nil≢terminated t (terminated ts) e)
terminated-injective (s ∷ ss) [] h k e = absurd (nil≢terminated s (terminated ss) (sym e))
terminated-injective (s ∷ ss) (t ∷ ts) h k e = ground (
  arith,
  split_nul s t (terminated ss) (terminated ts) h.0 k.0 e,
  terminated-injective ss ts h.1 k.1,
)

-- The order in which the data files are listed does not change the key.
pub key-perm :
    (sha256_hex : Text → Text) (run_id namespace table : Text) {paths paths' : List Text}
    → Perm paths paths'
    → compute_idempotency_key sha256_hex run_id namespace table paths
      ≡ compute_idempotency_key sha256_hex run_id namespace table paths'
unfolding compute_idempotency_key key_input
key-perm sha256_hex run_id namespace table p =
    ap (λ l. sha256_hex (terminated (run_id ∷ namespace ∷ table ∷ l))) (sort-perm p)

sort-keeps : (s : Text) (ss : List Text) → NoNul s → All NoNul ss → All NoNul (insert_sorted s ss)
unfolding insert_sorted
sort-keeps s [] h k = (h, k)
sort-keeps s (t ∷ ts) h k =
    elim (text_leb s t) as (λ b. All NoNul (if b then s ∷ t ∷ ts else t ∷ insert_sorted s ts)) [
      | true ↦ (h, k)
      | false ↦ (k.0, sort-keeps s ts h k.1)
    ]

sort-NoNul : (ss : List Text) → All NoNul ss → All NoNul (sort ss)
unfolding sort
sort-NoNul [] h = h
sort-NoNul (s ∷ ss) h = sort-keeps s (sort ss) h.0 (sort-NoNul ss h.1)

-- What is hashed tells the commits apart: without NUL bytes in the names and paths, equal inputs to
-- the hash come from one run, namespace and table, and from the same sorted paths.
pub key_input-injective :
    (r n t r' n' t' : Text) (ps ps' : List Text)
    → All NoNul (r ∷ n ∷ t ∷ ps)
    → All NoNul (r' ∷ n' ∷ t' ∷ ps')
    → key_input r n t ps ≡ key_input r' n' t' ps'
    → (r ≡ r') × (n ≡ n') × (t ≡ t') × (sort ps ≡ sort ps')
unfolding key_input
key_input-injective r n t r' n' t' ps ps' h k e =
    let q =
      terminated-injective (r ∷ n ∷ t ∷ sort ps) (r' ∷ n' ∷ t' ∷ sort ps')
        (h.0, (h.1.0, (h.1.1.0, sort-NoNul ps h.1.1.1)))
        (k.0, (k.1.0, (k.1.1.0, sort-NoNul ps' k.1.1.1))) e in
    ground (arith, q)
