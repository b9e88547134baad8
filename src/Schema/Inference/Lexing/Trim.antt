-- ===== src/Schema/Inference/Lexing/Trim.antt =====
-- Repeated strings.TrimSpace, which pkg/datagateway/schema/inference.go uses on cells.
use mathlib.Core.List.{reverse-append, reverse-reverse, append_assoc, reverse_aux}
use datuplet.Schema.Inference.Lexing.{drop_prefix, drop_space, trim_left, trim_space, white_spaces}
use datuplet.Prelude.{
  All, List, Option-cases, Text, [], ap, arith, inl, inr, length, map, none, refl, reverse, some,
  suc, zero, ℕ, ◌++◌, ◌+◌, ◌<◌, ◌∙◌, ◌∷◌, ◌≡◌, ◌≤◌,
}

abbrev NonEmpty : List Text → Type 0
NonEmpty ws = All (λ (w : Text). 0 < length w) ws

drop_prefix-le : (w s rest : Text) → drop_prefix w s ≡ some rest → length rest + length w ≤ length s
unfolding drop_prefix
drop_prefix-le [] s rest h = ground arith
drop_prefix-le (d ∷ w) [] rest h = cc
drop_prefix-le (d ∷ w) (c ∷ s) rest h = ground (arith, drop_prefix-le w s rest)

drop_space-lt :
    (ws : List Text) (s rest : Text)
    → NonEmpty ws
    → drop_space ws s ≡ some rest
    → length rest < length s
unfolding drop_space
drop_space-lt [] s rest long h = cc
drop_space-lt (w ∷ ws) s rest long h = elim (Option-cases (drop_prefix w s)) [
  | inl no_prefix ↦ drop_space-lt ws s rest long.1 (ground arith)
  | inr (r, found) ↦ ground (arith, drop_prefix-le w s r found, long.0)
]

drop_space-trim_left :
    (f : ℕ) (ws : List Text) (s : Text)
    → NonEmpty ws
    → length s ≤ f
    → drop_space ws (trim_left f ws s) ≡ none
unfolding trim_left
drop_space-trim_left zero ws s long enough = elim (Option-cases (drop_space ws s)) [
  | inl clear ↦ clear
  | inr (r, found) ↦ absurd (omega (arith, drop_space-lt ws s r long found))
]
drop_space-trim_left (suc f) ws s long enough = elim (Option-cases (drop_space ws s)) [
  | inl clear ↦ ground arith
  | inr (r, found) ↦
      ground
        (arith, drop_space-trim_left f ws r long (omega (arith, drop_space-lt ws s r long found)))
]

trim_left-clear :
    (f : ℕ) (ws : List Text) (s : Text) → drop_space ws s ≡ none → trim_left f ws s ≡ s
unfolding trim_left
trim_left-clear zero ws s clear = refl
trim_left-clear (suc f) ws s clear = ground arith

drop_prefix-append :
    (w s u rest : Text) → drop_prefix w s ≡ some rest → drop_prefix w (s ++ u) ≡ some (rest ++ u)
unfolding drop_prefix
drop_prefix-append [] s u rest h = ground arith
drop_prefix-append (d ∷ w) [] u rest h = cc
drop_prefix-append (d ∷ w) (c ∷ s) u rest h = ground (arith, drop_prefix-append w s u rest)

clear-cons :
    (w : Text) (ws : List Text) (s : Text)
    → drop_space (w ∷ ws) s ≡ none
    → (drop_prefix w s ≡ none) × (drop_space ws s ≡ none)
unfolding drop_space
clear-cons w ws s h = ground arith

clear-append :
    (ws : List Text) (s u : Text) → drop_space ws (s ++ u) ≡ none → drop_space ws s ≡ none
unfolding drop_space
clear-append [] s u h = refl
clear-append (w ∷ ws) s u h =
    let (no_prefix, clear) = clear-cons w ws (s ++ u) h in
    elim (Option-cases (drop_prefix w s)) [
      | inl absent ↦ ground (arith, clear-append ws s u clear)
      | inr (r, found) ↦ cc (drop_prefix-append w s u r found)
    ]

drop_prefix-suffix : (w s rest : Text) → drop_prefix w s ≡ some rest → s ≡ w ++ rest
unfolding drop_prefix
drop_prefix-suffix [] s rest h = ground arith
drop_prefix-suffix (d ∷ w) [] rest h = cc
drop_prefix-suffix (d ∷ w) (c ∷ s) rest h = ground (arith, drop_prefix-suffix w s rest)

drop_space-suffix :
    (ws : List Text) (s rest : Text) → drop_space ws s ≡ some rest → (p : Text) × (s ≡ p ++ rest)
unfolding drop_space
drop_space-suffix [] s rest h = cc
drop_space-suffix (w ∷ ws) s rest h = elim (Option-cases (drop_prefix w s)) [
  | inl absent ↦ drop_space-suffix ws s rest (ground arith)
  | inr (r, found) ↦ (w, ground (arith, drop_prefix-suffix w s r found))
]

trim_left-suffix : (f : ℕ) (ws : List Text) (s : Text) → (p : Text) × (s ≡ p ++ trim_left f ws s)
unfolding trim_left
trim_left-suffix zero ws s = ([], refl)
trim_left-suffix (suc f) ws s = elim (Option-cases (drop_space ws s)) [
  | inl clear ↦ ([], ground arith)
  | inr (r, found) ↦
      let (p, split) = drop_space-suffix ws s r found in
      let (q, more) = trim_left-suffix f ws r in
      (p ++ q, ground (arith, append_assoc p q (trim_left f ws r)))
]

length-reverse_aux : (t acc : Text) → length (reverse_aux t acc) ≡ length t + length acc
length-reverse_aux [] acc = omega arith
length-reverse_aux (c ∷ t) acc = omega (arith, length-reverse_aux t (c ∷ acc))

length-reverse : (t : Text) → length (reverse t) ≡ length t
length-reverse t = omega (arith, length-reverse_aux t [])

-- What the first pass leaves has no white space in front, and what the second leaves of it has none
-- at either end.
module _ (s : Text) where
  front : Text
  front = trim_left (length s) white_spaces s

  -- the second pass, on the reversed text
  back : Text
  back = trim_left (length front) (map reverse white_spaces) (reverse front)

  front_clear : drop_space white_spaces front ≡ none
  unfolding front
  front_clear = drop_space-trim_left (length s) white_spaces s (omega arith) (omega arith)

  back_clear : drop_space (map reverse white_spaces) back ≡ none
  unfolding back
  back_clear =
      drop_space-trim_left (length front) (map reverse white_spaces) (reverse front) (omega arith)
        (omega (arith, length-reverse front))

  kept_clear : drop_space white_spaces (reverse back) ≡ none
  unfolding back
  kept_clear =
      let (p, split) = trim_left-suffix (length front) (map reverse white_spaces) (reverse front) in
      clear-append white_spaces (reverse back) (reverse p)
        (rw (← reverse-append p back, ← split, reverse-reverse) front_clear)

second : Text → Text
second t = reverse (trim_left (length t) (map reverse white_spaces) (reverse t))

-- TrimSpace of a trimmed text is that text.
pub trim_space_idem : (s : Text) → trim_space (trim_space s) ≡ trim_space s
unfolding trim_space front back second
trim_space_idem s =
    ap second
      (trim_left-clear (length (reverse (back s))) white_spaces (reverse (back s)) (kept_clear s))
    ∙ ap (λ t. reverse (trim_left (length (reverse (back s))) (map reverse white_spaces) t))
        (reverse-reverse (back s))
    ∙ ap reverse (
        trim_left-clear (length (reverse (back s))) (map reverse white_spaces) (back s)
          (back_clear s))
