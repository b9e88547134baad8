-- ===== src/Pipeline/Validate/Versions.antt =====
-- The versions that parseStableVersion of pkg/k8s/api/v1/component_types.go reads, as texts: a `v` and
-- three numbers with dots between them.
use datuplet.Prelude.{
  Bool, Bool-cases, Option, Text, [], all, ap, arith, false, get_or, if◌then◌else◌, inl, inr,
  is_empty, leb, min, nat_beq, nat_beq_iff, none, not, refl, some, subst, sym, true, ℕ, ◌&&◌, ◌++◌,
  ◌-◌, ◌^◌, ◌||◌, ◌∙◌, ◌∷◌, ◌≡◌,
}
use datuplet.Schema.Inference.Lexing.{digits_value}
use datuplet.Pipeline.Validate.Registry.{
  Stable, atoi_digits, number_dot, parse_stable_version, span_digits,
}

abbrev pub is_digit : ℕ → Bool
is_digit c = leb 48 c && leb c 57

-- a text of digits, not empty, and the number it writes, or the largest int if that is less
abbrev pub Writes : Text → ℕ → Type 0
Writes s n =
    (is_empty s ≡ false) × (all is_digit s ≡ true) × (n ≡ min (digits_value 0 s) (2 ^ 63 - 1))

-- the text is a stable version with the three numbers
unfoldable pub WritesVersion : Text → Stable → Type 0
WritesVersion s t =
    (a : Text) × (b : Text) × (c : Text) × (s ≡ 118 ∷ (a ++ (46 ∷ (b ++ (46 ∷ c)))))
    × Writes a t.major
    × Writes b t.minor
    × Writes c t.patch

starts_digit : Text → Bool
starts_digit [] = false
starts_digit (c ∷ s) = is_digit c

-- the digits in front of a text that starts with none
span_digits-append :
    (a s : Text) → all is_digit a ≡ true → starts_digit s ≡ false → span_digits (a ++ s) ≡ (a, s)
unfolding span_digits starts_digit
span_digits-append [] [] h k = refl
span_digits-append [] (c ∷ s) h k = rw k refl
span_digits-append (c ∷ a) s h k =
    let here : is_digit c ≡ true = ground (arith, h) in
    rw (here, span_digits-append a s (ground (arith, h)) k) refl

span_digits_split :
    (s : Text)
    → (s ≡ (span_digits s).0 ++ (span_digits s).1) × (all is_digit (span_digits s).0 ≡ true)
unfolding span_digits
span_digits_split [] = (refl, refl)
span_digits_split (c ∷ s) = elim (Bool-cases (is_digit c)) [
  | inl e ↦ ground (arith, e, span_digits_split s)
  | inr e ↦ rw e (refl, refl)
]

-- number_dot on the two parts of span_digits
abbrev dot_of : Text × Text → Option (ℕ × Text)
dot_of parts = if is_empty parts.0 then none else elim parts.1 [
  | [] ↦ none
  | c ∷ rest ↦ if nat_beq c 46 then some (atoi_digits parts.0, rest) else none
]

number_dot-append :
    (a s : Text)
    → is_empty a ≡ false
    → all is_digit a ≡ true
    → number_dot (a ++ (46 ∷ s)) ≡ some (atoi_digits a, s)
unfolding number_dot starts_digit
number_dot-append a s h k =
    let whole : dot_of (a, 46 ∷ s) ≡ some (atoi_digits a, s) = rw h refl in
    ap dot_of (span_digits-append a (46 ∷ s) k refl) ∙ whole

some_eq : {A : Type 0} (a b : A) → some a ≡ some b → a ≡ b
some_eq a b e = ap (λ o. get_or o a) e

dot_of-Writes :
    (a r : Text) (n : ℕ) (rest : Text)
    → all is_digit a ≡ true
    → dot_of (a, r) ≡ some (n, rest)
    → (r ≡ 46 ∷ rest) × Writes a n
unfolding atoi_digits
dot_of-Writes [] r n rest h e = absurd (cc)
dot_of-Writes (d ∷ a) [] n rest h e = absurd (cc)
dot_of-Writes (d ∷ a) (c ∷ r) n rest h e = elim (Bool-cases (nat_beq c 46)) [
  | inl dot ↦
      let same = some_eq (atoi_digits (d ∷ a), r) (n, rest) (simp dot at e) in
      (
        ap (λ k. k ∷ r) ((nat_beq_iff c 46).0 dot) ∙ ap (λ (q : ℕ × Text). 46 ∷ q.1) same,
        (refl, h, sym (ap (λ (q : ℕ × Text). q.0) same)),
      )
  | inr other ↦ let bad = simp other at e in absurd (cc)
]

number_dot-Writes :
    (s : Text) (n : ℕ) (rest : Text)
    → number_dot s ≡ some (n, rest)
    → (a : Text) × (s ≡ a ++ (46 ∷ rest)) × Writes a n
unfolding number_dot
number_dot-Writes s n rest h =
    let parts = span_digits s in
    let split = span_digits_split s in
    let read = dot_of-Writes parts.0 parts.1 n rest split.1 h in
    (parts.0, split.0 ∙ ap (λ t. parts.0 ++ t) read.0, read.1)

-- the last of the three numbers, which ends the text
abbrev last_of : ℕ → ℕ → Text → Option Stable
last_of major minor last =
    if is_empty (span_digits last).0 || not (is_empty (span_digits last).1)
    then none
    else some (record { major = major; minor = minor; patch = atoi_digits last })

append_nil : (a : Text) → a ++ [] ≡ a
append_nil [] = refl
append_nil (c ∷ a) = ap (λ s. c ∷ s) (append_nil a)

-- the digits that end with the text are all of it
all_digits_of :
    (s a r : Text)
    → s ≡ a ++ r
    → all is_digit a ≡ true
    → is_empty a ≡ false
    → is_empty r ≡ true
    → (is_empty s ≡ false) × (all is_digit s ≡ true)
all_digits_of s a [] e h n m =
    subst (λ x. (is_empty x ≡ false) × (all is_digit x ≡ true)) (sym (e ∙ append_nil a)) (n, h)
all_digits_of s a (c ∷ r) e h n m = absurd (cc)

last_of-Writes :
    (major minor : ℕ) (s : Text) (t : Stable)
    → last_of major minor s ≡ some t
    → (major ≡ t.major) × (minor ≡ t.minor) × Writes s t.patch
unfolding atoi_digits
last_of-Writes major minor s t h =
    let split = span_digits_split s in
    elim (Bool-cases (is_empty (span_digits s).0 || not (is_empty (span_digits s).1))) [
      | inl bad ↦ let e = simp bad at h in absurd (cc)
      | inr good ↦
          let made : Stable = record { major = major; minor = minor; patch = atoi_digits s } in
          let same : made ≡ t = some_eq made t (simp good at h) in
          let digits =
            all_digits_of s (span_digits s).0 (span_digits s).1 split.0 split.1
              (ground (arith, good)) (ground (arith, good)) in
          (
            ap (λ (u : Stable). u.major) same,
            ap (λ (u : Stable). u.minor) same,
            (digits.0, digits.1, sym (ap (λ (u : Stable). u.patch) same)),
          )
    ]

last_of-digits :
    (major minor : ℕ) (s : Text)
    → is_empty s ≡ false
    → all is_digit s ≡ true
    → last_of major minor s ≡ some (record { major = major; minor = minor; patch = atoi_digits s })
unfolding starts_digit
last_of-digits major minor s h k =
    let last_triple : Option Stable =
      some (record { major = major; minor = minor; patch = atoi_digits s }) in
    let whole : span_digits s ≡ (s, []) =
      ap span_digits (sym (append_nil s)) ∙ span_digits-append s [] k refl in
    subst
      (λ (parts : Text × Text).
        (if is_empty parts.0 || not (is_empty parts.1)
          then none
          else some (record { major = major; minor = minor; patch = atoi_digits s }))
        ≡ last_triple)
      (sym whole) (rw h refl)

-- the rest of parse_stable_version after the first number, then after the `v`
abbrev minor_of : ℕ → Option (ℕ × Text) → Option Stable
minor_of major o = elim o [ none ↦ none | some (minor, last) ↦ last_of major minor last ]

abbrev major_of : Option (ℕ × Text) → Option Stable
major_of o = elim o [ none ↦ none | some (major, after) ↦ minor_of major (number_dot after) ]

parse_stable_version_v : (s : Text) → parse_stable_version (118 ∷ s) ≡ major_of (number_dot s)
unfolding parse_stable_version
parse_stable_version_v s = refl

same_stable : (u t : Stable) → u.major ≡ t.major → u.minor ≡ t.minor → u.patch ≡ t.patch → u ≡ t
same_stable u t x y z = cc

-- what parseStableVersion reads is the triple that the text writes
pub WritesVersion-parse_stable_version :
    (s : Text) (t : Stable) → WritesVersion s t → parse_stable_version s ≡ some t
unfolding WritesVersion atoi_digits
WritesVersion-parse_stable_version s t (a, b, c, e, x, y, z) =
    let made : Stable = record {
      major = atoi_digits a;
      minor = atoi_digits b;
      patch = atoi_digits c;
    } in
    ap parse_stable_version e
    ∙ parse_stable_version_v (a ++ (46 ∷ (b ++ (46 ∷ c))))
    ∙ ap major_of (number_dot-append a (b ++ (46 ∷ c)) x.0 x.1)
    ∙ ap (minor_of (atoi_digits a)) (number_dot-append b c y.0 y.1)
    ∙ last_of-digits (atoi_digits a) (atoi_digits b) c z.0 z.1
    ∙ ap some (same_stable made t (sym x.2) (sym y.2) (sym z.2))

minor_of-Writes :
    (major : ℕ) (o : Option (ℕ × Text)) (t : Stable)
    → minor_of major o ≡ some t
    → (c : Text) × (o ≡ some (t.minor, c)) × (major ≡ t.major) × Writes c t.patch
minor_of-Writes major none t h = absurd (cc)
minor_of-Writes major (some (minor, last)) t h =
    let read = last_of-Writes major minor last t h in
    (last, ap (λ m. some (m, last)) read.1, read.0, read.2)

major_of-Writes :
    (o : Option (ℕ × Text)) (t : Stable)
    → major_of o ≡ some t
    → (after : Text) × (c : Text) × (o ≡ some (t.major, after))
      × (number_dot after ≡ some (t.minor, c))
      × Writes c t.patch
major_of-Writes none t h = absurd (cc)
major_of-Writes (some (major, after)) t h =
    let read = minor_of-Writes major (number_dot after) t h in
    (after, read.0, ap (λ m. some (m, after)) read.2, read.1, read.3)

pub parse_stable_version-WritesVersion :
    (s : Text) (t : Stable) → parse_stable_version s ≡ some t → WritesVersion s t
unfolding WritesVersion parse_stable_version
parse_stable_version-WritesVersion [] t h = absurd (cc)
parse_stable_version-WritesVersion (v ∷ s) t h = elim (Bool-cases (nat_beq v 118)) [
  | inr bad ↦ let e = simp bad at h in absurd (cc)
  | inl good ↦
      let read = major_of-Writes (number_dot s) t (simp good at h) in
      let first = number_dot-Writes s t.major read.0 read.2 in
      let second = number_dot-Writes read.0 t.minor read.1 read.3 in
      (
        first.0,
        second.0,
        read.1,
        ap (λ x. x ∷ s) ((nat_beq_iff v 118).0 good)
            ∙ ap (λ x. 118 ∷ x) first.1
            ∙ ap (λ x. 118 ∷ (first.0 ++ (46 ∷ x))) second.1,
        first.2,
        second.2,
        read.4,
      )
]
