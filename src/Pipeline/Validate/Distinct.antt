-- ===== src/Pipeline/Validate/Distinct.antt =====
-- checkUniqueComponentNames of pkg/pipeline/validate/validate.go against distinct names.
use datuplet.Prelude.{
  Bool, Bool-cases, List, Text, [], any, ap, arith, contains, eq_refl, false, inl, inr, is_empty,
  map, not, refl, text_beq, text_eq, true, ℕ, ◌&&◌, ◌++◌, ◌+◌, ◌==◌, ◌||◌, ◌∷◌, ◌≡◌,
}
use datuplet.Pipeline.{ComponentSpec, StageSpec}
use datuplet.Pipeline.Validate.Components.{
  check_unique_component_names, unique_from, unique_in_stage, unique_name_finding,
}
use datuplet.Pipeline.Validate.Clean.{errors, has_error}

-- the names of the components, in the order of the stages
unfoldable pub component_names : List StageSpec → List Text
component_names [] = []
component_names (stage ∷ stages) = map (λ c. c.name) stage.components ++ component_names stages

unfoldable pub distinct : List Text → Bool
distinct [] = true
distinct (n ∷ ns) = not (contains ns n) && distinct ns

-- none of the names is seen before, one after the other
fresh : List Text → List Text → Bool
fresh seen [] = true
fresh seen (n ∷ ns) = not (contains seen n) && fresh (n ∷ seen) ns

fresh-contains :
    (seen ns : List Text) (m : Text)
    → fresh seen ns ≡ true
    → contains seen m ≡ true
    → contains ns m ≡ false
unfolding fresh
fresh-contains seen [] m h k = refl
fresh-contains seen (n ∷ ns) m h k = elim (Bool-cases (n == m)) [
  | inl e ↦
      let same : n ≡ m = (text_eq.eqb_iff n m).0 e in
      absurd (ground (arith, h, k, ap (contains seen) same))
  | inr e ↦
      ground (arith, e, fresh-contains (n ∷ seen) ns m (ground (arith, h)) (ground (arith, k)))
]

fresh-distinct : (seen ns : List Text) → fresh seen ns ≡ true → distinct ns ≡ true
unfolding fresh distinct
fresh-distinct seen [] h = refl
fresh-distinct seen (n ∷ ns) h =
    let later = fresh-contains (n ∷ seen) ns n (ground (arith, h)) (ground (arith, eq_refl n)) in
    ground (arith, later, fresh-distinct (n ∷ seen) ns (ground (arith, h)))

pub contains-append :
    (xs ys : List Text) (m : Text) → contains (xs ++ ys) m ≡ (contains xs m || contains ys m)
contains-append [] ys m = refl
contains-append (x ∷ xs) ys m = ground (arith, contains-append xs ys m)

pub beq-nil : (n : Text) → (n == []) ≡ is_empty n
unfolding text_beq
beq-nil [] = refl
beq-nil (c ∷ n) = refl

contains-names :
    (cs : List ComponentSpec) → contains (map (λ c. c.name) cs) [] ≡ any (λ c. is_empty c.name) cs
contains-names [] = refl
contains-names (c ∷ cs) = ground (arith, beq-nil c.name, contains-names cs)

module _ (quote : Text → Text) where
  unique_in_stage-fresh :
      (i j : ℕ) (cs : List ComponentSpec) (seen rest : List Text)
      → any (λ c. is_empty c.name) cs ≡ false
      → has_error (unique_in_stage quote i j cs seen).1 ≡ false
      → fresh (unique_in_stage quote i j cs seen).0 rest ≡ true
      → fresh seen (map (λ c. c.name) cs ++ rest) ≡ true
  unfolding unique_in_stage unique_name_finding fresh has_error
  unique_in_stage-fresh i j [] seen rest n h k = k
  unique_in_stage-fresh i j (c ∷ cs) seen rest n h k =
      let named : is_empty c.name ≡ false = ground (arith, n) in
      elim (Bool-cases (contains seen c.name)) [
        | inl e ↦ let flat = simp (named, e) at h in absurd (cc)
        | inr e ↦ ground (
          arith,
          e,
          unique_in_stage-fresh i (j + 1) cs (c.name ∷ seen) rest (ground (arith, n))
              (simp (named, e) at h) (simp (named, e) at k),
        )
      ]

  unique_from-fresh :
      (i : ℕ) (stages : List StageSpec) (seen : List Text)
      → contains (component_names stages) [] ≡ false
      → has_error (unique_from quote i stages seen) ≡ false
      → fresh seen (component_names stages) ≡ true
  unfolding unique_from component_names fresh
  unique_from-fresh i [] seen n h = refl
  unique_from-fresh i (stage ∷ stages) seen n h =
      let here = unique_in_stage quote i 0 stage.components seen in
      let flat = simp errors at h in
      let split = simp contains-append at n in
      unique_in_stage-fresh i 0 stage.components seen (component_names stages)
        (ground (arith, contains-names stage.components, split)) (ground (arith, flat))
        (unique_from-fresh (i + 1) stages here.0 (ground (arith, split)) (ground (arith, flat)))

  pub check_unique_component_names-distinct :
      (stages : List StageSpec)
      → contains (component_names stages) [] ≡ false
      → has_error (check_unique_component_names quote stages) ≡ false
      → distinct (component_names stages) ≡ true
  unfolding check_unique_component_names
  check_unique_component_names-distinct stages n h =
      fresh-distinct [] (component_names stages) (unique_from-fresh 0 stages [] n h)
