-- ===== src/Pipeline/Validate/Supplied.antt =====
-- The buckets that components read, against those that components before them write, in
-- ValidateTyped of pkg/pipeline/validate/validate.go.
use datuplet.Prelude.{
  Bool, Bool-cases, List, Option, Text, [], all, any, ap, arith, bytes, contains, false, inl, inr,
  ltb, map, none, not, refl, some, subst, text_eq, true, ℕ, ◌&&◌, ◌++◌, ◌+◌, ◌==◌, ◌||◌, ◌∷◌, ◌≡◌,
}
use datuplet.Pipeline.{ComponentSpec, InputSpec, OutputSpec, Pipeline, StageSpec}
use datuplet.Pipeline.Validate.{Libraries}
use datuplet.Pipeline.Validate.Components.{component_base, input_findings, validate_component}
use datuplet.Pipeline.Validate.Inputs.{
  Available, available_buckets, input_bucket_findings, input_table_findings, register_outputs,
  validate_inputs,
}
use datuplet.Pipeline.Validate.Typed.{
  GatewayBounds, RegistryView, components_findings, registered, stages_findings, validate_registry,
  validate_typed,
}
use datuplet.Pipeline.Validate.Clean.{
  errors, first_error_finding-none, has_error, has_error-append, has_error-split,
}
use datuplet.Pipeline.Validate.Distinct.{contains-append}
use datuplet.Pipeline.Validate.Sound.{writes}
use datuplet.Controller.Findings.{first_error_finding}

abbrev pub reads : ComponentSpec → List Text
reads c = elim c.inputs [ none ↦ [] | some inp ↦ inp.buckets ]

-- the components, in order, each with the index of its stage
unfoldable pub placed : ℕ → List StageSpec → List (ℕ × ComponentSpec)
placed i [] = []
placed i (stage ∷ stages) = map (λ c. (i, c)) stage.components ++ placed (i + 1) stages

-- in order, what a component outside the first stage reads is there, and what it writes is there then
supplied : List Text → List (ℕ × ComponentSpec) → Bool
supplied have [] = true
supplied have ((i, c) ∷ placed_) =
    (not (ltb 0 i) || all (contains have) (reads c)) && supplied (writes c ++ have) placed_

contains_of_all :
    (have xs : List Text) (b : Text)
    → all (contains have) xs ≡ true
    → contains xs b ≡ true
    → contains have b ≡ true
contains_of_all have [] b h k = absurd (cc)
contains_of_all have (x ∷ xs) b h k = elim (Bool-cases (x == b)) [
  | inl e ↦
      let same : x ≡ b = (text_eq.eqb_iff x b).0 e in ground (arith, h, ap (contains have) same)
  | inr e ↦ contains_of_all have xs b (ground (arith, h)) (ground (arith, e, k))
]

supplied-before :
    (have : List Text) (before after : List (ℕ × ComponentSpec)) (i : ℕ) (c : ComponentSpec)
    (b : Text)
    → supplied have (before ++ ((i, c) ∷ after)) ≡ true
    → ltb 0 i ≡ true
    → contains (reads c) b ≡ true
    → (any (λ e. contains (writes e.1) b) before || contains have b) ≡ true
unfolding supplied
supplied-before have [] after i c b h l k =
    contains_of_all have (reads c) b (ground (arith, h, l)) k
supplied-before have ((j, d) ∷ before) after i c b h l k =
    let rest = supplied-before (writes d ++ have) before after i c b (ground (arith, h)) l k in
    ground (arith, contains-append (writes d) have b, rest)

module _ (lib : Libraries) where
  inputs-available :
      (available : Available) (name base : Text) (i k : ℕ) (bs : List Text)
      → ltb 0 i ≡ true
      → has_error (input_bucket_findings lib available name base i k bs) ≡ false
      → all (contains available.buckets) bs ≡ true
  unfolding input_bucket_findings
  inputs-available available name base i k [] l h = refl
  inputs-available available name base i k (b ∷ bs) l h =
      let flat = simp (errors, l) at h in
      ground
        (arith, flat, inputs-available available name base i (k + 1) bs l (ground (arith, flat)))

  reads-available :
      (o : Option InputSpec) (available : Available) (name base : Text) (i : ℕ)
      → ltb 0 i ≡ true
      → has_error (elim o [ none ↦ [] | some inp ↦ validate_inputs lib available name base i inp ])
        ≡ false
      → all (contains available.buckets) (elim o [ none ↦ [] | some inp ↦ inp.buckets ]) ≡ true
  unfolding validate_inputs
  reads-available none available name base i l h = refl
  reads-available (some inp) available name base i l h =
      inputs-available available name base i 0 inp.buckets l
        (has_error-split (input_bucket_findings lib available name base i 0 inp.buckets)
          (input_table_findings lib available name base i 0 inp.tables) h).0

  component-supplied :
      (available : Available) (c : ComponentSpec) (i j : ℕ)
      → has_error (validate_component lib available c i j) ≡ false
      → (not (ltb 0 i) || all (contains available.buckets) (reads c)) ≡ true
  unfolding validate_component input_findings
  component-supplied available c i j h = elim (Bool-cases (ltb 0 i)) [
    | inr e ↦ ground (arith, e)
    | inl e ↦
        let base = component_base i j in
        let flat = simp has_error-append at h in
        ground (
          arith,
          e,
          reads-available c.inputs available c.name (base ++ bytes ".inputs") i e
              (ground (arith, flat)),
        )
  ]

  registered-buckets :
      (o : Option OutputSpec) (available : Available)
      → (elim o as (λ x. Available) [
        | none ↦ available
        | some out ↦ register_outputs out available
      ]).buckets
        ≡ elim o [ none ↦ [] | some out ↦ available_buckets out ] ++ available.buckets
  unfolding register_outputs
  registered-buckets none available = refl
  registered-buckets (some out) available = refl

  module _ (reg : RegistryView) where
    components_findings-supplied :
        (i j : ℕ) (cs : List ComponentSpec) (available : Available)
        (rest : List (ℕ × ComponentSpec))
        → has_error (components_findings lib reg i j cs available).1 ≡ false
        → supplied (components_findings lib reg i j cs available).0.buckets rest ≡ true
        → supplied available.buckets (map (λ c. (i, c)) cs ++ rest) ≡ true
    unfolding components_findings supplied
    components_findings-supplied i j [] available rest h k = k
    components_findings-supplied i j (c ∷ cs) available rest h k =
        let later = components_findings lib reg i (j + 1) cs (registered c available) in
        let first =
          has_error-split (validate_component lib available c i j)
            (validate_registry lib reg c i j ++ later.1) h in
        let second = has_error-split (validate_registry lib reg c i j) later.1 first.1 in
        let here = component-supplied available c i j first.0 in
        let next =
          components_findings-supplied i (j + 1) cs (registered c available) rest second.1 k in
        ground (
          arith,
          here,
          subst (λ have. supplied have (map (λ c. (i, c)) cs ++ rest) ≡ true)
              (registered-buckets c.outputs available) next,
        )

    stages_findings-supplied :
        (i : ℕ) (stages : List StageSpec) (available : Available)
        → has_error (stages_findings lib reg i stages available) ≡ false
        → supplied available.buckets (placed i stages) ≡ true
    unfolding stages_findings placed supplied
    stages_findings-supplied i [] available h = refl
    stages_findings-supplied i (stage ∷ stages) available h =
        let here = components_findings lib reg i 0 stage.components available in
        let flat = simp errors at h in
        components_findings-supplied i 0 stage.components available (placed (i + 1) stages)
          (ground (arith, flat))
          (stages_findings-supplied (i + 1) stages here.0 (ground (arith, flat)))

    -- Where ValidateTyped finds no error, a bucket that a component of any stage but the first reads is made
    -- available by a component before it, in the order of the stages and, in a stage, of its components: it may
    -- be a component of the same stage.
    pub validate_typed-supplied :
        (p : Pipeline) (pol : Option GatewayBounds) (before after : List (ℕ × ComponentSpec))
        (i : ℕ) (c : ComponentSpec) (b : Text)
        → first_error_finding (validate_typed lib reg p pol) ≡ none
        → placed 0 p.spec.stages ≡ before ++ ((i, c) ∷ after)
        → ltb 0 i ≡ true
        → contains (reads c) b ≡ true
        → any (λ e. contains (writes e.1) b) before ≡ true
    unfolding validate_typed
    validate_typed-supplied p pol before after i c b h split l k =
        let flat = simp errors at (first_error_finding-none (validate_typed lib reg p pol) h) in
        let all_ =
          stages_findings-supplied 0 p.spec.stages (record { tables = []; buckets = [] })
            (ground (arith, flat)) in
        let there =
          supplied-before [] before after i c b (subst (λ es. supplied [] es ≡ true) split all_) l
            k in
        ground (arith, there)
