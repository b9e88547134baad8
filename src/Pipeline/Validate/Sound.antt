-- ===== src/Pipeline/Validate/Sound.antt =====
-- A pipeline in which ValidateTyped of pkg/pipeline/validate/validate.go finds no error.
use datuplet.Prelude.{
  Bool, List, Option, Text, [], all, arith, bytes, contains, false, is_empty, map, none, not, refl,
  some, text_beq, text_eq, true, ℕ, ◌&&◌, ◌++◌, ◌+◌, ◌||◌, ◌∷◌, ◌≡◌,
}
use datuplet.Pipeline.{ComponentSpec, OutputSpec, Pipeline, StageSpec}
use datuplet.Pipeline.Validate.{Libraries}
use datuplet.Pipeline.Validate.Components.{
  component_base, has_inputs, has_outputs, output_findings, validate_component,
}
use datuplet.Pipeline.Validate.Inputs.{Available, available_buckets}
use datuplet.Pipeline.Validate.Outputs.{validate_outputs}
use datuplet.Pipeline.Validate.Names.{matches_bucket_name}
use datuplet.Pipeline.Validate.Typed.{
  GatewayBounds, RegistryView, components_findings, registered, stages_findings, validate_registry,
  validate_typed,
}
use datuplet.Pipeline.Validate.Clean.{
  errors, first_error_finding-none, has_error, has_error-split, validate_outputs-valid,
}
use datuplet.Pipeline.Validate.Distinct.{
  beq-nil, check_unique_component_names-distinct, component_names, distinct,
}
use datuplet.Controller.Findings.{first_error_finding}

abbrev pub writes : ComponentSpec → List Text
writes c = elim c.outputs [ none ↦ [] | some out ↦ available_buckets out ]

-- it is named, names its component, reads or writes, and the buckets it writes have valid names
unfoldable pub sound_component : ComponentSpec → Bool
sound_component c =
    not (is_empty c.name)
    && (not (is_empty c.component)
        && ((has_inputs c || has_outputs c) && all matches_bucket_name (writes c)))

unfoldable pub sound_stage : StageSpec → Bool
unfolding sound_component
sound_stage stage =
    not (is_empty stage.name)
    && (not (is_empty stage.components) && all sound_component stage.components)

-- it and its stages are named, no list is empty, and no two components have one name
unfoldable pub sound : Pipeline → Bool
unfolding sound_stage distinct component_names
sound p =
    not (is_empty p.name)
    && (not (is_empty p.spec.stages)
        && (all sound_stage p.spec.stages && distinct (component_names p.spec.stages)))

module _ (lib : Libraries) where
  outputs-valid :
      (o : Option OutputSpec) (name base : Text)
      → has_error (elim o [ none ↦ [] | some out ↦ validate_outputs lib name base out ]) ≡ false
      → all matches_bucket_name (elim o [ none ↦ [] | some out ↦ available_buckets out ]) ≡ true
  outputs-valid none name base h = refl
  outputs-valid (some out) name base h = validate_outputs-valid lib name base out h

  writes-valid :
      (c : ComponentSpec) (base : Text)
      → has_error (output_findings lib c base) ≡ false
      → all matches_bucket_name (writes c) ≡ true
  unfolding output_findings
  writes-valid c base h = outputs-valid c.outputs c.name (base ++ bytes ".outputs") h

  validate_component_sound :
      (available : Available) (c : ComponentSpec) (i j : ℕ)
      → has_error (validate_component lib available c i j) ≡ false
      → sound_component c ≡ true
  unfolding validate_component sound_component
  validate_component_sound available c i j h =
      let flat = simp errors at h in
      let written = writes-valid c (component_base i j) (ground (arith, flat)) in
      ground (arith, flat, written)

  module _ (reg : RegistryView) where
    components_findings_sound :
        (i j : ℕ) (cs : List ComponentSpec) (available : Available)
        → has_error (components_findings lib reg i j cs available).1 ≡ false
        → all sound_component cs ≡ true
    unfolding components_findings
    components_findings_sound i j [] available h = refl
    components_findings_sound i j (c ∷ cs) available h =
        let rest = components_findings lib reg i (j + 1) cs (registered c available) in
        let first =
          has_error-split (validate_component lib available c i j)
            (validate_registry lib reg c i j ++ rest.1) h in
        let second = has_error-split (validate_registry lib reg c i j) rest.1 first.1 in
        ground (
          arith,
          validate_component_sound available c i j first.0,
          components_findings_sound i (j + 1) cs (registered c available) second.1,
        )

    stages_findings_sound :
        (i : ℕ) (stages : List StageSpec) (available : Available)
        → has_error (stages_findings lib reg i stages available) ≡ false
        → all sound_stage stages ≡ true
    unfolding stages_findings sound_stage
    stages_findings_sound i [] available h = refl
    stages_findings_sound i (stage ∷ stages) available h =
        let here = components_findings lib reg i 0 stage.components available in
        let flat = simp errors at h in
        let comps =
          components_findings_sound i 0 stage.components available (ground (arith, flat)) in
        ground
          (arith, flat, comps, stages_findings_sound (i + 1) stages here.0 (ground (arith, flat)))

    sound-named :
        (cs : List ComponentSpec) (rest : List Text)
        → all sound_component cs ≡ true
        → contains rest [] ≡ false
        → contains (map (λ c. c.name) cs ++ rest) [] ≡ false
    unfolding sound_component text_beq
    sound-named [] rest h k = k
    sound-named (c ∷ cs) rest h k =
        ground (arith, beq-nil c.name, h, sound-named cs rest (ground (arith, h)) k)

    sound_stages-named :
        (stages : List StageSpec)
        → all sound_stage stages ≡ true
        → contains (component_names stages) [] ≡ false
    unfolding sound_stage component_names
    sound_stages-named [] h = refl
    sound_stages-named (stage ∷ stages) h =
        sound-named stage.components (component_names stages) (ground (arith, h))
          (sound_stages-named stages (ground (arith, h)))

    -- A pipeline in which ValidateTyped finds no error, whatever the registry and the policy, has a name and at
    -- least one stage; each stage has a name and a component; each component has a name, a component reference
    -- and an input or output, and the buckets that it makes available match the pattern of bucket names; and no
    -- two components of the pipeline have the same name.
    pub validate_typed-sound :
        (p : Pipeline) (pol : Option GatewayBounds)
        → first_error_finding (validate_typed lib reg p pol) ≡ none
        → sound p ≡ true
    unfolding validate_typed sound
    validate_typed-sound p pol h =
        let flat = simp errors at (first_error_finding-none (validate_typed lib reg p pol) h) in
        let stages =
          stages_findings_sound 0 p.spec.stages (record { tables = []; buckets = [] })
            (ground (arith, flat)) in
        let unique =
          check_unique_component_names-distinct lib.quote p.spec.stages
            (sound_stages-named p.spec.stages stages) (ground (arith, flat)) in
        ground (arith, flat, stages, unique)
