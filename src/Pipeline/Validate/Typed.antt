-- ===== src/Pipeline/Validate/Typed.antt =====
-- ValidateTyped, validateRegistry, checkIOCapability (pkg/pipeline/validate/validate.go),
-- checkResourcesAgainstMax and checkGatewayBounds (policy.go), over any registry.
use datuplet.Prelude.{
  Assoc, Bool, List, Option, Text, [], bytes, err, false, if◌then◌else◌, is_empty, lookup, ltb, map,
  nat_beq, none, not, ok, show_nat, some, text_eq, true, ℕ, ◌&&◌, ◌++◌, ◌+◌, ◌==◌, ◌∷◌,
}
use datuplet.Limits.Clamp.{ResourceRequirements}
use datuplet.Pipeline.{
  ComponentIo, ComponentSpec, Finding, GatewaySpec, Pipeline, ResolvedComponent, StageSpec, error,
  negsuc, pos, ℤ,
}
use datuplet.Pipeline.Validate.{Libraries, finding, when}
use datuplet.Pipeline.Validate.Inputs.{Available, register_outputs, show_int}
use datuplet.Pipeline.Validate.Components.{
  check_unique_component_names, component_base, has_inputs, has_outputs, validate_component,
  validate_secret_refs,
}

pub record GatewayBounds : Type 0 where
  pub max_chunk_size : ℤ
  pub max_buffer_size : ℤ
  pub max_target_file_size : ℤ

abbrev pub io_mode : Text → Text
io_mode mode = if is_empty mode then bytes "optional" else mode

unfoldable pub inputs_mode : Option ComponentIo → Text
inputs_mode none = bytes "optional"
inputs_mode (some io) = io_mode io.inputs

unfoldable pub outputs_mode : Option ComponentIo → Text
outputs_mode none = bytes "optional"
outputs_mode (some io) = io_mode io.outputs

-- what a mode says of a component that has, or has not, what it is about
unfoldable pub capability_findings : Text → Bool → Text → Text → Text → Text → List Finding
capability_findings mode has path name refused required =
    if mode == bytes "none"
    then when has (finding error (path ∷ []) (bytes "component " ∷ (name ∷ (refused ∷ []))))
    else if mode == bytes "required"
    then when (not has) (finding error (path ∷ []) (bytes "component " ∷ (name ∷ (required ∷ []))))
    else []

unfoldable pub check_io_capability : ComponentSpec → Option ComponentIo → Text → List Finding
unfolding inputs_mode outputs_mode capability_findings
check_io_capability c io base =
    capability_findings (inputs_mode io) (has_inputs c) (base ++ bytes ".inputs") c.name
      (bytes " takes no inputs") (bytes " requires at least one input")
    ++ capability_findings (outputs_mode io) (has_outputs c) (base ++ bytes ".outputs") c.name
        (bytes " takes no outputs") (bytes " requires at least one output")

module _ (lib : Libraries) (max_list : Assoc Text ℕ) (prefix_ component : Text) where
  unfoldable pub over_max_findings : Text → Assoc Text ℕ → List Finding
  over_max_findings kind [] = []
  over_max_findings kind ((name, q) ∷ resources) =
      elim (lookup max_list name) [
        | none ↦
            finding error (prefix_ ∷ (bytes ".resources" ∷ [])) (
              bytes "resource \""
              ∷ (name
                  ∷ (bytes "\" is not allowed for component "
                      ∷ (component ∷ (bytes " (not listed in registry max)" ∷ [])))))
            ∷ []
        | some maxq ↦ when (ltb maxq q) (
            finding error (prefix_ ∷ (bytes ".resources." ∷ (kind ∷ (bytes "." ∷ (name ∷ []))))) (
              bytes "resources."
              ∷ (kind
                  ∷ (bytes "."
                      ∷ (name
                          ∷ (bytes "="
                              ∷ (lib.quantity q
                                  ∷ (bytes " exceeds registry max "
                                      ∷ (lib.quantity maxq ∷ [])))))))))
      ]
      ++ over_max_findings kind resources

  unfoldable pub check_resources_against_max : Option ResourceRequirements → List Finding
  unfolding over_max_findings
  check_resources_against_max none = []
  check_resources_against_max (some rr) =
      over_max_findings (bytes "limits") rr.limits
      ++ over_max_findings (bytes "requests") rr.requests

unfoldable pub join_key : Text → Text → Text
join_key path key = if is_empty path then key else path ++ (46 ∷ key)

abbrev pub under : Text → List Finding → List Finding
under base fs =
    map (λ f. record { path = join_key base f.path; message = f.message; severity = f.severity }) fs

unfoldable pub resolved_findings :
    Libraries → ComponentSpec → Text → Option ResolvedComponent → List Finding
unfolding check_io_capability check_resources_against_max
resolved_findings lib c base none = []
resolved_findings lib c base (some rc) =
    check_io_capability c rc.io base
    ++ (check_resources_against_max lib rc.resources.max_resources base c.component c.resources
        ++ (if is_empty rc.config_schema then [] else elim (lib.config_strings c.config base) [
          | err e ↦ []
          | ok leaves ↦ lib.validate_config rc.config_schema c.config (base ++ bytes ".config")
        ]))

-- reg.Resolve, or none for a nil registry
abbrev pub RegistryView : Type 0
RegistryView = Option (Text → Text → Option ResolvedComponent × List Finding)

unfoldable pub validate_registry : Libraries → RegistryView → ComponentSpec → ℕ → ℕ → List Finding
unfolding join_key resolved_findings
validate_registry lib none c i j = []
validate_registry lib (some resolve) c i j =
    let resolved = resolve c.component c.version in
    let base = component_base i j in
    under base resolved.1 ++ resolved_findings lib c base resolved.0

unfoldable pub exceeds : ℤ → ℤ → Bool
exceeds (pos n) (pos b) = ltb b n
exceeds (pos n) (negsuc b) = true
exceeds (negsuc n) (pos b) = false
exceeds (negsuc n) (negsuc b) = ltb n b

abbrev pub is_zero : ℤ → Bool
is_zero (pos n) = nat_beq n 0
is_zero (negsuc n) = false

unfoldable pub bound_findings : ℤ → ℤ → Text → List Finding
unfolding exceeds show_int
bound_findings knob bound name = when (not (is_zero bound) && exceeds knob bound) (
    finding error (bytes "gateway." ∷ (name ∷ [])) (
      bytes "gateway."
      ∷ (name
          ∷ (bytes "="
              ∷ (show_int knob ∷ (bytes " exceeds policy max " ∷ (show_int bound ∷ [])))))))

unfoldable pub check_gateway_bounds : GatewaySpec → Option GatewayBounds → List Finding
unfolding bound_findings
check_gateway_bounds g none = []
check_gateway_bounds g (some bounds) =
    bound_findings g.chunk_size bounds.max_chunk_size (bytes "chunkSize")
    ++ (bound_findings g.buffer_size bounds.max_buffer_size (bytes "bufferSize")
        ++ bound_findings g.target_file_size bounds.max_target_file_size (bytes "targetFileSize"))

abbrev pub registered : ComponentSpec → Available → Available
registered c available = elim c.outputs [
  | none ↦ available
  | some out ↦ register_outputs out available
]

module _ (lib : Libraries) (reg : RegistryView) where
  -- over the components of a stage, with what they make available
  unfoldable pub components_findings :
      ℕ → ℕ → List ComponentSpec → Available → Available × List Finding
  unfolding validate_component validate_registry register_outputs
  components_findings i j [] available = (available, [])
  components_findings i j (c ∷ cs) available =
      let rest = components_findings i (j + 1) cs (registered c available) in
      (
        rest.0,
        validate_component lib available c i j ++ (validate_registry lib reg c i j ++ rest.1),
      )

  unfoldable pub stages_findings : ℕ → List StageSpec → Available → List Finding
  unfolding components_findings
  stages_findings i [] available = []
  stages_findings i (stage ∷ stages) available =
      let here = components_findings i 0 stage.components available in
      when (is_empty stage.name) (
        finding error (bytes "stages[" ∷ (show_nat i ∷ (bytes "].name" ∷ [])))
          (bytes "stage " ∷ (show_nat i ∷ (bytes ": name is required" ∷ []))))
      ++ (when (is_empty stage.components) (
            finding error (bytes "stages[" ∷ (show_nat i ∷ (bytes "].components" ∷ [])))
              (bytes "stage " ∷ (stage.name ∷ (bytes ": must have at least one component" ∷ []))))
          ++ (here.1 ++ stages_findings (i + 1) stages here.0))

  unfoldable pub secret_findings_in : ℕ → ℕ → List ComponentSpec → List Finding
  unfolding validate_secret_refs
  secret_findings_in i j [] = []
  secret_findings_in i j (c ∷ cs) =
      validate_secret_refs lib c i j ++ secret_findings_in i (j + 1) cs

  unfoldable pub secret_findings : ℕ → List StageSpec → List Finding
  unfolding secret_findings_in
  secret_findings i [] = []
  secret_findings i (stage ∷ stages) =
      secret_findings_in i 0 stage.components ++ secret_findings (i + 1) stages

  unfoldable pub validate_typed : Pipeline → Option GatewayBounds → List Finding
  unfolding stages_findings secret_findings check_unique_component_names check_gateway_bounds
  validate_typed p pol =
      when (is_empty p.name) (
        finding error (bytes "metadata.name" ∷ [])
          (bytes "pipeline metadata.name is required" ∷ []))
      ++ (when (is_empty p.spec.stages) (
            finding error (bytes "spec.stages" ∷ [])
              (bytes "pipeline must have at least one stage" ∷ []))
          ++ (stages_findings 0 p.spec.stages (record { tables = []; buckets = [] })
              ++ (check_unique_component_names lib.quote p.spec.stages
                  ++ (secret_findings 0 p.spec.stages ++ check_gateway_bounds p.spec.gateway pol))))

  -- ValidateTyped of a pointer, none for nil
  unfoldable pub validate_pointer : Option Pipeline → Option GatewayBounds → List Finding
  unfolding validate_typed
  validate_pointer none pol = finding error [] (bytes "pipeline is nil" ∷ []) ∷ []
  validate_pointer (some p) pol = validate_typed p pol
