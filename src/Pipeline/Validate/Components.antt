-- ===== src/Pipeline/Validate/Components.antt =====
-- validateComponent, checkUniqueComponentNames, validateSecretRefs
-- (pkg/pipeline/validate/validate.go) and the syntax of a reference (pkg/lib/secrets/secrets.go).
use datuplet.Prelude.{
  Bool, List, Text, [], bytes, contains, contains_text, err, false, if◌then◌else◌, is_empty, leb,
  nat_beq, none, not, ok, show_nat, some, text_eq, ℕ, ◌&&◌, ◌++◌, ◌+◌, ◌||◌, ◌∷◌,
}
use datuplet.Pipeline.{ComponentSpec, Finding, StageSpec, error}
use datuplet.Pipeline.Validate.Inputs.{Available, validate_inputs}
use datuplet.Pipeline.Validate.Outputs.{validate_outputs}
use datuplet.Pipeline.Validate.{Libraries, finding, unless_empty, when}

unfoldable pub has_inputs : ComponentSpec → Bool
has_inputs c = elim c.inputs [
  | none ↦ false
  | some inp ↦ not (is_empty inp.buckets) || not (is_empty inp.tables)
]

unfoldable pub has_outputs : ComponentSpec → Bool
has_outputs c = elim c.outputs [
  | none ↦ false
  | some out ↦
      not (is_empty out.default_bucket) || (not (is_empty out.buckets) || not (is_empty out.tables))
]

unfoldable pub component_base : ℕ → ℕ → Text
component_base i j =
    bytes "stages[" ++ (show_nat i ++ (bytes "].components[" ++ (show_nat j ++ bytes "]")))

unfoldable pub input_findings : Libraries → Available → ComponentSpec → Text → ℕ → List Finding
unfolding validate_inputs
input_findings lib available c base i = elim c.inputs [
  | none ↦ []
  | some inp ↦ validate_inputs lib available c.name (base ++ bytes ".inputs") i inp
]

unfoldable pub output_findings : Libraries → ComponentSpec → Text → List Finding
unfolding validate_outputs
output_findings lib c base = elim c.outputs [
  | none ↦ []
  | some out ↦ validate_outputs lib c.name (base ++ bytes ".outputs") out
]

unfoldable pub validate_component : Libraries → Available → ComponentSpec → ℕ → ℕ → List Finding
unfolding has_inputs has_outputs component_base input_findings output_findings
validate_component lib available c i j =
    let base = component_base i j in
    when (is_empty c.name) (
      finding error (base ∷ (bytes ".name" ∷ [])) (
        bytes "stage "
        ∷ (show_nat i ∷ (bytes ", component " ∷ (show_nat j ∷ (bytes ": name is required" ∷ []))))))
    ++ (when (is_empty c.component) (
          finding error (base ∷ (bytes ".component" ∷ []))
            (bytes "component " ∷ (c.name ∷ (bytes ": component is required" ∷ []))))
        ++ (input_findings lib available c base i
            ++ (output_findings lib c base
                ++ when (not (has_inputs c) && not (has_outputs c)) (
                    finding error (base ∷ []) (
                      bytes "component "
                      ∷ (c.name
                          ∷ (bytes ": must have at least inputs or outputs defined" ∷ [])))))))

unfoldable pub unique_name_finding : (Text → Text) → ℕ → ℕ → Text → Finding
unique_name_finding quote i j name = finding error (component_base i j ∷ (bytes ".name" ∷ [])) (
    bytes "component name "
    ∷ (quote name
        ∷ (bytes
              " is not unique — component instance names must be unique across the whole pipeline"
            ∷ [])))

-- over the components of a stage; the names seen go on to the next stage
unfoldable pub unique_in_stage :
    (Text → Text) → ℕ → ℕ → List ComponentSpec → List Text → List Text × List Finding
unfolding unique_name_finding
unique_in_stage quote i j [] seen = (seen, [])
unique_in_stage quote i j (c ∷ cs) seen =
    if is_empty c.name
    then unique_in_stage quote i (j + 1) cs seen
    else if contains seen c.name
    then (let rest = unique_in_stage quote i (j + 1) cs seen in
        (rest.0, unique_name_finding quote i j c.name ∷ rest.1))
    else unique_in_stage quote i (j + 1) cs (c.name ∷ seen)

unfoldable pub unique_from : (Text → Text) → ℕ → List StageSpec → List Text → List Finding
unfolding unique_in_stage
unique_from quote i [] seen = []
unique_from quote i (stage ∷ stages) seen =
    let here = unique_in_stage quote i 0 stage.components seen in
    here.1 ++ unique_from quote (i + 1) stages here.0

unfoldable pub check_unique_component_names : (Text → Text) → List StageSpec → List Finding
unfolding unique_from
check_unique_component_names quote stages = unique_from quote 0 stages []

-- a name, then the closing bracket at the end
unfoldable pub closes_name : Text → Bool
closes_name [] = false
closes_name (c ∷ []) = false
closes_name (c ∷ d ∷ s) =
    ((leb 97 c && leb c 122)
      || ((leb 65 c && leb c 90) || ((leb 48 c && leb c 57) || (nat_beq c 95 || nat_beq c 45))))
    && ((is_empty s && nat_beq d 93) || closes_name (d ∷ s))

-- ^\$\[([A-Za-z0-9_-]+)\]$
unfoldable pub is_reference : Text → Bool
unfolding closes_name
is_reference [] = false
is_reference (c ∷ []) = false
is_reference (c ∷ d ∷ s) = nat_beq c 36 && (nat_beq d 91 && closes_name s)

-- ^\$\$\[([A-Za-z0-9_-]+)\]$
unfoldable pub is_escape : Text → Bool
unfolding is_reference
is_escape [] = false
is_escape (c ∷ s) = nat_beq c 36 && is_reference s

-- the error of a string leaf, which is the whole tree: its path is empty
unfoldable pub leaf_error : (Text → Text) → Text → Text
unfolding is_escape
leaf_error quote s =
    if is_reference s || is_escape s
    then []
    else if contains_text s (bytes "$[")
    then bytes "invalid secret reference at : only whole-scalar $[name] is supported (got "
      ++ (quote s ++ bytes ")")
    else []

unfoldable pub leaf_findings : (Text → Text) → List (Text × Text) → List Finding
unfolding leaf_error
leaf_findings quote [] = []
leaf_findings quote ((path, s) ∷ leaves) =
    unless_empty (leaf_error quote s) (λ m. finding error (path ∷ []) (m ∷ []))
    ++ leaf_findings quote leaves

unfoldable pub validate_secret_refs : Libraries → ComponentSpec → ℕ → ℕ → List Finding
unfolding leaf_findings
validate_secret_refs lib c i j =
    let base = component_base i j ++ bytes ".config" in
    elim (lib.config_strings c.config base) [
      | err e ↦ finding error (base ∷ []) (e ∷ []) ∷ []
      | ok leaves ↦ leaf_findings lib.quote leaves
    ]
