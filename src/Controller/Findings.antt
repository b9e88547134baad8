-- ===== src/Controller/Findings.antt =====
-- The findings that decide an admission in pkg/k8s/controllers/pipelinerun_controller.go.
use datuplet.Prelude.{
  Bool, List, Option, Text, [], bytes, contains_text, false, if◌then◌else◌, none, not, some, true,
  ◌&&◌, ◌∷◌,
}
use datuplet.Pipeline.{Finding, Severity, error, transient, warning}

unfoldable pub non_resource_findings : List Finding → List Finding
unfolding contains_text
non_resource_findings [] = []
non_resource_findings (f ∷ findings) =
    let rest = non_resource_findings findings in
    if contains_text f.path (bytes ".resources") && not (contains_text f.path (bytes ".config"))
    then rest
    else f ∷ rest

abbrev pub is_error : Severity → Bool
is_error error = true
is_error warning = false
is_error transient = false

abbrev pub is_transient : Severity → Bool
is_transient error = false
is_transient warning = false
is_transient transient = true

unfoldable pub first_error_finding : List Finding → Option Finding
first_error_finding [] = none
first_error_finding (f ∷ findings) =
    let rest = first_error_finding findings in if is_error f.severity then some f else rest

unfoldable pub first_transient_finding : List Finding → Option Finding
first_transient_finding [] = none
first_transient_finding (f ∷ findings) =
    let rest = first_transient_finding findings in if is_transient f.severity then some f else rest

abbrev pub message_of : Option Finding → Text
message_of none = []
message_of (some f) = f.message
