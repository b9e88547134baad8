-- ===== src/Pipeline/Validate.antt =====
-- The checks of pkg/pipeline/validate/validate.go, as findings in the order in which they are appended.
-- What iceberg-go makes of a partition transform, time.ParseDuration, a JSON config decoded into its
-- string leaves with their paths, in one order of the maps, the findings of a config against a JSON
-- Schema, the printing of a quantity and of `%q` are arguments (`Libraries`).
pub mod Names
pub mod Outputs
pub mod Inputs
pub mod Components
pub mod Registry
pub mod Typed
pub mod Versions
pub mod Latest
pub mod Clean
pub mod Distinct
pub mod Sound
pub mod Supplied
use datuplet.Prelude.{Bool, List, Option, Result, Text, [], false, true, ℕ, ◌++◌, ◌∷◌}
use datuplet.Pipeline.{Finding, Severity}

-- a transform of iceberg-go: its canonical text, and which type it is of
pub record Transform : Type 0 where
  pub canonical : Text
  pub is_unknown : Bool
  pub is_time : Bool

pub record Libraries : Type 0 where
  pub parse_transform : Text → Option Transform
  pub parse_duration : Text → Result Text Bool
  pub config_strings : Text → Text → Result Text (List (Text × Text))
  pub validate_config : Text → Text → Text → List Finding
  pub compile_schema : Text → Option Text
  pub quantity : ℕ → Text
  pub quote : Text → Text

-- the parts of a message, joined
unfoldable pub text_of : List Text → Text
text_of [] = []
text_of (t ∷ ts) = t ++ text_of ts

abbrev pub finding : Severity → List Text → List Text → Finding
finding severity path message = record {
  path = text_of path;
  message = text_of message;
  severity = severity;
}

-- a finding where the condition holds
abbrev pub when : Bool → Finding → List Finding
when true f = f ∷ []
when false f = []

-- a finding with the message, unless that is empty
abbrev pub unless_empty : Text → (Text → Finding) → List Finding
unless_empty [] f = []
unless_empty (c ∷ m) f = f (c ∷ m) ∷ []
