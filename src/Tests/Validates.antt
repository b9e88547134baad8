-- ===== src/Tests/Validates.antt =====
-- Concrete pipelines and versions under the checks of pkg/pipeline/validate.
use datuplet.Prelude.{
  Bool, Option, Text, [], any, bytes, contains, false, nat_eq, none, ok, refl, some, text_beq,
  text_eq, true, ℕ, ◌++◌, ◌∷◌, ◌≡◌,
}
use datuplet.Pipeline.{ComponentSpec, InputSpec, Pipeline, pos}
use datuplet.Pipeline.Validate.{Libraries}
use datuplet.Pipeline.Validate.Registry.{ComponentDefinitionSpec, VersionSpec, latest_stable}
use datuplet.Pipeline.Validate.Typed.{RegistryView, validate_typed}
use datuplet.Pipeline.Validate.Latest.{Newest, latest_stable-Newest}
use datuplet.Pipeline.Validate.Sound.{sound, validate_typed-sound, writes}
use datuplet.Pipeline.Validate.Supplied.{placed, reads, validate_typed-supplied}
use datuplet.Controller.Findings.{first_error_finding}

abbrev libraries : Libraries
libraries = record {
  parse_transform = λ t. none;
  parse_duration = λ t. ok true;
  config_strings = λ c base. ok [];
  validate_config = λ s c base. [];
  compile_schema = λ s. none;
  quantity = λ n. [];
  quote = λ t. t;
}

abbrev unresolved : RegistryView
unresolved = none

-- a component that reads the buckets and writes by default to the one
abbrev step : Text → Option InputSpec → Text → ComponentSpec
step name inputs bucket = record {
  name = name;
  component = bytes "sql-transform";
  version = [];
  config = [];
  inputs = inputs;
  outputs = some (record {
    default_bucket = bucket;
    default_write_mode = [];
    buckets = [];
    tables = [];
    processors = [];
  });
  resources = none;
}

abbrev reading : Text → Option InputSpec
reading bucket = some (record { buckets = bucket ∷ []; tables = [] })

-- the two components of the second stage run at once, and the second reads what the first writes
abbrev extract : ComponentSpec
extract = step (bytes "extract") none (bytes "raw")

abbrev clean : ComponentSpec
clean = step (bytes "clean") (reading (bytes "raw")) (bytes "cleaned")

abbrev report : ComponentSpec
report = step (bytes "report") (reading (bytes "cleaned")) (bytes "reports")

abbrev etl : Pipeline
etl = record {
  name = bytes "etl";
  generation = 1;
  spec = record {
    gateway = record { chunk_size = pos 0; buffer_size = pos 0; target_file_size = pos 0 };
    stages =
        record { name = bytes "load"; components = extract ∷ [] }
        ∷ (record { name = bytes "transform"; components = clean ∷ (report ∷ []) } ∷ []);
  };
}

etl-clean : first_error_finding (validate_typed libraries unresolved etl none) ≡ none
unfolding validate_typed first_error_finding text_beq
etl-clean = refl

validate_typed-sound_example : sound etl ≡ true
validate_typed-sound_example = validate_typed-sound libraries unresolved etl none etl-clean

etl-placed : placed 0 etl.spec.stages ≡ ((0, extract) ∷ ((1, clean) ∷ [])) ++ ((1, report) ∷ [])
unfolding placed
etl-placed = refl

report-reads : contains (reads report) (bytes "cleaned") ≡ true
unfolding text_beq
report-reads = refl

validate_typed-supplied_example :
    any
      (λ (e : ℕ × ComponentSpec). contains (writes e.1) (bytes "cleaned"))
      ((0, extract) ∷ ((1, clean) ∷ []))
    ≡ true
validate_typed-supplied_example =
    validate_typed-supplied libraries unresolved etl none ((0, extract) ∷ ((1, clean) ∷ [])) [] 1
      report (bytes "cleaned") etl-clean etl-placed refl report-reads

abbrev version_at : Text → Bool → VersionSpec
version_at v prerelease = record {
  version = v;
  image = [];
  prerelease = prerelease;
  config_schema = [];
  resources = none;
}

abbrev definition : ComponentDefinitionSpec
definition = record {
  deprecated = false;
  default_version = [];
  versions =
      version_at (bytes "v0.9.0") false
      ∷ (version_at (bytes "v0.10.1") false
          ∷ (version_at (bytes "v2.0.0") true ∷ (version_at (bytes "dev") false ∷ [])));
  io = none;
}

-- the tenth minor version is newer than the ninth, and the prerelease does not count
latest_of_definition : latest_stable definition ≡ some (version_at (bytes "v0.10.1") false)
unfolding latest_stable
latest_of_definition = refl

latest_stable-Newest_example : Newest definition.versions (latest_stable definition)
latest_stable-Newest_example = latest_stable-Newest definition
