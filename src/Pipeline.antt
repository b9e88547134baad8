-- ===== src/Pipeline.antt =====
-- The types of a pipeline (pkg/k8s/api/v1/pipeline_types.go) and of a resolved component
-- (pkg/pipeline/validate/registry.go). A config stands as its JSON text, an empty text for none; the
-- fields that only the gateway reads are left out.
pub mod Validate
use datuplet.Prelude.{Assoc, Bool, List, Option, Text, ℕ}
use datuplet.Limits.Clamp.{ResourceRequirements}

-- an int64 or int, over the native numbers
pub data ℤ : Type 0 where
  pos negsuc : ℕ → ℤ

pub record GatewaySpec : Type 0 where
  pub chunk_size : ℤ
  pub buffer_size : ℤ
  pub target_file_size : ℤ

pub record InputTableSpec : Type 0 where
  pub bucket : Text
  pub table : Text
  pub since : Text
  pub since_snapshot : Option ℕ
  pub since_days : Option ℤ

pub record InputSpec : Type 0 where
  pub buckets : List Text
  pub tables : List InputTableSpec

pub record OutputBucketSpec : Type 0 where
  pub name : Text
  pub write_mode : Text

pub record PartitionFieldSpec : Type 0 where
  pub source_column : Text
  pub transform : Text

pub record ColumnSpec : Type 0 where
  pub name : Text
  pub column_type : Text

pub record OutputTableSpec : Type 0 where
  pub name : Text
  pub bucket : Text
  pub write_mode : Text
  pub partition_fields : List PartitionFieldSpec
  pub columns : List ColumnSpec

pub record ProcessorSpec : Type 0 where
  pub processor_type : Text
  pub columns : List Text

pub record OutputSpec : Type 0 where
  pub default_bucket : Text
  pub default_write_mode : Text
  pub buckets : List OutputBucketSpec
  pub tables : List OutputTableSpec
  pub processors : List ProcessorSpec

pub record ComponentSpec : Type 0 where
  pub name : Text
  pub component : Text
  pub version : Text
  pub config : Text
  pub inputs : Option InputSpec
  pub outputs : Option OutputSpec
  pub resources : Option ResourceRequirements

pub record StageSpec : Type 0 where
  pub name : Text
  pub components : List ComponentSpec

pub record PipelineSpec : Type 0 where
  pub gateway : GatewaySpec
  pub stages : List StageSpec

pub record Pipeline : Type 0 where
  pub name : Text
  pub generation : ℕ
  pub spec : PipelineSpec

-- a finding of validation; `transient` is the severity that only the controller's registry gives
pub data Severity : Type 0 where
  error warning transient : Severity

pub record Finding : Type 0 where
  pub path : Text
  pub message : Text
  pub severity : Severity

pub record ComponentResources : Type 0 where
  pub default_resources : ResourceRequirements
  pub max_resources : Assoc Text ℕ

pub record ComponentIo : Type 0 where
  pub inputs : Text
  pub outputs : Text

-- a component reference resolved to one version; the compiled schema stands as its text
pub record ResolvedComponent : Type 0 where
  pub component : Text
  pub version : Text
  pub image : Text
  pub prerelease : Bool
  pub config_schema : Text
  pub resources : ComponentResources
  pub io : Option ComponentIo
