-- ===== src/Schema/Names.antt =====
-- Names and Arrow forms of the data types (types.go).
use datuplet.Prelude.{Text, arith, bytes, ok, refl, text_beq, text_beq_iff, ◌≡◌, ◌≢◌, ◌⊎◌}
use datuplet.Schema.{
  DataType, unknown, int64, bool, to_string, parse_data_type, to_arrow_type, from_arrow_type,
  ArrowType,
}

-- Every data type is read back from its name, `unknown` included.
pub parse_data_type-to_string : (dt : DataType) → parse_data_type (to_string dt) ≡ dt
unfolding parse_data_type to_string text_beq
parse_data_type-to_string int64 = refl
parse_data_type-to_string _ = refl

-- A text that is read as a known type is that type's name, or the alias "boolean" of bool.
pub to_string-parse_data_type :
    (s : Text)
    → parse_data_type s ≢ unknown
    → (to_string (parse_data_type s) ≡ s) ⊎ ((s ≡ bytes "boolean") × (parse_data_type s ≡ bool))
unfolding parse_data_type to_string
to_string-parse_data_type s h = ground (
  arith,
  text_beq_iff s (bytes "int64"),
  text_beq_iff s (bytes "int32"),
  text_beq_iff s (bytes "float64"),
  text_beq_iff s (bytes "float32"),
  text_beq_iff s (bytes "string"),
  text_beq_iff s (bytes "bool"),
  text_beq_iff s (bytes "boolean"),
  text_beq_iff s (bytes "timestamp"),
  text_beq_iff s (bytes "date"),
  text_beq_iff s (bytes "binary"),
  text_beq_iff s (bytes "variant"),
)

-- A type that has an Arrow form is read back from it.
pub from_arrow_type-to_arrow_type :
    (dt : DataType) (a : ArrowType) → to_arrow_type dt ≡ ok a → from_arrow_type a ≡ ok dt
unfolding to_arrow_type from_arrow_type
from_arrow_type-to_arrow_type dt a h = ground arith
