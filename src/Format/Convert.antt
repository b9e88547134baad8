-- ===== src/Format/Convert.antt =====
-- pkg/datagateway/format/convert.go: the appenders that read a text. A value that the standard
-- library parses is represented by the text it is parsed from, and by the layout where there is one.
use datuplet.Prelude.{
  Bool, List, Option, Result, Text, [], bytes, contains, err, false, if◌then◌else◌, leb, map, none,
  ok, some, text_eq, true, ℕ, ◌&&◌, ◌+◌, ◌∷◌,
}
use datuplet.Schema.{
  DataType, SchemaError, binary, bool, date, float32, float64, int32, int64, string, timestamp,
  unknown, variant,
}
use datuplet.Schema.Inference.{Parsers}
use datuplet.Schema.Inference.Lexing.{parse_int_accepts, trim_space}

pub data Cell : Type 0 where
  null_cell : Cell
  int64_cell int32_cell float64_cell float32_cell string_cell binary_cell variant_cell : Text → Cell
  bool_cell : Bool → Cell
  timestamp_cell date_cell : Text → Text → Cell

pub data ConvertError : Type 0 where
  cannot_convert : DataType → Text → ConvertError
  unsupported_type : DataType → ConvertError
  invalid_variant : Text → ConvertError
  no_data no_csv_columns : ConvertError
  column_mismatch : ℕ → ℕ → ConvertError
  bad_schema : SchemaError → ConvertError
  at_cell : ℕ → Text → ConvertError → ConvertError

unfoldable pub append_int64_from_string : Text → Result ConvertError Cell
append_int64_from_string value =
    if parse_int_accepts 64 value then ok (int64_cell value) else err (cannot_convert int64 value)

unfoldable pub append_int32_from_string : Text → Result ConvertError Cell
append_int32_from_string value =
    if parse_int_accepts 32 value then ok (int32_cell value) else err (cannot_convert int32 value)

-- strings.ToLower, on the ASCII letters: no other letter has a lower case among those of the words
-- that `append_bool_from_string` compares with.
to_lower_byte : ℕ → ℕ
to_lower_byte c = if leb b'A' c && leb c b'Z' then c + 32 else c

unfoldable pub append_bool_from_string : Text → Result ConvertError Cell
unfolding to_lower_byte
append_bool_from_string value =
    let lower = map to_lower_byte (trim_space value) in
    if contains (map bytes ("true" ∷ "1" ∷ "yes" ∷ "y" ∷ [])) lower
    then ok (bool_cell true)
    else if contains (map bytes ("false" ∷ "0" ∷ "no" ∷ "n" ∷ [])) lower
    then ok (bool_cell false)
    else err (cannot_convert bool value)

abbrev pub timestamp_formats : List Text
timestamp_formats = map bytes (
    "2006-01-02T15:04:05Z07:00" ∷ "2006-01-02T15:04:05.999999999Z07:00" ∷ "2006-01-02T15:04:05"
    ∷ "2006-01-02 15:04:05" ∷ "2006-01-02T15:04:05.000" ∷ "2006-01-02 15:04:05.000"
    ∷ "2006-01-02T15:04:05.000000" ∷ "2006-01-02 15:04:05.000000" ∷ "01/02/2006 15:04:05"
    ∷ "02/01/2006 15:04:05" ∷ [])

abbrev pub date_formats : List Text
date_formats =
    map bytes
      ("2006-01-02" ∷ "01/02/2006" ∷ "02/01/2006" ∷ "2006/01/02" ∷ "2006-1-2" ∷ "1/2/2006" ∷ [])

-- the loop over the layouts: the first that parses
unfoldable pub first_layout : (Text → Bool) → List Text → Option Text
first_layout accepts [] = none
first_layout accepts (layout ∷ layouts) =
    let rest = first_layout accepts layouts in if accepts layout then some layout else rest

module _ (std : Parsers) where
  unfoldable pub append_float64_from_string : Text → Result ConvertError Cell
  append_float64_from_string value =
      if std.parse_float_accepts 64 value
      then ok (float64_cell value)
      else err (cannot_convert float64 value)

  unfoldable pub append_float32_from_string : Text → Result ConvertError Cell
  append_float32_from_string value =
      if std.parse_float_accepts 32 value
      then ok (float32_cell value)
      else err (cannot_convert float32 value)

  unfoldable pub append_timestamp_from_string : Text → Result ConvertError Cell
  unfolding first_layout
  append_timestamp_from_string value =
      let v = trim_space value in
      elim (first_layout (λ layout. std.time_parse_accepts layout v) timestamp_formats) [
        | some layout ↦ ok (timestamp_cell layout v)
        | none ↦ err (cannot_convert timestamp v)
      ]

  unfoldable pub append_date_from_string : Text → Result ConvertError Cell
  unfolding first_layout
  append_date_from_string value =
      let v = trim_space value in
      elim (first_layout (λ layout. std.time_parse_accepts layout v) date_formats) [
        | some layout ↦ ok (date_cell layout v)
        | none ↦ err (cannot_convert date v)
      ]

  -- `variant_accepts` stands for appendVariantJSONText, in variant.go
  unfoldable pub append_by_type : (Text → Bool) → DataType → Text → Result ConvertError Cell
  unfolding append_int64_from_string append_int32_from_string append_float64_from_string
      append_float32_from_string
  append_by_type variant_accepts int64 value = append_int64_from_string value
  append_by_type variant_accepts int32 value = append_int32_from_string value
  append_by_type variant_accepts float64 value = append_float64_from_string value
  append_by_type variant_accepts float32 value = append_float32_from_string value
  append_by_type variant_accepts string value = ok (string_cell value)
  append_by_type variant_accepts bool value = append_bool_from_string value
  append_by_type variant_accepts timestamp value = append_timestamp_from_string value
  append_by_type variant_accepts date value = append_date_from_string value
  append_by_type variant_accepts binary value = ok (binary_cell value)
  append_by_type variant_accepts variant value =
      if variant_accepts value then ok (variant_cell value) else err (invalid_variant value)
  append_by_type variant_accepts unknown value = err (unsupported_type unknown)
