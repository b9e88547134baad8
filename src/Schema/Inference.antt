-- ===== src/Schema/Inference.antt =====
-- pkg/datagateway/schema/inference.go: the type of a text value, and the schema of sample rows.
-- strconv.ParseFloat and time.Parse are parameters (only whether they fail is used), and so is the
-- order in which Go's `range` visits a map.
pub mod Lexing
pub mod Join
pub mod Tally
pub mod Rows
use datuplet.Prelude.{
  Assoc, Bool, List, Option, Result, Text, [], any, bytes, contains, err, false, get_or,
  if◌then◌else◌, insert, is_empty, length, lookup, ltb, map, nat_beq, none, text_eq, true, ℕ, ◌&&◌,
  ◌+◌, ◌==◌, ◌||◌, ◌∷◌,
}
use datuplet.Schema.{
  ColumnDef, DataType, Schema, SchemaError, bool, data_type_eq, date, float32, float64, int32,
  int64, new_schema, no_headers, string, timestamp, unknown,
}
use datuplet.Schema.Inference.Lexing.{matches_float, matches_int, parse_int_accepts, trim_space}

pub record InferenceConfig : Type 0 where
  pub min_sample_size : ℕ
  pub null_strings : List Text
  pub bool_true_strings : List Text
  pub bool_false_strings : List Text
  pub date_formats : List Text
  pub timestamp_formats : List Text

abbrev pub default_inference_config : InferenceConfig
default_inference_config = record {
  min_sample_size = 1;
  null_strings =
      map bytes (
        "" ∷ "null" ∷ "NULL" ∷ "NA" ∷ "N/A" ∷ "\\N" ∷ "nil" ∷ "NIL" ∷ "none" ∷ "None" ∷ "NONE"
        ∷ []);
  bool_true_strings =
      map bytes ("true" ∷ "TRUE" ∷ "True" ∷ "1" ∷ "yes" ∷ "YES" ∷ "Yes" ∷ "y" ∷ "Y" ∷ []);
  bool_false_strings =
      map bytes ("false" ∷ "FALSE" ∷ "False" ∷ "0" ∷ "no" ∷ "NO" ∷ "No" ∷ "n" ∷ "N" ∷ []);
  date_formats =
      map bytes
        ("2006-01-02" ∷ "01/02/2006" ∷ "02/01/2006" ∷ "2006/01/02" ∷ "2006-1-2" ∷ "1/2/2006" ∷ []);
  timestamp_formats = map bytes (
      "2006-01-02T15:04:05Z07:00" ∷ "2006-01-02T15:04:05.999999999Z07:00" ∷ "2006-01-02T15:04:05"
      ∷ "2006-01-02 15:04:05" ∷ "2006-01-02T15:04:05.000" ∷ "2006-01-02 15:04:05.000"
      ∷ "2006-01-02T15:04:05.000000" ∷ "2006-01-02 15:04:05.000000" ∷ "01/02/2006 15:04:05"
      ∷ "02/01/2006 15:04:05" ∷ "2006/01/02 15:04:05" ∷ []);
}

-- A set of strings, map[string]bool, is the list of its members.
pub record TypeInferrer : Type 0 where
  pub config : InferenceConfig
  pub null_set : List Text
  pub bool_true_set : List Text
  pub bool_false_set : List Text

-- `none` is the nil config
abbrev pub new_type_inferrer : Option InferenceConfig → TypeInferrer
new_type_inferrer given =
    let config = get_or given default_inference_config in
    record {
      config = config;
      null_set = config.null_strings;
      bool_true_set = config.bool_true_strings;
      bool_false_set = config.bool_false_strings;
    }

unfoldable pub is_null : TypeInferrer → Text → Bool
is_null ti value = contains ti.null_set value

-- What strconv.ParseFloat accepts at a bit size, and time.Parse at a layout.
pub record Parsers : Type 0 where
  pub parse_float_accepts : ℕ → Text → Bool
  pub time_parse_accepts : Text → Text → Bool

-- the part of InferValueType after the trim
unfoldable pub infer_trimmed : Parsers → TypeInferrer → Text → DataType
unfolding is_null
infer_trimmed std ti value =
    if is_null ti value
    then unknown
    else if contains ti.bool_true_set value || contains ti.bool_false_set value
    then (if value == bytes "1" || value == bytes "0" then int64 else bool)
    else if matches_int value
    then (if parse_int_accepts 64 value then int64 else string)
    else if matches_float value && std.parse_float_accepts 64 value
    then float64
    else if any (λ format. std.time_parse_accepts format value) ti.config.timestamp_formats
    then timestamp
    else if any (λ format. std.time_parse_accepts format value) ti.config.date_formats
    then date
    else string

unfoldable pub infer_value_type : Parsers → TypeInferrer → Text → DataType
unfolding infer_trimmed
infer_value_type std ti value = infer_trimmed std ti (trim_space value)

pub record ColumnInferenceState : Type 0 where
  pub name : Text
  pub has_null : Bool
  pub type_counts : Assoc DataType ℕ
  pub total_non_null : ℕ

abbrev pub initial_state : Text → ColumnInferenceState
initial_state h = record { name = h; has_null = false; type_counts = []; total_non_null = 0 }

-- `counts[t]` of the map, 0 where the key is missing
abbrev pub count_of : Assoc DataType ℕ → DataType → ℕ
count_of counts t = get_or (lookup counts t) 0

unfoldable pub count_type : ColumnInferenceState → DataType → ColumnInferenceState
count_type st t = if t == unknown then st else record st {
  type_counts = insert st.type_counts t (count_of st.type_counts t + 1);
  total_non_null = st.total_non_null + 1;
}

-- the body of the loop over the cells of a row
unfoldable pub process_cell :
    Parsers → TypeInferrer → ColumnInferenceState → Text → ColumnInferenceState
unfolding count_type
process_cell std ti st value =
    if is_null ti value
    then record st { has_null = true }
    else count_type st (infer_value_type std ti value)

-- cells beyond the headers, and headers beyond the cells, are left alone
unfoldable pub process_row :
    Parsers → TypeInferrer → List ColumnInferenceState → List Text → List ColumnInferenceState
process_row std ti (st ∷ sts) (value ∷ row) =
    process_cell std ti st value ∷ process_row std ti sts row
process_row std ti sts row = sts

unfoldable pub process_rows :
    Parsers
    → TypeInferrer
    → List ColumnInferenceState
    → List (List Text)
    → List ColumnInferenceState
unfolding process_row
process_rows std ti sts [] = sts
process_rows std ti sts (row ∷ rows) = process_rows std ti (process_row std ti sts row) rows

-- the last loop of resolveColumnType, over the entries in the order of `range`
most_common : ℕ → DataType → List (DataType × ℕ) → DataType
most_common max_count result [] = result
most_common max_count result ((t, c) ∷ entries) =
    most_common (if ltb max_count c then c else max_count) (if ltb max_count c then t else result)
      entries

-- the first key that `range` visits
unfoldable pub first_key : List (DataType × ℕ) → DataType
first_key [] = string
first_key ((t, c) ∷ entries) = t

-- the rules from "Type promotion rules" on, given what the map holds
unfoldable pub promote : (DataType → ℕ) → List (DataType × ℕ) → DataType
unfolding most_common
promote counts entries =
    if ltb 0 (counts string)
    then string
    else if ltb 0 (counts timestamp) || ltb 0 (counts date)
    then string
    else if ltb 0 (counts bool) && (ltb 0 (counts int64) || ltb 0 (counts float64))
    then string
    else if ltb 0 (counts int64) && ltb 0 (counts float64)
    then float64
    else if ltb 0 (counts int32) && ltb 0 (counts int64)
    then int64
    else if ltb 0 (counts float32) && ltb 0 (counts float64)
    then float64
    else most_common 0 string entries

unfoldable pub resolve_column_type :
    (Assoc DataType ℕ → List (DataType × ℕ)) → ColumnInferenceState → DataType
resolve_column_type range st =
    let counts = count_of st.type_counts in
    if nat_beq st.total_non_null 0
    then string
    else if nat_beq (length st.type_counts) 1
    then first_key (range st.type_counts)
    else if ltb 0 (counts timestamp) && nat_beq (counts timestamp) st.total_non_null
    then timestamp
    else if ltb 0 (counts date) && nat_beq (counts date) st.total_non_null
    then date
    else promote counts (range st.type_counts)

unfoldable pub resolved_column :
    (Assoc DataType ℕ → List (DataType × ℕ)) → ColumnInferenceState → ColumnDef
resolved_column range st = record {
  name = st.name;
  type = resolve_column_type range st;
  nullable = st.has_null || nat_beq st.total_non_null 0;
  field_id = 0;
}

unfoldable pub infer_schema_with_config :
    Parsers
    → (Assoc DataType ℕ → List (DataType × ℕ))
    → List Text
    → List (List Text)
    → Option InferenceConfig
    → Result SchemaError Schema
infer_schema_with_config std range headers sample_rows config =
    if is_empty headers
    then err no_headers
    else new_schema (
        map (resolved_column range)
          (process_rows std (new_type_inferrer config) (map initial_state headers) sample_rows))

unfoldable pub infer_schema :
    Parsers
    → (Assoc DataType ℕ → List (DataType × ℕ))
    → List Text
    → List (List Text)
    → Result SchemaError Schema
infer_schema std range headers sample_rows =
    infer_schema_with_config std range headers sample_rows none
