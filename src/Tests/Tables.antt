-- ===== src/Tests/Tables.antt =====
-- Concrete schemas, columns and CSV files.
use mathlib.Core.Logic.{◌↔◌, ◌≢◌}
use datuplet.Prelude.{
  Assoc, List, Text, [], arith, bytes, err, false, if◌then◌else◌, inl, inr, is_ok, leb, length, ltb,
  map, none, ok, refl, some, text_beq, text_eq, true, ℕ, ◌&&◌, ◌==◌, ◌^◌, ◌∷◌, ◌≡◌,
}
use datuplet.Schema.{
  ColumnDef, DataType, Schema, arrow_int64, arrow_string, column_by_name, column_index, equal,
  float64, int64, new_schema, new_schema_from_arrow, parse_data_type, string, timestamp,
  to_arrow_type, to_string, unknown,
}
use datuplet.Schema.Names.{parse_data_type-to_string}
use datuplet.Schema.Columns.{
  Locates, at_index, column_by_name-column_index, column_index-Locates, equal_iff, is_ok-new_schema,
  new_schema_from_arrow-new_schema, without_field_id,
}
use datuplet.Schema.Inference.{
  Parsers, infer_schema_with_config, infer_trimmed, infer_value_type, is_null, new_type_inferrer,
}
use datuplet.Schema.Inference.Join.{decide_type, join_all, join_all-decide_type}
use datuplet.Schema.Inference.Rows.{columns_of, infer_schema-columns_of}
use datuplet.Schema.Inference.Lexing.{
  digits_value, drop_sign, matches_float, matches_int, parse_int_accepts, trim_space,
}
use datuplet.Format.Csv.{Env, append_csv_value, parse}
use datuplet.Format.Convert.{append_timestamp_from_string, cannot_convert}
use datuplet.Format.Build.{parse-Clean}
use datuplet.Format.Clean.{ReadsIntegers}
use datuplet.Format.Padded.{padded_null-rejected, slashed_timestamp-rejected}

abbrev id : Text
id = bytes "id"

abbrev cols : List ColumnDef
cols =
    record { name = id; type = int64; nullable = false; field_id = 5 }
    ∷ record { name = bytes "note"; type = string; nullable = true; field_id = 6 }
    ∷ []

abbrev two_columns : Schema
two_columns = record {
  columns = cols;
  arrow_schema =
      record { name = id; type = arrow_int64; nullable = false; parquet_field_id = some 1 }
      ∷ record {
        name = bytes "note";
        type = arrow_string;
        nullable = true;
        parquet_field_id = some 2;
      }
      ∷ [];
}

parse_data_type-to_string_example : parse_data_type (to_string int64) ≡ int64
parse_data_type-to_string_example = parse_data_type-to_string int64

column_by_name-column_index_example :
    column_by_name two_columns (bytes "note")
    ≡ at_index cols (column_index two_columns (bytes "note"))
column_by_name-column_index_example = column_by_name-column_index two_columns (bytes "note")

column_index-Locates_example : Locates cols (bytes "note") (column_index two_columns (bytes "note"))
column_index-Locates_example = column_index-Locates two_columns (bytes "note")

equal_iff_example : (equal two_columns none ≡ true) ↔ (none ≡ some cols)
equal_iff_example = equal_iff two_columns none

new_schema_from_arrow-new_schema_example :
    (two_columns.columns ≡ cols)
    × (new_schema_from_arrow (some two_columns.arrow_schema)
        ≡ ok (record {
          columns = map without_field_id cols;
          arrow_schema = two_columns.arrow_schema;
        }))
unfolding new_schema to_arrow_type
new_schema_from_arrow-new_schema_example = new_schema_from_arrow-new_schema cols two_columns refl

is_ok-new_schema_example : is_ok (new_schema cols) ≡ true
is_ok-new_schema_example = is_ok-new_schema cols

-- a library whose ParseFloat accepts the integers below 2^1023 and the other numbers of at most 300
-- bytes, and whose time.Parse knows one date
abbrev std : Parsers
std = record {
  parse_float_accepts = λ size s.
      if matches_int s
      then ltb (digits_value 0 (drop_sign s)) (2 ^ 1023)
      else matches_float s && leb (length s) 300;
  time_parse_accepts = λ layout s. layout == bytes "2006-01-02" && s == bytes "2024-05-06";
}

abbrev in_order : Assoc DataType ℕ → List (DataType × ℕ)
in_order m = m

abbrev env : Env
env = record { std = std; variant_accepts = λ s. true; range = in_order }

abbrev people : List (List Text)
people = (bytes "1" ∷ bytes "x" ∷ []) ∷ (bytes "2.5" ∷ [] ∷ []) ∷ []

infer_schema-columns_of_example :
    infer_schema_with_config std in_order (id ∷ bytes "note" ∷ []) people none
    ≡ new_schema (columns_of std (new_type_inferrer none) (id ∷ bytes "note" ∷ []) people)
infer_schema-columns_of_example =
    infer_schema-columns_of std in_order (id ∷ bytes "note" ∷ []) people none (λ t c. refl)

join_all-decide_type_example :
    join_all (int64 ∷ float64 ∷ []) ≡ some (decide_type (int64 ∷ float64 ∷ []))
join_all-decide_type_example =
    join_all-decide_type int64 (float64 ∷ []) (inl refl, (inr (inl refl), tt))

int64_not_timestamp : int64 ≢ timestamp
int64_not_timestamp e = cc

string_not_timestamp : string ≢ timestamp
string_not_timestamp e = cc

std-ReadsIntegers : ReadsIntegers std
unfolding parse_int_accepts
std-ReadsIntegers s whole fits = rw whole (ground (arith, fits))

parse-Clean_example :
    is_ok (
      parse env
        (record { has_header = true; inference_config = none })
        none
        ((id ∷ bytes "note" ∷ []) ∷ (bytes "1" ∷ bytes "x" ∷ []) ∷ []))
    ≡ true
unfolding trim_space infer_trimmed text_beq matches_int matches_float parse_int_accepts
parse-Clean_example =
    parse-Clean env std-ReadsIntegers (λ t c. refl) true id (bytes "note" ∷ [])
      ((bytes "1" ∷ bytes "x" ∷ []) ∷ [])
      (
        (
          (refl, λ e. absurd (int64_not_timestamp e)),
          ((refl, λ e. absurd (string_not_timestamp e)), tt),
        ),
        tt,
      )

padded_null-rejected_example :
    (infer_value_type std (new_type_inferrer none) (bytes " ") ≡ unknown)
    × (append_csv_value env (new_type_inferrer none) int64 (bytes " ")
        ≡ err (cannot_convert int64 []))
unfolding is_null text_beq trim_space
padded_null-rejected_example = padded_null-rejected env (bytes " ") refl refl

-- a time.Parse that knows only the slashed layout
abbrev slash_std : Parsers
slash_std = record {
  parse_float_accepts = λ size s. false;
  time_parse_accepts = λ layout s. layout == bytes "2006/01/02 15:04:05";
}

abbrev slashed : Text
slashed = bytes "2024/05/06 07:08:09"

slashed_timestamp-rejected_example :
    (infer_value_type slash_std (new_type_inferrer none) slashed ≡ timestamp)
    × (append_timestamp_from_string slash_std slashed ≡ err (cannot_convert timestamp slashed))
unfolding is_null text_beq trim_space matches_int matches_float
slashed_timestamp-rejected_example =
    slashed_timestamp-rejected slash_std slashed refl refl refl refl refl refl refl
