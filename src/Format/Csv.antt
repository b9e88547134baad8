-- ===== src/Format/Csv.antt =====
-- pkg/datagateway/format/csv.go: CSVAdapter.Parse, from the records that encoding/csv reads.
use datuplet.Prelude.{
  Assoc, Bool, List, Option, Result, Text, [], bytes, decimal, err, if◌then◌else◌, is_empty, length,
  nat_beq, none, ok, some, ℕ, ◌++◌, ◌+◌, ◌>>=◌, ◌∷◌,
}
use datuplet.Schema.{ColumnDef, DataType, Schema, SchemaError}
use datuplet.Schema.Inference.{
  InferenceConfig, Parsers, TypeInferrer, infer_schema_with_config, is_null, new_type_inferrer,
}
use datuplet.Schema.Inference.Lexing.{trim_space}
use datuplet.Format.Convert.{
  Cell, ConvertError, append_by_type, at_cell, bad_schema, column_mismatch, no_csv_columns, no_data,
  null_cell,
}

-- What CSVAdapter.Parse uses from outside this module: the parsers, the check of a variant's JSON,
-- and the order of `range` over a map.
pub record Env : Type 0 where
  pub std : Parsers
  pub variant_accepts : Text → Bool
  pub range : Assoc DataType ℕ → List (DataType × ℕ)

unfoldable pub append_csv_value : Env → TypeInferrer → DataType → Text → Result ConvertError Cell
append_csv_value env ti data_type value =
    if is_null ti value
    then ok null_cell
    else append_by_type env.std env.variant_accepts data_type (trim_space value)

at_position : ℕ → Text → Result ConvertError Cell → Result ConvertError Cell
at_position row_idx name (ok cell) = ok cell
at_position row_idx name (err e) = err (at_cell row_idx name e)

-- One row of buildRecord: a cell for each column, null where the row is too short; cells beyond the
-- columns are dropped.
unfoldable pub build_row :
    Env → TypeInferrer → ℕ → List ColumnDef → List Text → Result ConvertError (List Cell)
unfolding at_position
build_row env ti row_idx [] row = ok []
build_row env ti row_idx (col ∷ cols) [] = do
  rest ← build_row env ti row_idx cols []
  ok (null_cell ∷ rest)
build_row env ti row_idx (col ∷ cols) (value ∷ row) = do
  cell ← at_position row_idx col.name (append_csv_value env ti col.type value)
  rest ← build_row env ti row_idx cols row
  ok (cell ∷ rest)

unfoldable pub build_rows :
    Env
    → TypeInferrer
    → ℕ
    → List ColumnDef
    → List (List Text)
    → Result ConvertError (List (List Cell))
build_rows env ti row_idx cols [] = ok []
build_rows env ti row_idx cols (row ∷ rows) = do
  cells ← build_row env ti row_idx cols row
  rest ← build_rows env ti (row_idx + 1) cols rows
  ok (cells ∷ rest)

unfoldable pub build_record :
    Env
    → Option InferenceConfig
    → Schema
    → List (List Text)
    → Result ConvertError (List (List Cell))
build_record env config s rows = build_rows env (new_type_inferrer config) 0 s.columns rows

pub record ParseOptions : Type 0 where
  pub has_header : Bool
  pub inference_config : Option InferenceConfig

lift_schema : Result SchemaError Schema → Result ConvertError Schema
lift_schema (ok s) = ok s
lift_schema (err e) = err (bad_schema e)

-- the schema given, or the one inferred; `none` is the nil schema
resolve_schema :
    Env → ParseOptions → Option Schema → List Text → List (List Text) → Result ConvertError Schema
unfolding lift_schema
resolve_schema env opts none headers data_rows =
    lift_schema (infer_schema_with_config env.std env.range headers data_rows opts.inference_config)
resolve_schema env opts (some s) headers data_rows =
    if nat_beq (length headers) (length s.columns)
    then ok s
    else err (column_mismatch (length headers) (length s.columns))

-- Parse once the headers are known
unfoldable pub parse_with_headers :
    Env
    → ParseOptions
    → Option Schema
    → List Text
    → List (List Text)
    → Result ConvertError (List (List Cell) × Schema)
unfolding resolve_schema
parse_with_headers env opts given headers data_rows =
    if is_empty headers then err no_csv_columns else do
      s ← resolve_schema env opts given headers data_rows
      cells ← build_record env opts.inference_config s data_rows
      ok (cells, s)

-- the names col0, col1, … of a file without a header
unfoldable pub default_headers : ℕ → List Text → List Text
unfolding decimal
default_headers i [] = []
default_headers i (cell ∷ cells) =
    (bytes "col" ++ decimal (i + 1) i []) ∷ default_headers (i + 1) cells

unfoldable pub parse :
    Env
    → ParseOptions
    → Option Schema
    → List (List Text)
    → Result ConvertError (List (List Cell) × Schema)
unfolding default_headers
parse env opts given [] = err no_data
parse env opts given (first ∷ records) =
    if opts.has_header
    then parse_with_headers env opts given first records
    else parse_with_headers env opts given (default_headers 0 first) (first ∷ records)
