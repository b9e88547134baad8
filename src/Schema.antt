-- ===== src/Schema.antt =====
-- pkg/datagateway/schema/types.go: the gateway's data types and schemas.
-- Arrow's types are named by their ids; a schema's Arrow form is the list of its fields.
pub mod Names
pub mod Columns
pub mod Inference
use datuplet.Prelude.{
  Bool, Eq, List, Option, Result, Text, [], arith, bytes, err, false, if◌then◌else◌, is_empty,
  length, nat_beq, none, ok, some, text_eq, true, ℕ, ◌&&◌, ◌+◌, ◌==◌, ◌>>=◌, ◌↔◌, ◌∷◌, ◌≡◌,
}

-- The constants in declaration order; `iota` gives each its number.
pub data DataType : Type 0 where
  unknown int64 int32 float64 float32 string bool timestamp date binary variant : DataType

abbrev pub iota : DataType → ℕ
iota unknown = 0
iota int64 = 1
iota int32 = 2
iota float64 = 3
iota float32 = 4
iota string = 5
iota bool = 6
iota timestamp = 7
iota date = 8
iota binary = 9
iota variant = 10

pub iota-injective : (a b : DataType) → (nat_beq (iota a) (iota b) ≡ true) ↔ (a ≡ b)
iota-injective a b = ground arith

instance abbrev pub data_type_eq : Eq DataType
data_type_eq = record { eqb = λ a b. nat_beq (iota a) (iota b); eqb_iff = iota-injective }

-- DataType.String
unfoldable pub to_string : DataType → Text
to_string int64 = bytes "int64"
to_string int32 = bytes "int32"
to_string float64 = bytes "float64"
to_string float32 = bytes "float32"
to_string string = bytes "string"
to_string bool = bytes "bool"
to_string timestamp = bytes "timestamp"
to_string date = bytes "date"
to_string binary = bytes "binary"
to_string variant = bytes "variant"
to_string _ = bytes "unknown"

unfoldable pub parse_data_type : Text → DataType
parse_data_type s =
    if s == bytes "int64"
    then int64
    else if s == bytes "int32"
    then int32
    else if s == bytes "float64"
    then float64
    else if s == bytes "float32"
    then float32
    else if s == bytes "string"
    then string
    else if s == bytes "bool"
    then bool
    else if s == bytes "boolean"
    then bool
    else if s == bytes "timestamp"
    then timestamp
    else if s == bytes "date"
    then date
    else if s == bytes "binary"
    then binary
    else if s == bytes "variant"
    then variant
    else unknown

-- The Arrow types that the source names; `other` is any type it does not.
pub data ArrowType : Type 0 where
  arrow_int64 arrow_int32 arrow_int16 arrow_int8 : ArrowType
  arrow_uint64 arrow_uint32 arrow_uint16 arrow_uint8 : ArrowType
  arrow_float64 arrow_float32 arrow_string arrow_large_string arrow_bool : ArrowType
  arrow_timestamp arrow_date32 arrow_date64 arrow_binary arrow_large_binary : ArrowType
  arrow_variant : ArrowType
  other : ℕ → ArrowType

pub data SchemaError : Type 0 where
  no_columns nil_arrow_schema no_headers no_objects : SchemaError
  unsupported_data_type : DataType → SchemaError
  unsupported_arrow_type : ArrowType → SchemaError
  in_column : Text → SchemaError → SchemaError

unfoldable pub to_arrow_type : DataType → Result SchemaError ArrowType
to_arrow_type int64 = ok arrow_int64
to_arrow_type int32 = ok arrow_int32
to_arrow_type float64 = ok arrow_float64
to_arrow_type float32 = ok arrow_float32
to_arrow_type string = ok arrow_string
to_arrow_type bool = ok arrow_bool
to_arrow_type timestamp = ok arrow_timestamp
to_arrow_type date = ok arrow_date32
to_arrow_type binary = ok arrow_binary
to_arrow_type variant = ok arrow_variant
to_arrow_type unknown = err (unsupported_data_type unknown)

unfoldable pub from_arrow_type : ArrowType → Result SchemaError DataType
from_arrow_type arrow_variant = ok variant
from_arrow_type arrow_int64 = ok int64
from_arrow_type arrow_int32 = ok int32
from_arrow_type arrow_int16 = ok int32
from_arrow_type arrow_int8 = ok int32
from_arrow_type arrow_uint64 = ok int64
from_arrow_type arrow_uint32 = ok int64
from_arrow_type arrow_uint16 = ok int64
from_arrow_type arrow_uint8 = ok int64
from_arrow_type arrow_float64 = ok float64
from_arrow_type arrow_float32 = ok float32
from_arrow_type arrow_string = ok string
from_arrow_type arrow_large_string = ok string
from_arrow_type arrow_bool = ok bool
from_arrow_type arrow_timestamp = ok timestamp
from_arrow_type arrow_date32 = ok date
from_arrow_type arrow_date64 = ok date
from_arrow_type arrow_binary = ok binary
from_arrow_type arrow_large_binary = ok binary
from_arrow_type (other n) = err (unsupported_arrow_type (other n))

-- `field_id` is an int32.
pub record ColumnDef : Type 0 where
  pub name : Text
  pub type : DataType
  pub nullable : Bool
  pub field_id : ℕ

-- An Arrow field; `parquet_field_id` is the metadata entry PARQUET:field_id, absent on a field
-- that carries none.
pub record Field : Type 0 where
  pub name : Text
  pub type : ArrowType
  pub nullable : Bool
  pub parquet_field_id : Option ℕ

pub record Schema : Type 0 where
  pub columns : List ColumnDef
  pub arrow_schema : List Field

in_context : {A : Type 0} → Text → Result SchemaError A → Result SchemaError A
in_context name (ok a) = ok a
in_context name (err e) = err (in_column name e)

-- the loop of NewSchema, from index `i`
unfoldable pub fields_from : ℕ → List ColumnDef → Result SchemaError (List Field)
unfolding in_context
fields_from i [] = ok []
fields_from i (col ∷ cols) = do
  arrow_type ← in_context col.name (to_arrow_type col.type)
  rest ← fields_from (i + 1) cols
  ok (
      record {
        name = col.name;
        type = arrow_type;
        nullable = col.nullable;
        parquet_field_id = some (i + 1);
      }
      ∷ rest)

unfoldable pub new_schema : List ColumnDef → Result SchemaError Schema
unfolding fields_from
new_schema columns =
    if is_empty columns
    then err no_columns
    else do fields ← fields_from 0 columns; ok (record { columns = columns; arrow_schema = fields })

-- the loop of NewSchemaFromArrow; a column made there keeps the zero FieldID
unfoldable pub columns_from : List Field → Result SchemaError (List ColumnDef)
unfolding in_context
columns_from [] = ok []
columns_from (field ∷ fields) = do
  data_type ← in_context field.name (from_arrow_type field.type)
  rest ← columns_from fields
  ok (
      record { name = field.name; type = data_type; nullable = field.nullable; field_id = 0 }
      ∷ rest)

-- `none` is the nil *arrow.Schema
unfoldable pub new_schema_from_arrow : Option (List Field) → Result SchemaError Schema
unfolding columns_from
new_schema_from_arrow none = err nil_arrow_schema
new_schema_from_arrow (some fields) = do
  columns ← columns_from fields
  ok (record { columns = columns; arrow_schema = fields })

find_column : List ColumnDef → Text → Option ColumnDef
find_column [] name = none
find_column (c ∷ cs) name = if c.name == name then some c else find_column cs name

-- `none` is the nil pointer
unfoldable pub column_by_name : Schema → Text → Option ColumnDef
unfolding find_column
column_by_name s name = find_column s.columns name

find_index : ℕ → List ColumnDef → Text → Option ℕ
find_index i [] name = none
find_index i (c ∷ cs) name = if c.name == name then some i else find_index (i + 1) cs name

-- `none` is the -1 of the source
unfoldable pub column_index : Schema → Text → Option ℕ
unfolding find_index
column_index s name = find_index 0 s.columns name

bool_beq : Bool → Bool → Bool
bool_beq true b = b
bool_beq false true = false
bool_beq false false = true

-- Go's `==` on the struct
unfoldable pub column_beq : ColumnDef → ColumnDef → Bool
unfolding bool_beq
column_beq a b =
    a.name == b.name
    && (a.type == b.type)
    && bool_beq a.nullable b.nullable
    && nat_beq a.field_id b.field_id

-- the loop of Equal, entered only at equal lengths
all_equal : List ColumnDef → List ColumnDef → Bool
unfolding column_beq
all_equal (c ∷ cs) (d ∷ ds) = let rest = all_equal cs ds in if column_beq c d then rest else false
all_equal _ _ = true

-- `none` is a nil schema
unfoldable pub equal : Schema → Option Schema → Bool
unfolding all_equal
equal s none = false
equal s (some t) =
    if nat_beq (length s.columns) (length t.columns) then all_equal s.columns t.columns else false
