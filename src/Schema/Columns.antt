-- ===== src/Schema/Columns.antt =====
-- NewSchema, NewSchemaFromArrow, the lookups and Equal (types.go).
use datuplet.Prelude.{
  Bool, Bool-cases, List, Option, Option-cases, Result-cases, Text, [], all, ap, arith, contains,
  count, false, get_elem?, inl, inr, is_empty, is_ok, length, map, nat_beq, nat_beq_iff, none, not,
  ok, refl, some, suc, take, text_beq_iff, text_eq, true, zero, ℕ, ◌&&◌, ◌+◌, ◌==◌, ◌↔◌, ◌∷◌, ◌≡◌,
}
use mathlib.Core.Option
use datuplet.Schema.Names.{from_arrow_type-to_arrow_type}
use datuplet.Schema.{
  ColumnDef, Field, Schema, all_equal, bool_beq, column_beq, column_by_name, column_index,
  columns_from, data_type_eq, equal, fields_from, find_column, find_index, iota-injective,
  new_schema, new_schema_from_arrow, to_arrow_type, unknown,
}

-- What an Arrow field keeps of its column: all but the FieldID.
abbrev pub without_field_id : ColumnDef → ColumnDef
without_field_id c = record c { field_id = 0 }

columns_from-fields_from :
    (i : ℕ) (cols : List ColumnDef) (fields : List Field)
    → fields_from i cols ≡ ok fields
    → columns_from fields ≡ ok (map without_field_id cols)
unfolding fields_from columns_from
columns_from-fields_from i [] fields h = ground arith
columns_from-fields_from i (c ∷ cols) fields h = elim (Result-cases (to_arrow_type c.type)) [
  | inl (a, typed) ↦ elim (Result-cases (fields_from (i + 1) cols)) [
    | inl (rest, more) ↦ ground (
      arith,
      from_arrow_type-to_arrow_type c.type a typed,
      columns_from-fields_from (i + 1) cols rest more,
    )
    | inr (e, failed) ↦ ground arith
  ]
  | inr (e, failed) ↦ ground arith
]

-- A schema built from columns keeps them in order, and reading its Arrow form back gives the same
-- columns with the FieldID reset to 0.
pub new_schema_from_arrow-new_schema :
    (cols : List ColumnDef) (s : Schema)
    → new_schema cols ≡ ok s
    → (s.columns ≡ cols)
      × (new_schema_from_arrow (some s.arrow_schema)
          ≡ ok (record { columns = map without_field_id cols; arrow_schema = s.arrow_schema }))
unfolding new_schema new_schema_from_arrow
new_schema_from_arrow-new_schema [] s h = cc
new_schema_from_arrow-new_schema (c ∷ cols) s h = elim (Result-cases (fields_from 0 (c ∷ cols))) [
  | inl (fields, made) ↦ ground (arith, columns_from-fields_from 0 (c ∷ cols) fields made)
  | inr (e, failed) ↦ ground arith
]

-- The columns of a schema that can be built: at least one, and each of a known type.
abbrev pub has_known_type : ColumnDef → Bool
has_known_type c = not (c.type == unknown)

is_ok-fields_from :
    (i : ℕ) (cols : List ColumnDef) → is_ok (fields_from i cols) ≡ all has_known_type cols
unfolding fields_from to_arrow_type
is_ok-fields_from i [] = refl
is_ok-fields_from i (c ∷ cols) = ground (arith, is_ok-fields_from (i + 1) cols)

-- NewSchema succeeds exactly on a non-empty list of columns that are all of a known type.
pub is_ok-new_schema :
    (cols : List ColumnDef)
    → is_ok (new_schema cols) ≡ (not (is_empty cols) && all has_known_type cols)
unfolding new_schema
is_ok-new_schema [] = refl
is_ok-new_schema (c ∷ cols) = ground (arith, is_ok-fields_from 0 (c ∷ cols))

-- The entry at an optional index.
abbrev pub at_index : List ColumnDef → Option ℕ → Option ColumnDef
at_index cs none = none
at_index cs (some i) = get_elem? cs i

-- the number of columns before index `i`, counted from `k`
abbrev shift : ℕ → Option ℕ → Option ℕ
shift k none = none
shift k (some i) = some (k + i)

find_index-shift :
    (i : ℕ) (cs : List ColumnDef) (name : Text)
    → find_index i cs name ≡ shift i (find_index 0 cs name)
unfolding find_index
find_index-shift i [] name = refl
find_index-shift i (c ∷ cs) name =
    ground (arith, find_index-shift (i + 1) cs name, find_index-shift 1 cs name)

find_column-find_index :
    (cs : List ColumnDef) (name : Text) → find_column cs name ≡ at_index cs (find_index 0 cs name)
unfolding find_index find_column
find_column-find_index [] name = refl
find_column-find_index (c ∷ cs) name =
    ground (arith, find_index-shift 1 cs name, find_column-find_index cs name)

-- The two lookups agree: ColumnByName returns the column at ColumnIndex, and nil where that is -1.
pub column_by_name-column_index :
    (s : Schema) (name : Text) → column_by_name s name ≡ at_index s.columns (column_index s name)
unfolding column_by_name column_index
column_by_name-column_index s name = find_column-find_index s.columns name

-- how many of the first `n` columns bear the name
abbrev pub named_before : ℕ → List ColumnDef → Text → ℕ
named_before n cs name = count (map (λ c. c.name) (take n cs)) name

abbrev pub IsFirstNamed : List ColumnDef → Text → ℕ → Type 0
IsFirstNamed cs name i =
    (c : ColumnDef) × (get_elem? cs i ≡ some c) × (c.name ≡ name) × (named_before i cs name ≡ 0)

find_index-IsFirstNamed :
    (cs : List ColumnDef) (name : Text) (i : ℕ)
    → find_index 0 cs name ≡ some i
    → IsFirstNamed cs name i
unfolding find_index
find_index-IsFirstNamed [] name i h = cc
find_index-IsFirstNamed (c ∷ cs) name zero h =
    (c, refl, ground (arith, text_beq_iff c.name name, find_index-shift 1 cs name), refl)
find_index-IsFirstNamed (c ∷ cs) name (suc i) h = elim (Bool-cases (c.name == name)) [
  | inl same ↦ absurd (ground (arith, same))
  | inr differs ↦
      let (found, at, named, before) =
        find_index-IsFirstNamed cs name i (ground (arith, find_index-shift 1 cs name)) in
      (found, at, named, rw differs (omega (arith, before)))
]

find_index-none :
    (cs : List ColumnDef) (name : Text)
    → find_index 0 cs name ≡ none
    → contains (map (λ (c : ColumnDef). c.name) cs) name ≡ false
unfolding find_index
find_index-none [] name h = refl
find_index-none (c ∷ cs) name h =
    ground (arith, find_index-shift 1 cs name, find_index-none cs name)

abbrev pub Locates : List ColumnDef → Text → Option ℕ → Type 0
Locates cs name none = contains (map (λ (c : ColumnDef). c.name) cs) name ≡ false
Locates cs name (some i) = IsFirstNamed cs name i

-- ColumnIndex returns the index of the first column of the name, with no earlier column of that
-- name, and -1 only where no column has it.
pub column_index-Locates : (s : Schema) (name : Text) → Locates s.columns name (column_index s name)
unfolding column_index
column_index-Locates s name = elim (Option-cases (find_index 0 s.columns name)) [
  | inl missing ↦ rw missing (find_index-none s.columns name missing)
  | inr (i, found) ↦ rw found (find_index-IsFirstNamed s.columns name i found)
]

column_beq_iff : (a b : ColumnDef) → (column_beq a b ≡ true) ↔ (a ≡ b)
unfolding column_beq bool_beq
column_beq_iff a b = ground (arith, text_beq_iff a.name b.name, iota-injective a.type b.type)

all_equal_iff :
    (cs ds : List ColumnDef) → length cs ≡ length ds → (all_equal cs ds ≡ true) ↔ (cs ≡ ds)
unfolding all_equal
all_equal_iff [] [] h = ground arith
all_equal_iff [] (d ∷ ds) h = absurd (omega arith)
all_equal_iff (c ∷ cs) [] h = absurd (omega arith)
all_equal_iff (c ∷ cs) (d ∷ ds) h =
    ground (arith, column_beq_iff c d, all_equal_iff cs ds (omega arith))

-- Equal holds exactly of a schema with the same columns, whatever the Arrow form, and never of nil.
pub equal_iff :
    (s : Schema) (against : Option Schema)
    → (equal s against ≡ true) ↔ (Option.map (λ (t : Schema). t.columns) against ≡ some s.columns)
unfolding equal
equal_iff s none = ground arith
equal_iff s (some t) = elim (Bool-cases (nat_beq (length s.columns) (length t.columns))) [
  | inl same ↦
      rw same (ground (arith, all_equal_iff s.columns t.columns ((nat_beq_iff _ _).0 same)))
  | inr differs ↦ rw differs (ground (arith, λ (e : t.columns ≡ s.columns). ap length e))
]
