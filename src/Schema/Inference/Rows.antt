-- ===== src/Schema/Inference/Rows.antt =====
-- InferSchemaWithConfig goes row by row over all the columns; the specification goes column by
-- column over all the rows.
use mathlib.Core.List.{append-nil}
use datuplet.Prelude.{
  All, Assoc, Bool-cases, List, Option, Text, [], any, ap, arith, count, err, if◌then◌else◌, inl,
  inr, is_empty, length, length-append, lookup, map, nat_beq, nat_eq, refl, subst, sym, ℕ, ◌++◌,
  ◌+◌, ◌==◌, ◌||◌, ◌∙◌, ◌∷◌, ◌≡◌, ◌⊎◌,
}
use datuplet.Schema.{ColumnDef, DataType, data_type_eq, new_schema, no_headers, unknown}
use datuplet.Schema.Inference.{
  ColumnInferenceState, InferenceConfig, Parsers, TypeInferrer, count_type,
  infer_schema_with_config, infer_value_type, initial_state, is_null, new_type_inferrer,
  process_cell, process_row, process_rows, resolve_column_type, resolved_column,
}
use datuplet.Schema.Inference.Join.{IsInferable, infer_value_type-IsInferable}
use datuplet.Schema.Inference.Tally.{
  Tallies, Tallies-same, VisitsSingle, column_type, count_type-Tallies, known_if_inferable,
  resolve_column_type-join-All,
}

-- The first cell of each row that has one, and the rows without it.
unfoldable pub heads : List (List Text) → List Text
heads [] = []
heads ([] ∷ rows) = heads rows
heads ((value ∷ row) ∷ rows) = value ∷ heads rows

unfoldable pub tails : List (List Text) → List (List Text)
tails [] = []
tails ([] ∷ rows) = [] ∷ tails rows
tails ((value ∷ row) ∷ rows) = row ∷ tails rows

abbrev pub known_types : DataType → List DataType
known_types t = if t == unknown then [] else t ∷ []

known_types-Tallies :
    {st : ColumnInferenceState} {ts : List DataType} (t : DataType)
    → (t ≡ unknown) ⊎ IsInferable t
    → Tallies st ts
    → Tallies (count_type st t) (known_types t ++ ts)
known_types-Tallies {st} {ts} t (inl e) inv =
    subst (λ u. Tallies (count_type st u) (known_types u ++ ts)) (sym e) (unfold count_type in inv)
known_types-Tallies {st} {ts} t (inr h) inv =
    rw (known_if_inferable t h) (count_type-Tallies t h inv)

count-append : (ts us : List DataType) (t : DataType) → count (ts ++ us) t ≡ count ts t + count us t
count-append [] us t = omega arith
count-append (u ∷ ts) us t = omega (arith, count-append ts us t)

All-append :
    (ts us : List DataType) → All IsInferable ts → All IsInferable us → All IsInferable (ts ++ us)
All-append [] us h k = k
All-append (t ∷ ts) us h k = (h.0, All-append ts us h.1 k)

initial_Tallies : {name : Text} → Tallies (initial_state name) []
unfolding lookup
initial_Tallies = record { counted = λ t. refl; keys = refl; total = refl }

zero_length : (ts : List DataType) → nat_beq (length ts) 0 ≡ is_empty ts
zero_length [] = refl
zero_length (t ∷ ts) = ground arith

module _ (std : Parsers) (ti : TypeInferrer) where
  abbrev pub cell_types : Text → List DataType
  cell_types value = if is_null ti value then [] else known_types (infer_value_type std ti value)

  -- The types of a column's values: its cells that are not null, but for those that are null once
  -- trimmed.
  unfoldable pub value_types : List Text → List DataType
  value_types [] = []
  value_types (value ∷ values) = cell_types value ++ value_types values

  unfoldable pub column_of : Text → List Text → ColumnDef
  column_of name values = record {
    name = name;
    type = column_type (value_types values);
    nullable = any (is_null ti) values || is_empty (value_types values);
    field_id = 0;
  }

  unfoldable pub columns_of : List Text → List (List Text) → List ColumnDef
  columns_of [] rows = []
  columns_of (h ∷ hs) rows = column_of h (heads rows) ∷ columns_of hs (tails rows)

  process_column : ColumnInferenceState → List Text → ColumnInferenceState
  process_column st [] = st
  process_column st (value ∷ values) = process_column (process_cell std ti st value) values

  process_row-nil : (sts : List ColumnInferenceState) → process_row std ti sts [] ≡ sts
  unfolding process_row
  process_row-nil [] = refl
  process_row-nil (st ∷ sts) = refl

  process_rows-nil : (rows : List (List Text)) → process_rows std ti [] rows ≡ []
  unfolding process_rows
  process_rows-nil [] = refl
  process_rows-nil (row ∷ rows) = process_rows-nil rows

  process_rows-cons :
      (st : ColumnInferenceState) (sts : List ColumnInferenceState) (rows : List (List Text))
      → process_rows std ti (st ∷ sts) rows
        ≡ process_column st (heads rows) ∷ process_rows std ti sts (tails rows)
  unfolding process_rows process_row heads tails process_column
  process_rows-cons st sts [] = refl
  process_rows-cons st sts ([] ∷ rows) =
      process_rows-cons st sts rows
      ∙ ap (λ s. process_column st (heads rows) ∷ process_rows std ti s (tails rows))
          (sym (process_row-nil sts))
  process_rows-cons st sts ((value ∷ row) ∷ rows) =
      process_rows-cons (process_cell std ti st value) (process_row std ti sts row) rows

  cell_types-IsInferable : (value : Text) → All IsInferable (cell_types value)
  cell_types-IsInferable value = ground (arith, infer_value_type-IsInferable std ti value)

  process_cell-Tallies :
      (st : ColumnInferenceState) (ts : List DataType) (value : Text)
      → Tallies st ts
      → Tallies (process_cell std ti st value) (cell_types value ++ ts)
  unfolding process_cell
  process_cell-Tallies st ts value inv = elim (Bool-cases (is_null ti value)) [
    | inl null ↦ rw null (record { counted = inv.counted; keys = inv.keys; total = inv.total })
    | inr cell ↦ rw cell (
        known_types-Tallies (infer_value_type std ti value)
          (infer_value_type-IsInferable std ti value) inv)
  ]

  process_column-Tallies :
      (st : ColumnInferenceState) (ts : List DataType) (values : List Text)
      → Tallies st ts
      → Tallies (process_column st values) (ts ++ value_types values)
  unfolding process_column value_types
  process_column-Tallies st ts [] inv = rw append-nil inv
  process_column-Tallies st ts (value ∷ values) inv =
      Tallies-same ((cell_types value ++ ts) ++ value_types values)
        (ts ++ (cell_types value ++ value_types values)) (λ t. omega (arith, count-append))
        (omega (arith, length-append {0}))
        (process_column-Tallies (process_cell std ti st value) (cell_types value ++ ts) values
          (process_cell-Tallies st ts value inv))

  pub value_types-IsInferable : (values : List Text) → All IsInferable (value_types values)
  unfolding value_types
  value_types-IsInferable [] = tt
  value_types-IsInferable (value ∷ values) =
      All-append (cell_types value) (value_types values) (cell_types-IsInferable value)
        (value_types-IsInferable values)

  has_null-process_column :
      (st : ColumnInferenceState) (values : List Text)
      → (process_column st values).has_null ≡ (st.has_null || any (is_null ti) values)
  unfolding process_column process_cell count_type
  has_null-process_column st [] = ground arith
  has_null-process_column st (value ∷ values) =
      ground (arith, has_null-process_column (process_cell std ti st value) values)

  name-process_column :
      (st : ColumnInferenceState) (values : List Text) → (process_column st values).name ≡ st.name
  unfolding process_column process_cell count_type
  name-process_column st [] = refl
  name-process_column st (value ∷ values) =
      ground (arith, name-process_column (process_cell std ti st value) values)

  -- a column as the specification has it, and as the code resolves it
  resolved_column-column_of :
      (range : Assoc DataType ℕ → List (DataType × ℕ)) (name : Text) (values : List Text)
      → VisitsSingle range
      → resolved_column range (process_column (initial_state name) values) ≡ column_of name values
  unfolding resolved_column column_of
  resolved_column-column_of range name values visits =
      let st = process_column (initial_state name) values in
      let inv : Tallies st (value_types values) =
        process_column-Tallies (initial_state name) [] values initial_Tallies in
      let typed : resolve_column_type range st ≡ column_type (value_types values) =
        resolve_column_type-join-All range st (value_types values) visits inv
          (value_types-IsInferable values) in
      let null : st.has_null ≡ any (is_null ti) values =
        has_null-process_column (initial_state name) values in
      ground (
        arith,
        typed,
        null,
        inv.total,
        name-process_column (initial_state name) values,
        zero_length (value_types values),
      )

  resolved-columns_of :
      (range : Assoc DataType ℕ → List (DataType × ℕ)) (headers : List Text)
      (rows : List (List Text))
      → VisitsSingle range
      → map (resolved_column range) (process_rows std ti (map initial_state headers) rows)
        ≡ columns_of headers rows
  unfolding columns_of
  resolved-columns_of range [] rows visits = rw process_rows-nil
  resolved-columns_of range (h ∷ hs) rows visits =
      rw
        (
          process_rows-cons (initial_state h) (map initial_state hs) rows,
          resolved_column-column_of range h (heads rows) visits,
        )
        (ap (λ cs. column_of h (heads rows) ∷ cs)
          (resolved-columns_of range hs (tails rows) visits))

-- InferSchema builds the schema whose columns are named by the headers in order, each with the join
-- of the types of its own cells, and nullable exactly if it has a null cell or no typed value,
-- whatever the order of `range`; without headers it fails.
pub infer_schema-columns_of :
    (std : Parsers) (range : Assoc DataType ℕ → List (DataType × ℕ)) (headers : List Text)
    (rows : List (List Text)) (config : Option InferenceConfig)
    → VisitsSingle range
    → infer_schema_with_config std range headers rows config ≡ (
        if is_empty headers
        then err no_headers
        else new_schema (columns_of std (new_type_inferrer config) headers rows))
unfolding infer_schema_with_config
infer_schema-columns_of std range headers rows config visits =
    rw (resolved-columns_of std (new_type_inferrer config) range headers rows visits)
