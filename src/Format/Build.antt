-- ===== src/Format/Build.antt =====
-- CSVAdapter.Parse (pkg/datagateway/format/csv.go) with no schema given, over the rows it infers from.
use mathlib.Core.List.{Memᴰ}
use datuplet.Prelude.{
  All, Bool, Bool-cases, List, Result, Result-cases, Text, [], all, ap, arith, bytes, decimal, err,
  false, if◌then◌else◌, inl, inr, is_ok, none, ok, refl, subst, sym, text_eq, true, ℕ, ◌++◌, ◌+◌,
  ◌==◌, ◌>>=◌, ◌||◌, ◌∙◌, ◌∷◌, ◌≡◌,
}
use datuplet.Schema.{
  DataType, Schema, bool, data_type_eq, date, float64, int64, new_schema, string, timestamp,
  unknown,
}
use datuplet.Schema.Columns.{has_known_type, is_ok-new_schema, new_schema_from_arrow-new_schema}
use datuplet.Schema.Inference.{infer_trimmed, infer_value_type, is_null}
use datuplet.Schema.Inference.Lexing.{trim_space}
use datuplet.Schema.Inference.Lexing.Trim.{trim_space_idem}
use datuplet.Schema.Inference.Join.{
  IsInferable, decide_bits, infer_value_type-IsInferable, join_all, join_all-decide_type, occurs,
}
use datuplet.Schema.Inference.Tally.{VisitsSingle, column_type}
use datuplet.Schema.Inference.Rows.{
  cell_types, column_of, columns_of, heads, infer_schema-columns_of, tails, value_types,
  value_types-IsInferable,
}
use datuplet.Format.Convert.{Cell, ConvertError}
use datuplet.Format.Csv.{
  Env, append_csv_value, build_record, build_row, build_rows, default_headers, parse,
  parse_with_headers,
}
use datuplet.Format.Clean.{
  Accepted, Readable, ReadsIntegers, default_inferrer, unknown_null, widened-Accepted,
}
use datuplet.Format.Widens.{Widens-column_type}

occurs-append :
    (t : DataType) (ts us : List DataType) → occurs t (ts ++ us) ≡ (occurs t ts || occurs t us)
occurs-append t [] us = refl
occurs-append t (u ∷ ts) us = ground (arith, occurs-append t ts us)

or_true : (a : Bool) {b : Bool} → b ≡ true → (a || b) ≡ true
or_true a h = ground arith

decide_known : (s ts d b f i : Bool) → (decide_bits s ts d b f i == unknown) ≡ false
decide_known s ts d b f i = ground arith

known_column_type : (ts : List DataType) → All IsInferable ts → (column_type ts == unknown) ≡ false
unfolding join_all
known_column_type [] h = refl
known_column_type (t ∷ ts) h = rw (join_all-decide_type t ts h) (
    decide_known (occurs string (t ∷ ts)) (occurs timestamp (t ∷ ts)) (occurs date (t ∷ ts))
      (occurs bool (t ∷ ts)) (occurs float64 (t ∷ ts)) (occurs int64 (t ∷ ts)))

finish :
    (r : Result ConvertError (List (List Cell))) (s : Schema)
    → is_ok r ≡ true
    → is_ok {A = List (List Cell) × Schema} (r >>= λ cells. ok (cells, s)) ≡ true
finish (ok cells) s h = refl
finish (err e) s h = cc

module _ (env : Env) (reads : ReadsIntegers env.std) (visits : VisitsSingle env.range) where
  -- A cell is clean if it is not null only once trimmed, and if a timestamp in it is readable by a
  -- layout that conversion tries.
  abbrev Clean : Text → Type 0
  Clean value =
      (is_null default_inferrer (trim_space value) ≡ is_null default_inferrer value)
      × Readable env (trim_space value)

  known_cell :
      (value : Text)
      → Clean value
      → is_null default_inferrer value ≡ false
      → (infer_value_type env.std default_inferrer value == unknown) ≡ false
  unfolding infer_value_type
  known_cell value clean cell =
      elim (Bool-cases (infer_value_type env.std default_inferrer value == unknown)) [
        | inl missing ↦ cc (
          unknown_null env reads (trim_space value) ((data_type_eq.eqb_iff _ _).0 missing),
          clean.0,
          cell,
        )
        | inr known ↦ known
      ]

  occurs_cell :
      (values : List Text) (value : Text)
      → Memᴰ value values
      → is_null default_inferrer value ≡ false
      → (infer_value_type env.std default_inferrer value == unknown) ≡ false
      → occurs
          (infer_value_type env.std default_inferrer value)
          (value_types env.std default_inferrer values)
        ≡ true
  unfolding value_types
  occurs_cell [] value m cell known = elim m [ ]
  occurs_cell (v ∷ values) value (Memᴰ.head e) cell known =
      subst
        (λ w.
          occurs (infer_value_type env.std default_inferrer value)
            (cell_types env.std default_inferrer w ++ value_types env.std default_inferrer values)
          ≡ true)
        e (rw (cell, known) (ground arith))
  occurs_cell (v ∷ values) value (Memᴰ.tail m) cell known =
      occurs-append (infer_value_type env.std default_inferrer value)
        (cell_types env.std default_inferrer v) (value_types env.std default_inferrer values)
      ∙ or_true _ (occurs_cell values value m cell known)

  inferable_cell :
      (value : Text)
      → Clean value
      → is_null default_inferrer value ≡ false
      → IsInferable (infer_value_type env.std default_inferrer value)
  inferable_cell value clean cell =
      elim (infer_value_type-IsInferable env.std default_inferrer value) [
        | inl missing ↦
            absurd (cc ((data_type_eq.eqb_iff _ _).1 missing, known_cell value clean cell))
        | inr h ↦ h
      ]

  csv_cell :
      (values : List Text) (value : Text)
      → Memᴰ value values
      → Clean value
      → is_ok (
          append_csv_value env default_inferrer
            (column_type (value_types env.std default_inferrer values))
            value)
        ≡ true
  unfolding append_csv_value Accepted infer_value_type
  csv_cell values value m clean = elim (Bool-cases (is_null default_inferrer value)) [
    | inl null ↦ rw null
    | inr cell ↦ rw cell (
        widened-Accepted env reads (infer_trimmed env.std default_inferrer (trim_space value))
          (column_type (value_types env.std default_inferrer values)) (trim_space value) refl
          (inferable_cell value clean cell)
          (Widens-column_type _ (value_types env.std default_inferrer values)
            (inferable_cell value clean cell)
            (value_types-IsInferable env.std default_inferrer values)
            (occurs_cell values value m cell (known_cell value clean cell)))
          (trim_space_idem value) clean.1)
  ]

  row_tail : List Text → List Text
  row_tail [] = []
  row_tail (v ∷ row) = row

  mem-tails :
      (rows : List (List Text)) (row : List Text) → Memᴰ row rows → Memᴰ (row_tail row) (tails rows)
  unfolding tails row_tail
  mem-tails [] row m = elim m [ ]
  mem-tails ([] ∷ rows) row (Memᴰ.head e) = Memᴰ.head (ap row_tail e)
  mem-tails ([] ∷ rows) row (Memᴰ.tail m) = Memᴰ.tail (mem-tails rows row m)
  mem-tails ((v ∷ r) ∷ rows) row (Memᴰ.head e) = Memᴰ.head (ap row_tail e)
  mem-tails ((v ∷ r) ∷ rows) row (Memᴰ.tail m) = Memᴰ.tail (mem-tails rows row m)

  mem-heads :
      (rows : List (List Text)) (v : Text) (row : List Text)
      → Memᴰ (v ∷ row) rows
      → Memᴰ v (heads rows)
  unfolding heads
  mem-heads [] v row m = elim m [ ]
  mem-heads ([] ∷ rows) v row (Memᴰ.head e) = absurd (cc)
  mem-heads ([] ∷ rows) v row (Memᴰ.tail m) = mem-heads rows v row m
  mem-heads ((w ∷ r) ∷ rows) v row (Memᴰ.head e) = Memᴰ.head (cc)
  mem-heads ((w ∷ r) ∷ rows) v row (Memᴰ.tail m) = Memᴰ.tail (mem-heads rows v row m)

  ok_row :
      (k : ℕ) (headers : List Text) (rows : List (List Text)) (row : List Text)
      → Memᴰ row rows
      → All Clean row
      → is_ok
          (build_row env default_inferrer k (columns_of env.std default_inferrer headers rows) row)
        ≡ true
  unfolding build_row columns_of column_of row_tail
  ok_row k [] rows row m clean = refl
  ok_row k (h ∷ hs) rows [] m clean =
      ground (arith, ok_row k hs (tails rows) [] (mem-tails rows [] m) tt)
  ok_row k (h ∷ hs) rows (v ∷ row) m clean = ground (
    arith,
    csv_cell (heads rows) v (mem-heads rows v row m) clean.0,
    ok_row k hs (tails rows) row (mem-tails rows (v ∷ row) m) clean.1,
  )

  ok_rows :
      (k : ℕ) (headers : List Text) (rows part : List (List Text))
      → All (λ (row : List Text). Memᴰ row rows × All Clean row) part
      → is_ok (
          build_rows env default_inferrer k (columns_of env.std default_inferrer headers rows) part)
        ≡ true
  unfolding build_rows
  ok_rows k headers rows [] h = refl
  ok_rows k headers rows (row ∷ part) h =
      ground (arith, ok_row k headers rows row h.0.0 h.0.1, ok_rows (k + 1) headers rows part h.1)

  All-members :
      (rows part : List (List Text))
      → ((row : List Text) → Memᴰ row part → Memᴰ row rows)
      → All (λ (row : List Text). All Clean row) part
      → All (λ (row : List Text). Memᴰ row rows × All Clean row) part
  All-members rows [] within h = tt
  All-members rows (row ∷ part) within h = (
    (within row (Memᴰ.head refl), h.0),
    All-members rows part (λ r m. within r (Memᴰ.tail m)) h.1,
  )

  known_columns :
      (headers : List Text) (rows : List (List Text))
      → all has_known_type (columns_of env.std default_inferrer headers rows) ≡ true
  unfolding columns_of column_of
  known_columns [] rows = refl
  known_columns (h ∷ hs) rows = ground (
    arith,
    known_column_type (value_types env.std default_inferrer (heads rows))
        (value_types-IsInferable env.std default_inferrer (heads rows)),
    known_columns hs (tails rows),
  )

  parse_with_headers-Clean :
      (has_header : Bool) (header : Text) (headers : List Text) (rows : List (List Text))
      → All (λ (row : List Text). All Clean row) rows
      → is_ok (
          parse_with_headers env
            (record { has_header = has_header; inference_config = none })
            none
            (header ∷ headers)
            rows)
        ≡ true
  unfolding parse_with_headers build_record columns_of
  parse_with_headers-Clean has_header header headers rows clean =
      let cols = columns_of env.std default_inferrer (header ∷ headers) rows in
      elim (Result-cases (new_schema cols)) [
        | inl (s, made) ↦
            rw
              (infer_schema-columns_of env.std env.range (header ∷ headers) rows none visits ∙ made)
              (finish (build_record env none s rows) s (
                subst (λ cs. is_ok (build_rows env default_inferrer 0 cs rows) ≡ true)
                  (sym (new_schema_from_arrow-new_schema cols s made).0)
                  (ok_rows 0 (header ∷ headers) rows rows
                    (All-members rows rows (λ row m. m) clean))))
        | inr (e, failed) ↦
            let bad : false ≡ true =
              sym (ap is_ok failed)
              ∙ is_ok-new_schema cols
              ∙ known_columns (header ∷ headers) rows in
            cc bad
      ]

  -- the rows of data, with or without a header
  abbrev pub data_rows : Bool → List Text → List (List Text) → List (List Text)
  data_rows has_header first records = if has_header then records else first ∷ records

  -- On clean rows, Parse with no schema succeeds: every cell of every row converts to the type that
  -- inference gave its column, for the default inference configuration and any order of `range`,
  -- header or not, if ParseFloat accepts the decimal integers
  -- that fit in 64 bits.
  pub parse-Clean :
      (has_header : Bool) (cell : Text) (cells : List Text) (records : List (List Text))
      → All (λ (row : List Text). All Clean row) (data_rows has_header (cell ∷ cells) records)
      → is_ok (
          parse env
            (record { has_header = has_header; inference_config = none })
            none
            ((cell ∷ cells) ∷ records))
        ≡ true
  unfolding parse default_headers
  parse-Clean true cell cells records clean = parse_with_headers-Clean true cell cells records clean
  parse-Clean false cell cells records clean =
      parse_with_headers-Clean false (bytes "col" ++ decimal 1 0 []) (default_headers 1 cells)
        ((cell ∷ cells) ∷ records) clean
