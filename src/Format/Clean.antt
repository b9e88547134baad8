-- ===== src/Format/Clean.antt =====
-- When the CSV adapter can build the record of the schema that it inferred from the same rows.
use datuplet.Prelude.{
  All, Bool, Bool-cases, List, Option, Text, [], any, arith, bytes, contains, err, inl, inr, is_ok,
  is_some, none, ok, refl, some, subst, sym, text_beq, text_beq_iff, text_eq, true, ◌&&◌, ◌++◌,
  ◌==◌, ◌||◌, ◌∙◌, ◌∷◌, ◌≡◌,
}
use datuplet.Schema.{DataType, bool, data_type_eq, date, float64, int64, string, timestamp, unknown}
use datuplet.Schema.Inference.{
  Parsers, TypeInferrer, default_inference_config, infer_trimmed, is_null, new_type_inferrer,
}
use datuplet.Schema.Inference.Lexing.{matches_float, matches_int, parse_int_accepts, trim_space}
use datuplet.Schema.Inference.Join.{IsInferable}
use datuplet.Format.Widens.{Widens}
use datuplet.Format.Ladder.{classify-bool, classify-date, classify-float64, classify-unknown}
use datuplet.Format.Csv.{Env}
use datuplet.Format.Convert.{
  Cell, ConvertError, append_bool_from_string, append_by_type, append_date_from_string,
  append_float64_from_string, append_int64_from_string, append_timestamp_from_string,
  cannot_convert, date_cell, date_formats, first_layout, timestamp_cell, timestamp_formats,
}

-- strconv.ParseFloat(s, 64) accepts the decimal integers that ParseInt(s, 10, 64) accepts, which are
-- far below its range.
abbrev pub ReadsIntegers : Parsers → Type 0
ReadsIntegers std =
    (s : Text)
    → matches_int s ≡ true
    → parse_int_accepts 64 s ≡ true
    → std.parse_float_accepts 64 s ≡ true

first_layout-any :
    (accepts : Text → Bool) (layouts : List Text)
    → is_some (first_layout accepts layouts) ≡ any accepts layouts
unfolding first_layout
first_layout-any accepts [] = refl
first_layout-any accepts (l ∷ ls) = ground (arith, first_layout-any accepts ls)

contains-All :
    (P : Text → Type 0) (words : List Text) (v : Text) → All P words → contains words v ≡ true → P v
contains-All P [] v ps h = cc
contains-All P (w ∷ words) v ps h = elim (Bool-cases (w == v)) [
  | inl same ↦ subst P ((text_beq_iff w v).0 same) ps.0
  | inr differs ↦ contains-All P words v ps.1 (ground arith)
]

abbrev ReadsAsBool : Text → Type 0
ReadsAsBool v = is_ok (append_bool_from_string v) ≡ true

default_words_read :
    All ReadsAsBool
      (default_inference_config.bool_true_strings ++ default_inference_config.bool_false_strings)
unfolding append_bool_from_string trim_space text_beq
default_words_read = (
  refl,
  (
    refl,
    (
      refl,
      (
        refl,
        (
          refl,
          (
            refl,
            (
              refl,
              (
                refl,
                (refl, (refl, (refl, (refl, (refl, (refl, (refl, (refl, (refl, (refl, tt)))))))))),
              ),
            ),
          ),
        ),
      ),
    ),
  ),
)

contains-append :
    (xs ys : List Text) (v : Text) → contains (xs ++ ys) v ≡ (contains xs v || contains ys v)
contains-append [] ys v = refl
contains-append (x ∷ xs) ys v = ground (arith, contains-append xs ys v)

one_or_zero :
    (v : Text)
    → ((v == bytes "1") || (v == bytes "0")) ≡ true
    → (matches_int v ≡ true) × (parse_int_accepts 64 v ≡ true)
unfolding matches_int parse_int_accepts
one_or_zero v h = elim (Bool-cases (v == bytes "1")) [
  | inl one ↦
      subst (λ w. (matches_int w ≡ true) × (parse_int_accepts 64 w ≡ true))
        (sym ((text_beq_iff v (bytes "1")).0 one)) (refl, refl)
  | inr more ↦
      subst (λ w. (matches_int w ≡ true) × (parse_int_accepts 64 w ≡ true))
        (sym ((text_beq_iff v (bytes "0")).0 (ground arith))) (refl, refl)
]

and_right : (a b : Bool) → (a && b) ≡ true → b ≡ true
and_right a b h = ground arith

found_layout :
    (o : Option Text) (mk : Text → Cell) (e : ConvertError)
    → is_some o ≡ true
    → is_ok {A = Cell} (elim o [ some l ↦ ok (mk l) | none ↦ err e ]) ≡ true
found_layout none mk e h = cc
found_layout (some l) mk e h = refl

abbrev pub default_inferrer : TypeInferrer
default_inferrer = new_type_inferrer none

module _ (env : Env) where
  -- A trimmed value, not null, goes into a column of the type.
  unfoldable pub Accepted : DataType → Text → Type 0
  Accepted c v = is_ok (append_by_type env.std env.variant_accepts c v) ≡ true

  -- A value inferred as a timestamp is read by a layout that conversion tries, so it is none by
  -- 2006/01/02 15:04:05 alone.
  abbrev pub Readable : Text → Type 0
  Readable v =
      infer_trimmed env.std default_inferrer v ≡ timestamp
      → any (λ layout. env.std.time_parse_accepts layout v) timestamp_formats ≡ true

module _ (env : Env) (reads : ReadsIntegers env.std) where
  abbrev ti : TypeInferrer
  ti = default_inferrer

  int64_accepted :
      (v : Text)
      → infer_trimmed env.std ti v ≡ int64
      → (parse_int_accepts 64 v ≡ true) × (env.std.parse_float_accepts 64 v ≡ true)
  unfolding infer_trimmed
  int64_accepted v h = ground (arith, one_or_zero v, reads v)

  pub unknown_null : (v : Text) → infer_trimmed env.std ti v ≡ unknown → is_null ti v ≡ true
  unfolding infer_trimmed
  unknown_null v h =
      classify-unknown (is_null ti v) (contains ti.bool_true_set v || contains ti.bool_false_set v)
        (v == bytes "1" || v == bytes "0") (matches_int v) (parse_int_accepts 64 v)
        (matches_float v && env.std.parse_float_accepts 64 v)
        (any (λ format. env.std.time_parse_accepts format v) ti.config.timestamp_formats)
        (any (λ format. env.std.time_parse_accepts format v) ti.config.date_formats) h

  float64_accepted :
      (v : Text) → infer_trimmed env.std ti v ≡ float64 → env.std.parse_float_accepts 64 v ≡ true
  unfolding infer_trimmed
  float64_accepted v h = and_right (matches_float v) (env.std.parse_float_accepts 64 v) (
      classify-float64 (is_null ti v) (contains ti.bool_true_set v || contains ti.bool_false_set v)
        (v == bytes "1" || v == bytes "0") (matches_int v) (parse_int_accepts 64 v)
        (matches_float v && env.std.parse_float_accepts 64 v)
        (any (λ format. env.std.time_parse_accepts format v) ti.config.timestamp_formats)
        (any (λ format. env.std.time_parse_accepts format v) ti.config.date_formats) h)

  bool_accepted : (v : Text) → infer_trimmed env.std ti v ≡ bool → ReadsAsBool v
  unfolding infer_trimmed
  bool_accepted v h =
      contains-All ReadsAsBool (ti.bool_true_set ++ ti.bool_false_set) v default_words_read (
        contains-append ti.bool_true_set ti.bool_false_set v
        ∙ classify-bool (is_null ti v) (contains ti.bool_true_set v || contains ti.bool_false_set v)
            (v == bytes "1" || v == bytes "0") (matches_int v) (parse_int_accepts 64 v)
            (matches_float v && env.std.parse_float_accepts 64 v)
            (any (λ format. env.std.time_parse_accepts format v) ti.config.timestamp_formats)
            (any (λ format. env.std.time_parse_accepts format v) ti.config.date_formats) h)

  date_layouts :
      (v : Text)
      → infer_trimmed env.std ti v ≡ date
      → any (λ layout. env.std.time_parse_accepts layout v) date_formats ≡ true
  unfolding infer_trimmed
  date_layouts v h =
      classify-date (is_null ti v) (contains ti.bool_true_set v || contains ti.bool_false_set v)
        (v == bytes "1" || v == bytes "0") (matches_int v) (parse_int_accepts 64 v)
        (matches_float v && env.std.parse_float_accepts 64 v)
        (any (λ format. env.std.time_parse_accepts format v) ti.config.timestamp_formats)
        (any (λ format. env.std.time_parse_accepts format v) ti.config.date_formats) h

  timestamp-Accepted :
      (v : Text)
      → trim_space v ≡ v
      → any (λ layout. env.std.time_parse_accepts layout v) timestamp_formats ≡ true
      → Accepted env timestamp v
  unfolding append_by_type append_timestamp_from_string Accepted
  timestamp-Accepted v trimmed h =
      found_layout
        (first_layout (λ layout. env.std.time_parse_accepts layout (trim_space v))
          timestamp_formats)
        (λ l. timestamp_cell l (trim_space v)) (cannot_convert timestamp (trim_space v))
        (first_layout-any (λ layout. env.std.time_parse_accepts layout (trim_space v))
            timestamp_formats
          ∙ subst
              (λ w. any (λ layout. env.std.time_parse_accepts layout w) timestamp_formats ≡ true)
              (sym trimmed) h)

  date-Accepted :
      (v : Text)
      → trim_space v ≡ v
      → any (λ layout. env.std.time_parse_accepts layout v) date_formats ≡ true
      → Accepted env date v
  unfolding append_by_type append_date_from_string Accepted
  date-Accepted v trimmed h =
      found_layout
        (first_layout (λ layout. env.std.time_parse_accepts layout (trim_space v)) date_formats)
        (λ l. date_cell l (trim_space v)) (cannot_convert date (trim_space v))
        (first_layout-any (λ layout. env.std.time_parse_accepts layout (trim_space v)) date_formats
          ∙ subst (λ w. any (λ layout. env.std.time_parse_accepts layout w) date_formats ≡ true)
              (sym trimmed) h)

  own_type-Accepted :
      (t : DataType) (v : Text)
      → infer_trimmed env.std ti v ≡ t
      → IsInferable t
      → trim_space v ≡ v
      → Readable env v
      → Accepted env t v
  unfolding Accepted append_by_type append_int64_from_string append_float64_from_string
  own_type-Accepted int64 v e h trimmed readable = rw ((int64_accepted v e).0)
  own_type-Accepted float64 v e h trimmed readable = rw (float64_accepted v e)
  own_type-Accepted string v e h trimmed readable = refl
  own_type-Accepted bool v e h trimmed readable = bool_accepted v e
  own_type-Accepted timestamp v e h trimmed readable = timestamp-Accepted v trimmed (readable e)
  own_type-Accepted date v e h trimmed readable = date-Accepted v trimmed (date_layouts v e)
  own_type-Accepted _ v e h trimmed readable = absurd (ground (arith, h))

  pub widened-Accepted :
      (t c : DataType) (v : Text)
      → infer_trimmed env.std ti v ≡ t
      → IsInferable t
      → Widens t c
      → trim_space v ≡ v
      → Readable env v
      → Accepted env c v
  unfolding Accepted append_by_type append_float64_from_string
  widened-Accepted t c v e h (inl same) trimmed readable =
      subst (λ d. Accepted env d v) (sym same) (own_type-Accepted t v e h trimmed readable)
  widened-Accepted t c v e h (inr (inl text)) trimmed readable = rw text
  widened-Accepted t c v e h (inr (inr (whole, wide))) trimmed readable =
      rw (wide, (int64_accepted v (e ∙ whole)).1)
