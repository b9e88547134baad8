-- ===== src/Format/Padded.antt =====
-- Where inference (pkg/datagateway/schema/inference.go) and conversion (pkg/datagateway/format/csv.go and
-- convert.go) read a text differently.
use datuplet.Prelude.{
  Bool, List, Text, [], any, any-append, ap, arith, bytes, contains, err, false, if◌then◌else◌,
  none, refl, text_beq_iff, text_eq, true, ◌&&◌, ◌==◌, ◌||◌, ◌∙◌, ◌∷◌, ◌≡◌,
}
use datuplet.Schema.{DataType, bool, date, float64, int64, string, timestamp, unknown}
use datuplet.Schema.Inference.{
  Parsers, TypeInferrer, default_inference_config, infer_trimmed, infer_value_type, is_null,
  new_type_inferrer,
}
use datuplet.Schema.Inference.Lexing.{matches_float, matches_int, parse_int_accepts, trim_space}
use datuplet.Format.Convert.{
  append_by_type, append_int64_from_string, append_timestamp_from_string, cannot_convert,
  first_layout, timestamp_formats,
}
use datuplet.Format.Csv.{Env, append_csv_value}

abbrev default_inferrer : TypeInferrer
default_inferrer = new_type_inferrer none

contained :
    (p : Text → Bool) (ws : List Text) (v : Text)
    → contains ws v ≡ true
    → any p ws ≡ false
    → p v ≡ false
contained p [] v h k = absurd (cc)
contained p (w ∷ ws) v h k =
    ground (arith, text_beq_iff w v, λ (e : w ≡ v). ap p e, contained p ws v)

-- no word for null reads as a number
null_not_int : (v : Text) → is_null default_inferrer v ≡ true → parse_int_accepts 64 v ≡ false
unfolding is_null parse_int_accepts
null_not_int v h = contained (parse_int_accepts 64) default_inference_config.null_strings v h refl

-- Inference trims a text before it asks whether it is null, conversion asks first: a text that is a
-- null word only once trimmed counts as null for the type of its column, and is then no int64.
pub padded_null-rejected :
    (env : Env) (value : Text)
    → is_null default_inferrer value ≡ false
    → is_null default_inferrer (trim_space value) ≡ true
    → (infer_value_type env.std default_inferrer value ≡ unknown)
      × (append_csv_value env default_inferrer int64 value
          ≡ err (cannot_convert int64 (trim_space value)))
unfolding infer_value_type infer_trimmed append_csv_value append_by_type append_int64_from_string
padded_null-rejected env value h k =
    (ground (arith, k), ground (arith, h, null_not_int (trim_space value) k))

first_layout-none :
    (accepts : Text → Bool) (layouts : List Text)
    → any accepts layouts ≡ false
    → first_layout accepts layouts ≡ none
unfolding first_layout
first_layout-none accepts [] h = refl
first_layout-none accepts (l ∷ ls) h = ground (arith, first_layout-none accepts ls, h)

or_true : (a b : Bool) → b ≡ true → (a || b) ≡ true
or_true a b h = ground (arith, h)

-- the last tests of inferTrimmed, once the earlier ones have failed
infer_timestamp :
    (null true_word false_word int_text float_text stamp day : Bool) (one num : DataType)
    → null ≡ false
    → true_word ≡ false
    → false_word ≡ false
    → int_text ≡ false
    → float_text ≡ false
    → stamp ≡ true
    → (if null
        then unknown
        else if true_word || false_word
        then one
        else if int_text
        then num
        else if float_text
        then float64
        else if stamp
        then timestamp
        else if day
        then date
        else string)
      ≡ timestamp
infer_timestamp null true_word false_word int_text float_text stamp day one num n t f i m h =
    ground (arith, n, t, f, i, m, h)

append_none :
    (std : Parsers) (value : Text)
    → first_layout (λ layout. std.time_parse_accepts layout (trim_space value)) timestamp_formats
      ≡ none
    → append_timestamp_from_string std value ≡ err (cannot_convert timestamp (trim_space value))
unfolding append_timestamp_from_string
append_none std value h = ground (arith, h)

-- Inference knows a layout of timestamps that conversion does not: a text that only this layout
-- accepts, of the ones of conversion and itself, is inferred to be a timestamp and then refused as one.
pub slashed_timestamp-rejected :
    (std : Parsers) (value : Text)
    → is_null default_inferrer (trim_space value) ≡ false
    → contains default_inference_config.bool_true_strings (trim_space value) ≡ false
    → contains default_inference_config.bool_false_strings (trim_space value) ≡ false
    → matches_int (trim_space value) ≡ false
    → matches_float (trim_space value) ≡ false
    → std.time_parse_accepts (bytes "2006/01/02 15:04:05") (trim_space value) ≡ true
    → any (λ layout. std.time_parse_accepts layout (trim_space value)) timestamp_formats ≡ false
    → (infer_value_type std default_inferrer value ≡ timestamp)
      × (append_timestamp_from_string std value ≡ err (cannot_convert timestamp (trim_space value)))
unfolding infer_value_type infer_trimmed
slashed_timestamp-rejected std value n t f i m h k =
    let p : Text → Bool = λ layout. std.time_parse_accepts layout (trim_space value) in
    let slash = bytes "2006/01/02 15:04:05" in
    let last : any p (slash ∷ []) ≡ true = ap (λ b. b || false) h in
    let seen : any p default_inference_config.timestamp_formats ≡ true =
      any-append p timestamp_formats (slash ∷ [])
      ∙ or_true (any p timestamp_formats) (any p (slash ∷ [])) last in
    let refused = first_layout-none p timestamp_formats k in
    let v = trim_space value in
    (
      infer_timestamp (is_null default_inferrer v) (contains default_inferrer.bool_true_set v)
          (contains default_inferrer.bool_false_set v) (matches_int v)
          (matches_float v && std.parse_float_accepts 64 v)
          (any p default_inference_config.timestamp_formats)
          (any p default_inference_config.date_formats)
          (if v == bytes "1" || v == bytes "0" then int64 else bool)
          (if parse_int_accepts 64 v then int64 else string) n t f i
          (ap (λ b. b && std.parse_float_accepts 64 v) m) seen,
      append_none std value refused,
    )
