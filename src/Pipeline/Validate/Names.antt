-- ===== src/Pipeline/Validate/Names.antt =====
-- The names and modes that pkg/pipeline/validate/validate.go accepts, and its durations.
use datuplet.Prelude.{
  Bool, Option, Result, Text, [], all, any, bytes, contains, err, false, get_or, if◌then◌else◌,
  is_empty, leb, length, map, nat_beq, nat_eq, none, not, ok, some, text_eq, true, ℕ, ◌&&◌, ◌++◌,
  ◌-◌, ◌==◌, ◌||◌, ◌∷◌,
}
use datuplet.Schema.Inference.Lexing.{parse_int_accepts}
use datuplet.Pipeline.Validate.{text_of}

unfoldable pub is_lower_alnum : ℕ → Bool
is_lower_alnum c = (leb 97 c && leb c 122) || (leb 48 c && leb c 57)

unfoldable pub is_letter : ℕ → Bool
is_letter c = (leb 97 c && leb c 122) || (leb 65 c && leb c 90)

-- the last byte is a letter or digit, the ones before it may be hyphens
unfoldable pub ends_bucket_name : Text → Bool
unfolding is_lower_alnum
ends_bucket_name [] = false
ends_bucket_name (c ∷ []) = is_lower_alnum c
ends_bucket_name (c ∷ d ∷ s) = (is_lower_alnum c || nat_beq c 45) && ends_bucket_name (d ∷ s)

-- ^[a-z0-9][a-z0-9-]{1,61}[a-z0-9]$
unfoldable pub matches_bucket_name : Text → Bool
unfolding ends_bucket_name
matches_bucket_name [] = false
matches_bucket_name (c ∷ s) =
    is_lower_alnum c && (leb 2 (length s) && (leb (length s) 62 && ends_bucket_name s))

-- ^[a-zA-Z_][a-zA-Z0-9_]*$
unfoldable pub matches_table_name : Text → Bool
unfolding is_letter
matches_table_name [] = false
matches_table_name (c ∷ s) =
    (is_letter c || nat_beq c 95)
    && all (λ d. is_letter d || (nat_beq d 95 || (leb 48 d && leb d 57))) s

unfoldable pub bucket_name_error : (Text → Text) → Text → Text
unfolding matches_bucket_name text_of
bucket_name_error quote name =
    if is_empty name
    then bytes "bucket name is required"
    else if contains name 46
    then bytes "bucket name " ++ (quote name ++ bytes " cannot contain dots")
    else if not (matches_bucket_name name)
    then bytes "bucket name "
      ++ (quote name
          ++ bytes " is invalid: must be lowercase alphanumeric with hyphens, 3-63 chars")
    else []

unfoldable pub table_name_error : (Text → Text) → Text → Text
unfolding matches_table_name
table_name_error quote name =
    if is_empty name
    then bytes "table name is required"
    else if not (matches_table_name name)
    then bytes "table name "
      ++ (quote name
          ++ bytes
              " is invalid: must be alphanumeric with underscores, start with letter or underscore")
    else []

-- strings.ToUpper, read only to compare with the modes, to whose letters no other character maps
unfoldable pub upper_byte : ℕ → ℕ
upper_byte c = if leb 97 c && leb c 122 then c - 32 else c

unfoldable pub write_mode_error : (Text → Text) → Text → Text
unfolding upper_byte
write_mode_error quote mode =
    let upper = map upper_byte mode in
    if upper == bytes "APPEND" || (upper == bytes "FULL_LOAD" || is_empty upper)
    then []
    else bytes "invalid writeMode " ++ (quote mode ++ bytes ", must be APPEND or FULL_LOAD")

-- strconv.Atoi gives a positive number: no minus, and a digit other than 0
unfoldable pub is_positive_int : Text → Bool
is_positive_int s =
    parse_int_accepts 64 s && (not (contains s 45) && any (λ c. leb 49 c && leb c 57) s)

-- a text without its last byte, and that byte
unfoldable pub last_byte : Text → Option ℕ
last_byte [] = none
last_byte (c ∷ []) = some c
last_byte (c ∷ d ∷ s) = last_byte (d ∷ s)

unfoldable pub without_last : Text → Text
without_last [] = []
without_last (c ∷ []) = []
without_last (c ∷ d ∷ s) = c ∷ without_last (d ∷ s)

-- the error of parseSinceDuration, empty if there is none; `parse_duration` is the
-- error of time.ParseDuration, or whether its duration is positive
unfoldable pub since_error : (Text → Text) → (Text → Result Text Bool) → Text → Text
unfolding is_positive_int last_byte without_last
since_error quote parse_duration s =
    let invalid = bytes "invalid since duration " ++ quote s in
    if is_empty s
    then bytes "empty duration string"
    else if get_or (last_byte s) 0 == 100
    then (if is_positive_int (without_last s)
        then []
        else invalid ++ bytes ": must be a positive integer followed by d")
    else if get_or (last_byte s) 0 == 119
    then (if is_positive_int (without_last s)
        then []
        else invalid ++ bytes ": must be a positive integer followed by w")
    else elim (parse_duration s) [
      | err e ↦ invalid ++ (bytes ": " ++ e)
      | ok true ↦ []
      | ok false ↦ invalid ++ bytes ": must be positive"
    ]
