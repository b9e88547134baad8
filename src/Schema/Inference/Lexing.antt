-- ===== src/Schema/Inference/Lexing.antt =====
-- The two regular expressions, the trim and the integer parse of InferValueType.
pub mod Trim
use datuplet.Prelude.{
  Bool, List, Option, Text, [], false, if◌then◌else◌, is_empty, leb, length, ltb, map, nat_beq,
  none, reverse, some, suc, true, zero, ℕ, ◌&&◌, ◌*◌, ◌+◌, ◌-◌, ◌^◌, ◌||◌, ◌∷◌,
}

is_digit : ℕ → Bool
is_digit c = leb b'0' c && leb c b'9'

drop_digits : Text → Text
drop_digits [] = []
drop_digits (c ∷ s) = let rest = drop_digits s in if is_digit c then rest else c ∷ s

starts_digit : Text → Bool
unfolding is_digit
starts_digit [] = false
starts_digit (c ∷ s) = is_digit c

-- one digit or more, to the end
all_digits : Text → Bool
unfolding starts_digit drop_digits
all_digits s = starts_digit s && is_empty (drop_digits s)

drop_minus : Text → Text
drop_minus [] = []
drop_minus (c ∷ s) = if nat_beq c b'-' then s else c ∷ s

-- `^-?\d+$`
unfoldable pub matches_int : Text → Bool
unfolding all_digits drop_minus
matches_int s = all_digits (drop_minus s)

-- `\d*\.?\d+`: what follows the longest match, if there is a match
after_mantissa : Text → Text → Option Text
after_mantissa s [] = if starts_digit s then some [] else none
after_mantissa s (c ∷ rest) =
    if nat_beq c b'.'
    then (if starts_digit rest then some (drop_digits rest) else none)
    else if starts_digit s
    then some (c ∷ rest)
    else none

unfoldable pub drop_sign : Text → Text
drop_sign [] = []
drop_sign (c ∷ s) = if nat_beq c b'+' || nat_beq c b'-' then s else c ∷ s

-- `([eE][+-]?\d+)?$`
matches_exponent : Option Text → Bool
unfolding drop_sign
matches_exponent none = false
matches_exponent (some []) = true
matches_exponent (some (c ∷ s)) = (nat_beq c b'e' || nat_beq c b'E') && all_digits (drop_sign s)

-- `^-?\d*\.?\d+([eE][+-]?\d+)?$`
unfoldable pub matches_float : Text → Bool
unfolding after_mantissa matches_exponent all_digits drop_minus
matches_float s = let t = drop_minus s in matches_exponent (after_mantissa t (drop_digits t))

-- the number that a text of digits writes
unfoldable pub digits_value : ℕ → Text → ℕ
digits_value acc [] = acc
digits_value acc (c ∷ s) = digits_value (acc * 10 + (c - b'0')) s

starts_minus : Text → Bool
starts_minus [] = false
starts_minus (c ∷ s) = nat_beq c b'-'

-- strconv.ParseInt(s, 10, bits): a sign, digits, and a range.
unfoldable pub parse_int_accepts : ℕ → Text → Bool
unfolding digits_value starts_minus drop_sign all_digits
parse_int_accepts bits s =
    let magnitude = digits_value 0 (drop_sign s) in
    all_digits (drop_sign s)
    && (if starts_minus s then leb magnitude (2 ^ (bits - 1)) else ltb magnitude (2 ^ (bits - 1)))

-- The UTF-8 forms of the code points that unicode.IsSpace accepts.
abbrev white_spaces : List Text
white_spaces =
    (9 ∷ [])
    ∷ (10 ∷ [])
    ∷ (11 ∷ [])
    ∷ (12 ∷ [])
    ∷ (13 ∷ [])
    ∷ (32 ∷ [])
    ∷ (194 ∷ 133 ∷ [])
    ∷ (194 ∷ 160 ∷ [])
    ∷ (225 ∷ 154 ∷ 128 ∷ [])
    ∷ (226 ∷ 128 ∷ 128 ∷ [])
    ∷ (226 ∷ 128 ∷ 129 ∷ [])
    ∷ (226 ∷ 128 ∷ 130 ∷ [])
    ∷ (226 ∷ 128 ∷ 131 ∷ [])
    ∷ (226 ∷ 128 ∷ 132 ∷ [])
    ∷ (226 ∷ 128 ∷ 133 ∷ [])
    ∷ (226 ∷ 128 ∷ 134 ∷ [])
    ∷ (226 ∷ 128 ∷ 135 ∷ [])
    ∷ (226 ∷ 128 ∷ 136 ∷ [])
    ∷ (226 ∷ 128 ∷ 137 ∷ [])
    ∷ (226 ∷ 128 ∷ 138 ∷ [])
    ∷ (226 ∷ 128 ∷ 168 ∷ [])
    ∷ (226 ∷ 128 ∷ 169 ∷ [])
    ∷ (226 ∷ 128 ∷ 175 ∷ [])
    ∷ (226 ∷ 129 ∷ 159 ∷ [])
    ∷ (227 ∷ 128 ∷ 128 ∷ [])
    ∷ []

drop_prefix : Text → Text → Option Text
drop_prefix [] s = some s
drop_prefix (d ∷ t) [] = none
drop_prefix (d ∷ t) (c ∷ s) = let rest = drop_prefix t s in if nat_beq c d then rest else none

-- the text after one white space of the list, if it begins with one
drop_space : List Text → Text → Option Text
drop_space [] s = none
drop_space (w ∷ ws) s = elim (drop_prefix w s) [ some rest ↦ some rest | none ↦ drop_space ws s ]

-- A white space has at least one byte, so the length is fuel enough.
trim_left : ℕ → List Text → Text → Text
trim_left zero ws s = s
trim_left (suc f) ws s = elim (drop_space ws s) [ some rest ↦ trim_left f ws rest | none ↦ s ]

-- strings.TrimSpace
unfoldable pub trim_space : Text → Text
unfolding drop_prefix drop_space trim_left
trim_space s =
    let t = trim_left (length s) white_spaces s in
    reverse (trim_left (length t) (map reverse white_spaces) (reverse t))
