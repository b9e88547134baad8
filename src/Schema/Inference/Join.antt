-- ===== src/Schema/Inference/Join.antt =====
-- What resolveColumnType is for: the least type that takes every value of the column.
use datuplet.Prelude.{
  All, Bool, List, Option, Text, [], arith, count, if◌then◌else◌, ltb, nat_eq, none, some, true,
  ◌&&◌, ◌==◌, ◌||◌, ◌∷◌, ◌≡◌, ◌⊎◌,
}
use datuplet.Schema.{DataType, bool, data_type_eq, date, float64, int64, string, timestamp, unknown}
use datuplet.Schema.Inference.{Parsers, TypeInferrer, infer_value_type}

-- int64 and float64 meet in float64, and any other two types in string.
unfoldable pub join : DataType → DataType → DataType
join a b =
    if a == b
    then a
    else if (a == int64 && (b == float64)) || (a == float64 && (b == int64))
    then float64
    else string

unfoldable pub join_all : List DataType → Option DataType
join_all [] = none
join_all (t ∷ ts) = let rest = join_all ts in elim rest [ none ↦ some t | some u ↦ some (join t u) ]

-- The types that InferValueType gives to a value that is not null.
abbrev pub IsInferable : DataType → Type 0
IsInferable t =
    (t ≡ int64) ⊎ (t ≡ float64) ⊎ (t ≡ string) ⊎ (t ≡ bool) ⊎ (t ≡ timestamp) ⊎ (t ≡ date)

-- InferValueType gives `unknown` or one of these six types, and never int32, float32, binary or
-- variant.
pub infer_value_type-IsInferable :
    (std : Parsers) (ti : TypeInferrer) (value : Text)
    → (infer_value_type std ti value ≡ unknown) ⊎ IsInferable (infer_value_type std ti value)
unfolding infer_value_type
infer_value_type-IsInferable std ti value = ground arith

abbrev pub occurs : DataType → List DataType → Bool
occurs t ts = ltb 0 (count ts t)

-- the join of a column, from which of the six types occur
abbrev pub decide_bits : (s ts d b f i : Bool) → DataType
decide_bits s ts d b f i =
    if s
    then string
    else if ts
    then (if i || f || b || d then string else timestamp)
    else if d
    then (if i || f || b then string else date)
    else if b
    then (if i || f then string else bool)
    else if f
    then float64
    else int64

abbrev pub decide_type : List DataType → DataType
decide_type ts =
    decide_bits (occurs string ts) (occurs timestamp ts) (occurs date ts) (occurs bool ts)
      (occurs float64 ts) (occurs int64 ts)

join-decide_bits :
    (t : DataType) (s ts d b f i : Bool)
    → IsInferable t
    → (s || ts || d || b || f || i) ≡ true
    → join t (decide_bits s ts d b f i)
      ≡ decide_bits
          ((t == string) || s)
          ((t == timestamp) || ts)
          ((t == date) || d)
          ((t == bool) || b)
          ((t == float64) || f)
          ((t == int64) || i)
unfolding join
join-decide_bits int64 s ts d b f i h n = ground arith
join-decide_bits float64 s ts d b f i h n = ground arith
join-decide_bits string s ts d b f i h n = ground arith
join-decide_bits bool s ts d b f i h n = ground arith
join-decide_bits timestamp s ts d b f i h n = ground arith
join-decide_bits date s ts d b f i h n = ground arith
join-decide_bits _ s ts d b f i h n = absurd (ground arith)

occurs-cons : (u t : DataType) (ts : List DataType) → occurs u (t ∷ ts) ≡ ((t == u) || occurs u ts)
occurs-cons u t ts = ground arith

pub some_occurs :
    (t : DataType) (ts : List DataType)
    → IsInferable t
    → (occurs string (t ∷ ts)
        || occurs timestamp (t ∷ ts)
        || occurs date (t ∷ ts)
        || occurs bool (t ∷ ts)
        || occurs float64 (t ∷ ts)
        || occurs int64 (t ∷ ts))
      ≡ true
some_occurs t ts h = ground arith

-- The join of a column is decided by which of the six types occur in it.
pub join_all-decide_type :
    (t : DataType) (ts : List DataType)
    → All IsInferable (t ∷ ts)
    → join_all (t ∷ ts) ≡ some (decide_type (t ∷ ts))
unfolding join_all
join_all-decide_type t [] h = ground arith
join_all-decide_type t (u ∷ us) h =
    rw
      (
        join_all-decide_type u us h.1,
        join-decide_bits t (occurs string (u ∷ us)) (occurs timestamp (u ∷ us))
            (occurs date (u ∷ us)) (occurs bool (u ∷ us)) (occurs float64 (u ∷ us))
            (occurs int64 (u ∷ us)) h.0 (some_occurs u us h.1.0),
      )
      (cc (
        occurs-cons string t (u ∷ us),
        occurs-cons timestamp t (u ∷ us),
        occurs-cons date t (u ∷ us),
        occurs-cons bool t (u ∷ us),
        occurs-cons float64 t (u ∷ us),
        occurs-cons int64 t (u ∷ us),
      ))
