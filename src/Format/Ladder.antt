-- ===== src/Format/Ladder.antt =====
-- The order in which InferValueType of pkg/datagateway/schema/inference.go tries the types.
use datuplet.Prelude.{Bool, arith, if◌then◌else◌, true, ◌≡◌}
use datuplet.Schema.{DataType, bool, date, float64, int64, string, timestamp, unknown}

-- the ladder of InferValueType over the results of its tests
abbrev pub classify : (null word digit whole fits float stamp day : Bool) → DataType
classify null word digit whole fits float stamp day =
    if null
    then unknown
    else if word
    then (if digit then int64 else bool)
    else if whole
    then (if fits then int64 else string)
    else if float
    then float64
    else if stamp
    then timestamp
    else if day
    then date
    else string

pub classify-float64 : (a b c d e f g h : Bool) → classify a b c d e f g h ≡ float64 → f ≡ true
classify-float64 a b c d e f g h k = ground arith

pub classify-unknown : (a b c d e f g h : Bool) → classify a b c d e f g h ≡ unknown → a ≡ true
classify-unknown a b c d e f g h k = ground arith

pub classify-bool : (a b c d e f g h : Bool) → classify a b c d e f g h ≡ bool → b ≡ true
classify-bool a b c d e f g h k = ground arith

pub classify-date : (a b c d e f g h : Bool) → classify a b c d e f g h ≡ date → h ≡ true
classify-date a b c d e f g h k = ground arith
