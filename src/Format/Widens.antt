-- ===== src/Format/Widens.antt =====
-- Which values a column of the inferred type is to hold (pkg/datagateway/schema/inference.go).
use datuplet.Prelude.{All, Bool, List, [], arith, false, refl, true, ◌∙◌, ◌∷◌, ◌≡◌, ◌⊎◌}
use datuplet.Schema.{DataType, bool, date, float64, int64, string, timestamp}
use datuplet.Schema.Inference.Join.{IsInferable, decide_bits, join_all-decide_type, occurs}
use datuplet.Schema.Inference.Tally.{column_type}

-- A column of type `c` is to hold a value of type `t`.
abbrev pub Widens : DataType → DataType → Type 0
Widens t c = (c ≡ t) ⊎ (c ≡ string) ⊎ ((t ≡ int64) × (c ≡ float64))

bit_of : DataType → (s ts d b f i : Bool) → Bool
bit_of string s ts d b f i = s
bit_of timestamp s ts d b f i = ts
bit_of date s ts d b f i = d
bit_of bool s ts d b f i = b
bit_of float64 s ts d b f i = f
bit_of int64 s ts d b f i = i
bit_of _ s ts d b f i = false

Widens-decide_bits :
    (t : DataType) (s ts d b f i : Bool)
    → bit_of t s ts d b f i ≡ true
    → Widens t (decide_bits s ts d b f i)
unfolding bit_of
Widens-decide_bits string s ts d b f i h = ground arith
Widens-decide_bits timestamp s ts d b f i h = ground arith
Widens-decide_bits date s ts d b f i h = ground arith
Widens-decide_bits bool s ts d b f i h = ground arith
Widens-decide_bits float64 s ts d b f i h = ground arith
Widens-decide_bits int64 s ts d b f i h = ground arith
Widens-decide_bits _ s ts d b f i h = cc

bit_of-occurs :
    (t : DataType) (ts : List DataType)
    → IsInferable t
    → bit_of t
        (occurs string ts)
        (occurs timestamp ts)
        (occurs date ts)
        (occurs bool ts)
        (occurs float64 ts)
        (occurs int64 ts)
      ≡ occurs t ts
unfolding bit_of
bit_of-occurs string ts h = refl
bit_of-occurs timestamp ts h = refl
bit_of-occurs date ts h = refl
bit_of-occurs bool ts h = refl
bit_of-occurs float64 ts h = refl
bit_of-occurs int64 ts h = refl
bit_of-occurs _ ts h = absurd (ground arith)

pub Widens-column_type :
    (t : DataType) (ts : List DataType)
    → IsInferable t
    → All IsInferable ts
    → occurs t ts ≡ true
    → Widens t (column_type ts)
Widens-column_type t [] h hs o = cc
Widens-column_type t (u ∷ us) h hs o = rw (join_all-decide_type u us hs) (
    Widens-decide_bits t (occurs string (u ∷ us)) (occurs timestamp (u ∷ us)) (occurs date (u ∷ us))
      (occurs bool (u ∷ us)) (occurs float64 (u ∷ us)) (occurs int64 (u ∷ us))
      (bit_of-occurs t (u ∷ us) h ∙ o))
