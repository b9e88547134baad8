-- ===== src/Prelude/Strings.antt =====
-- A Go string is the list of its bytes; `bytes` writes one down.
use Prim.Native.Nat.{ℕ, zero, suc, ◌+◌, ◌/◌, ◌%◌}
use Prim.Native.Char.{code}
use Prim.Native.String.{String}
use mathlib.Core.Path.{◌≡◌}
use mathlib.Core.Logic.{◌↔◌}
use mathlib.Core.Bool.{Bool, true, false, ◌&&◌, ◌||◌}
use mathlib.Core.List.{List, [], ◌∷◌, ◌++◌}
use native.Mathlib.Omega.{arith}
use datuplet.Prelude.Lists.{contains, is_empty}
use datuplet.Prelude.Tests.{Eq, if◌then◌else◌, ltb, nat_beq, nat_eq}

abbrev pub Text : Type 0
Text = List ℕ

abbrev pub bytes : String → Text
bytes String.[] = []
bytes (String.◌∷◌ c s) = code c ∷ bytes s

unfoldable pub text_beq : Text → Text → Bool
text_beq [] [] = true
text_beq (c ∷ s) (d ∷ t) = nat_beq c d && text_beq s t
text_beq _ _ = false

pub text_beq_iff : (s t : Text) → (text_beq s t ≡ true) ↔ (s ≡ t)
unfolding text_beq
text_beq_iff [] [] = ground arith
text_beq_iff [] (d ∷ t) = ground arith
text_beq_iff (c ∷ s) [] = ground arith
text_beq_iff (c ∷ s) (d ∷ t) = ground (arith, text_beq_iff s t)

instance abbrev pub text_eq : Eq Text
text_eq = record { eqb = text_beq; eqb_iff = text_beq_iff }

-- a text without a NUL byte
abbrev pub NoNul : Text → Type 0
NoNul s = contains s 0 ≡ false

-- `%d` of fmt.Sprintf, on fuel: a number has no more digits than `n + 1`
unfoldable pub decimal : ℕ → ℕ → Text → Text
decimal zero n digits = digits
decimal (suc fuel) n digits =
    let rest = decimal fuel (n / 10) ((48 + n % 10) ∷ digits) in
    if ltb n 10 then (48 + n % 10) ∷ digits else rest

unfoldable pub show_nat : ℕ → Text
unfolding decimal
show_nat n = decimal (n + 1) n []

-- strings.Join
unfoldable pub join : Text → List Text → Text
join sep [] = []
join sep (s ∷ []) = s
join sep (s ∷ t ∷ ts) = s ++ (sep ++ join sep (t ∷ ts))

unfoldable pub starts_with : Text → Text → Bool
starts_with [] s = true
starts_with (c ∷ sub) [] = false
starts_with (c ∷ sub) (d ∷ s) = nat_beq c d && starts_with sub s

-- strings.Contains
unfoldable pub contains_text : Text → Text → Bool
unfolding starts_with
contains_text [] sub = is_empty sub
contains_text (c ∷ s) sub = starts_with sub (c ∷ s) || contains_text s sub
