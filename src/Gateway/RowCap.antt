-- ===== src/Gateway/RowCap.antt =====
-- pkg/datagateway/row_cap.go: the row limit of a preview run, for each output table. The mutex makes
-- each `take` one step, so concurrent writers are a sequence of calls. Row counts are int64 and never
-- negative, so `limit - used` and its clamp at 0 are the truncated subtraction.
pub mod Fair
use datuplet.Prelude.{
  Assoc, Bool, Option, Text, [], false, get_or, if◌then◌else◌, insert, leb, lookup, ltb, none, some,
  text_eq, ℕ, ◌++◌, ◌+◌, ◌-◌, ◌∷◌,
}

pub record RowCap : Type 0 where
  pub used : Assoc Text ℕ
  pub limit : ℕ

unfoldable pub new_row_cap : ℕ → RowCap
new_row_cap limit = record { used = []; limit = limit }

-- bucket + "\x00" + table
unfoldable pub table_key : Text → Text → Text
table_key bucket table = bucket ++ (0 ∷ table)

abbrev pub used_at : RowCap → Text → ℕ
used_at c key = get_or (lookup c.used key) 0

-- the rows that `take` grants
unfoldable pub allowed_rows : ℕ → ℕ → ℕ → ℕ
allowed_rows limit used n = let allowed = limit - used in if ltb n allowed then n else allowed

unfoldable pub take_rows : RowCap → Text → Text → ℕ → RowCap × ℕ × Bool
take_rows c bucket table n =
    let key = table_key bucket table in
    let used = used_at c key in
    let allowed = allowed_rows c.limit used n in
    (record c { used = insert c.used key (used + allowed) }, allowed, leb c.limit (used + allowed))

-- `none` is the nil *rowCap
unfoldable pub take_optional : Option RowCap → Text → Text → ℕ → Option RowCap × ℕ × Bool
take_optional none bucket table n = (none, n, false)
take_optional (some c) bucket table n =
    let (c', allowed, reached) = take_rows c bucket table n in (some c', allowed, reached)
