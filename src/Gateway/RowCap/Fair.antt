-- ===== src/Gateway/RowCap/Fair.antt =====
-- What the writers of a gateway get in all, table by table.
use datuplet.Prelude.{
  All, Bool, Bool-cases, List, NoNul, Text, [], ap, arith, if◌then◌else◌, inl, inr, lookup,
  lookup-insert, lookup-insert_self, min, nat_eq, refl, text_beq, text_beq_iff, text_eq, true, ℕ,
  ◌&&◌, ◌+◌, ◌-◌, ◌==◌, ◌∙◌, ◌∷◌, ◌≡◌, ◌≤◌,
}
use datuplet.Gateway.RowCap.{RowCap, allowed_rows, new_row_cap, table_key, take_rows, used_at}

pub record Request : Type 0 where
  pub bucket : Text
  pub table : Text
  pub rows : ℕ

-- Bucket names hold no NUL byte.
abbrev pub Named : Request → Type 0
Named r = NoNul r.bucket

-- whether the request is for the table
abbrev pub is_for : Text → Text → Request → Bool
is_for bucket table r = r.bucket == bucket && (r.table == table)

-- The rows that the table is granted over the calls in order, and those asked for it.
unfoldable pub granted_for : RowCap → Text → Text → List Request → ℕ
granted_for c bucket table [] = 0
granted_for c bucket table (r ∷ rs) =
    let (c', allowed, reached) = take_rows c r.bucket r.table r.rows in
    (if is_for bucket table r then allowed else 0) + granted_for c' bucket table rs

unfoldable pub requested_for : Text → Text → List Request → ℕ
requested_for bucket table [] = 0
requested_for bucket table (r ∷ rs) =
    (if is_for bucket table r then r.rows else 0) + requested_for bucket table rs

table_key_iff :
    (b t c u : Text) → NoNul b → NoNul c → (table_key b t == table_key c u) ≡ (b == c && (t == u))
unfolding table_key text_beq
table_key_iff [] t [] u h k = refl
table_key_iff [] t (d ∷ c) u h k = ground arith
table_key_iff (d ∷ b) t [] u h k = ground arith
table_key_iff (d ∷ b) t (e ∷ c) u h k = ground (arith, table_key_iff b t c u)

-- The call changes what is used of its own table only.
used_at-take_rows :
    (c : RowCap) (bucket table : Text) (r : Request)
    → NoNul bucket
    → Named r
    → used_at (take_rows c r.bucket r.table r.rows).0 (table_key bucket table) ≡ (
        if is_for bucket table r
        then used_at c (table_key bucket table)
          + allowed_rows c.limit (used_at c (table_key bucket table)) r.rows
        else used_at c (table_key bucket table))
unfolding take_rows
used_at-take_rows c bucket table r named r_named = elim (Bool-cases (is_for bucket table r)) [
  | inl same ↦
      let key : table_key r.bucket r.table ≡ table_key bucket table =
        (text_beq_iff _ _).0 (table_key_iff r.bucket r.table bucket table r_named named ∙ same) in
      rw (same, key) (rw lookup-insert_self)
  | inr differs ↦
      rw
        (differs, lookup-insert, table_key_iff r.bucket r.table bucket table r_named named, differs)
]

rows-take_rows :
    (c : RowCap) (bucket table : Text) (r : Request)
    → NoNul bucket
    → Named r
    → is_for bucket table r ≡ true
    → (take_rows c r.bucket r.table r.rows).1
      ≡ allowed_rows c.limit (used_at c (table_key bucket table)) r.rows
unfolding take_rows
rows-take_rows c bucket table r named r_named same =
    ap (λ key. allowed_rows c.limit (used_at c key) r.rows)
      ((text_beq_iff _ _).0 (table_key_iff r.bucket r.table bucket table r_named named ∙ same))

limit-take_rows :
    (c : RowCap) (r : Request) → (take_rows c r.bucket r.table r.rows).0.limit ≡ c.limit
unfolding take_rows
limit-take_rows c r = refl

-- the arithmetic of one grant
allowed_rows-min :
    (limit used n more : ℕ)
    → used ≤ limit
    → allowed_rows limit used n + min (limit - (used + allowed_rows limit used n)) more
      ≡ min (limit - used) (n + more)
unfolding allowed_rows
allowed_rows-min limit used n more fits = ground arith

allowed_rows_fits : (limit used n : ℕ) → used ≤ limit → used + allowed_rows limit used n ≤ limit
unfolding allowed_rows
allowed_rows_fits limit used n fits = ground arith

granted_from :
    (c : RowCap) (bucket table : Text) (rs : List Request)
    → NoNul bucket
    → All Named rs
    → used_at c (table_key bucket table) ≤ c.limit
    → granted_for c bucket table rs
      ≡ min (c.limit - used_at c (table_key bucket table)) (requested_for bucket table rs)
unfolding granted_for requested_for
granted_from c bucket table [] named All-named fits = omega arith
granted_from c bucket table (r ∷ rs) named All-named fits =
    elim (Bool-cases (is_for bucket table r)) [
      | inl same ↦ ground (
        arith,
        same,
        used_after,
        limit-take_rows c r,
        rows-take_rows c bucket table r named All-named.0 same,
        allowed_rows-min c.limit used r.rows (requested_for bucket table rs) fits,
        allowed_rows_fits c.limit used r.rows fits,
        granted_from c' bucket table rs named All-named.1,
      )
      | inr differs ↦ ground (
        arith,
        differs,
        used_after,
        limit-take_rows c r,
        granted_from c' bucket table rs named All-named.1,
      )
    ]
  where
    used : ℕ
    used = used_at c (table_key bucket table)

    c' : RowCap
    c' = (take_rows c r.bucket r.table r.rows).0

    used_after :
        used_at c' (table_key bucket table)
        ≡ (if is_for bucket table r then used + allowed_rows c.limit used r.rows else used)
    used_after = used_at-take_rows c bucket table r named All-named.0

-- Whatever the order of the calls and however many writers make them, a table is granted as many
-- rows as were asked for it, up to the limit, and no other table's calls change that; bucket names
-- hold no NUL byte.
pub granted_for-new_row_cap :
    (limit : ℕ) (bucket table : Text) (rs : List Request)
    → NoNul bucket
    → All Named rs
    → granted_for (new_row_cap limit) bucket table rs ≡ min limit (requested_for bucket table rs)
unfolding new_row_cap lookup
granted_for-new_row_cap limit bucket table rs named All-named =
    omega (arith, granted_from (new_row_cap limit) bucket table rs named All-named (omega arith))
