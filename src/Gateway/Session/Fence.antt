-- ===== src/Gateway/Session/Fence.antt =====
-- The write fence declaredOutputBucket of pkg/datagateway/server_v2_writing.go, which searches a sorted
-- list of buckets, against the outputs as the configuration names them.
use datuplet.Prelude.{
  All, Bool, Bool-cases, List, Text, [], all, any, ap, arith, contains, false, if◌then◌else◌, inl,
  inr, is_empty, not, refl, text_beq_iff, text_eq, true, ◌&&◌, ◌++◌, ◌==◌, ◌||◌, ◌∷◌, ◌≡◌,
}
use datuplet.Gateway.CommitPool.Key.{
  insert_sorted, sort, text_leb, text_leb_antisym, text_leb_total, text_leb_trans,
}
use datuplet.Gateway.Session.{
  Config, OutputTable, add_member, add_members, add_table_buckets, declared_output_bucket,
  declared_output_buckets, found, search_strings,
}

contains-insert_sorted :
    (s : Text) (ss : List Text) (b : Text)
    → contains (insert_sorted s ss) b ≡ (s == b || contains ss b)
unfolding insert_sorted
contains-insert_sorted s [] b = refl
contains-insert_sorted s (t ∷ ts) b = ground (arith, contains-insert_sorted s ts b)

contains-sort : (ss : List Text) (b : Text) → contains (sort ss) b ≡ contains ss b
unfolding sort
contains-sort [] b = refl
contains-sort (s ∷ ss) b = ground (arith, contains-insert_sorted s (sort ss) b, contains-sort ss b)

is_empty-sort : (ss : List Text) → is_empty (sort ss) ≡ is_empty ss
unfolding sort insert_sorted
is_empty-sort [] = refl
is_empty-sort (s ∷ ss) = elim (sort ss) as (λ l. is_empty (insert_sorted s l) ≡ false) [
  | [] ↦ refl
  | t ∷ ts ↦ ground arith
]

abbrev Above : Text → Text → Type 0
Above s t = text_leb s t ≡ true

abbrev Ascends : List Text → Type 0
Ascends [] = Unit
Ascends (s ∷ ss) = All (Above s) ss × Ascends ss

Above-All : (s t : Text) (ss : List Text) → Above s t → All (Above t) ss → All (Above s) ss
Above-All s t [] h k = k
Above-All s t (u ∷ us) h k = (text_leb_trans s t u h k.0, Above-All s t us h k.1)

Above-insert_sorted :
    (u s : Text) (ss : List Text)
    → Above u s
    → All (Above u) ss
    → All (Above u) (insert_sorted s ss)
unfolding insert_sorted
Above-insert_sorted u s [] h k = (h, k)
Above-insert_sorted u s (t ∷ ts) h k =
    elim (text_leb s t) as (λ b. All (Above u) (if b then s ∷ t ∷ ts else t ∷ insert_sorted s ts)) [
      | true ↦ (h, k)
      | false ↦ (k.0, Above-insert_sorted u s ts h k.1)
    ]

insert_sorted-Ascends : (s : Text) (ss : List Text) → Ascends ss → Ascends (insert_sorted s ss)
unfolding insert_sorted
insert_sorted-Ascends s [] h = (tt, tt)
insert_sorted-Ascends s (t ∷ ts) h =
    elim (text_leb s t)
        as (λ b. text_leb s t ≡ b → Ascends (if b then s ∷ t ∷ ts else t ∷ insert_sorted s ts)) [
          | true ↦ λ e. ((e, Above-All s t ts e h.0), h)
          | false ↦ λ e. (
            Above-insert_sorted t s ts (text_leb_total s t e) h.0,
            insert_sorted-Ascends s ts h.1,
          )
        ]
      refl

sort-Ascends : (ss : List Text) → Ascends (sort ss)
unfolding sort
sort-Ascends [] = tt
sort-Ascends (s ∷ ss) = insert_sorted-Ascends s (sort ss) (sort-Ascends ss)

not-Above :
    (b s : Text) (ss : List Text)
    → Above b s
    → (s == b) ≡ false
    → All (Above s) ss
    → contains ss b ≡ false
not-Above b s [] h n k = refl
not-Above b s (t ∷ ts) h n k =
    ground (
      arith,
      not-Above b s ts h n k.1,
      text_beq_iff t b,
      text_beq_iff s b,
      text_leb_antisym b s,
      k.0,
    )

text_leb_refl : (s : Text) → text_leb s s ≡ true
text_leb_refl s = elim (Bool-cases (text_leb s s)) [ inl e ↦ e | inr e ↦ text_leb_total s s e ]

found-search_strings :
    (ss : List Text) (b : Text) → Ascends ss → found (search_strings ss b) b ≡ contains ss b
unfolding search_strings
found-search_strings [] b h = refl
found-search_strings (s ∷ ss) b h =
    ground (
      arith,
      found-search_strings ss b h.1,
      not-Above b s ss,
      text_beq_iff s b,
      text_leb_refl b,
      h.0,
    )

contains-append :
    (xs : List Text) (b c : Text) → contains (xs ++ (b ∷ [])) c ≡ (contains xs c || b == c)
contains-append [] b c = ground arith
contains-append (x ∷ xs) b c = ground (arith, contains-append xs b c)

contains-add_member :
    (xs : List Text) (b c : Text) → contains (add_member xs b) c ≡ (contains xs c || b == c)
unfolding add_member
contains-add_member xs b c =
    ground (arith, contains-append xs b c, text_beq_iff b c, λ (e : b ≡ c). ap (contains xs) e)

contains-add_members :
    (xs bs : List Text) (c : Text)
    → contains (add_members xs bs) c ≡ (contains xs c || contains bs c)
unfolding add_members
contains-add_members xs [] c = ground arith
contains-add_members xs (b ∷ bs) c =
    ground (arith, contains-add_members (add_member xs b) bs c, contains-add_member xs b c)

-- the tables that name bucket `c`
abbrev has_table_in : List OutputTable → Text → Bool
has_table_in ts c = any (λ t. not (is_empty t.bucket) && t.bucket == c) ts

contains-add_table_buckets :
    (xs : List Text) (ts : List OutputTable) (c : Text)
    → contains (add_table_buckets xs ts) c ≡ (contains xs c || has_table_in ts c)
unfolding add_table_buckets
contains-add_table_buckets xs [] c = ground arith
contains-add_table_buckets xs (t ∷ ts) c = ground (
  arith,
  contains-add_table_buckets xs ts c,
  contains-add_table_buckets (add_member xs t.bucket) ts c,
  contains-add_member xs t.bucket c,
)

-- the outputs that name bucket `b`
unfoldable pub declares : Config → Text → Bool
declares c b =
    not (is_empty c.default_bucket) && c.default_bucket == b
    || contains c.output_buckets b
    || has_table_in c.output_tables b

contains-declared : (c : Config) (b : Text) → contains (declared_output_buckets c) b ≡ declares c b
unfolding declared_output_buckets declares
contains-declared c b =
    let first = if is_empty c.default_bucket then [] else c.default_bucket ∷ [] in
    let members = add_members first c.output_buckets in
    ground (
      arith,
      contains-sort (add_table_buckets members c.output_tables) b,
      contains-add_table_buckets members c.output_tables b,
      contains-add_members first c.output_buckets b,
    )

declared-Ascends : (c : Config) → Ascends (declared_output_buckets c)
unfolding declared_output_buckets
declared-Ascends c = sort-Ascends _

is_empty-add_member : (xs : List Text) (b : Text) → is_empty (add_member xs b) ≡ false
unfolding add_member
is_empty-add_member [] b = refl
is_empty-add_member (x ∷ xs) b = ground arith

is_empty-add_members :
    (xs bs : List Text) → is_empty (add_members xs bs) ≡ (is_empty xs && is_empty bs)
unfolding add_members
is_empty-add_members xs [] = ground arith
is_empty-add_members xs (b ∷ bs) =
    ground (arith, is_empty-add_members (add_member xs b) bs, is_empty-add_member xs b)

-- no table names a bucket
abbrev no_table_bucket : List OutputTable → Bool
no_table_bucket ts = all (λ t. is_empty t.bucket) ts

is_empty-add_table_buckets :
    (xs : List Text) (ts : List OutputTable)
    → is_empty (add_table_buckets xs ts) ≡ (is_empty xs && no_table_bucket ts)
unfolding add_table_buckets
is_empty-add_table_buckets xs [] = ground arith
is_empty-add_table_buckets xs (t ∷ ts) = ground (
  arith,
  is_empty-add_table_buckets xs ts,
  is_empty-add_table_buckets (add_member xs t.bucket) ts,
  is_empty-add_member xs t.bucket,
)

-- the configuration has no default bucket, no output bucket and no bucket of a table
unfoldable pub names_nothing : Config → Bool
names_nothing c =
    is_empty c.default_bucket && is_empty c.output_buckets && no_table_bucket c.output_tables

is_empty-declared : (c : Config) → is_empty (declared_output_buckets c) ≡ names_nothing c
unfolding declared_output_buckets names_nothing
is_empty-declared c =
    let first = if is_empty c.default_bucket then [] else c.default_bucket ∷ [] in
    let members = add_members first c.output_buckets in
    ground (
      arith,
      is_empty-sort (add_table_buckets members c.output_tables),
      is_empty-add_table_buckets members c.output_tables,
      is_empty-add_members first c.output_buckets,
    )

-- The fence lets a component write to exactly the buckets that its outputs name, whatever their order
-- and repetitions; where the configuration has no default bucket, no output bucket and no table with a
-- bucket, it lets it write everywhere, but nowhere in a preview.
pub declared_output_bucket-declares :
    (c : Config) (b : Text)
    → declared_output_bucket c b ≡ (if names_nothing c then not c.preview else declares c b)
unfolding declared_output_bucket
declared_output_bucket-declares c b = ground (
  arith,
  found-search_strings (declared_output_buckets c) b (declared-Ascends c),
  contains-declared c b,
  is_empty-declared c,
)
