-- ===== src/Schema/Inference/Tally.antt =====
-- The counts that InferSchemaWithConfig keeps for a column, against the list of types they count.
use datuplet.Prelude.{
  All, Assoc, Bool, Bool-cases, List, [], ap, arith, count, false, get_or, if◌then◌else◌, inl, inr,
  insert, is_some, length, lookup, lookup-insert, ltb, nat_beq, nat_beq_iff, nat_eq, none, refl,
  some, subst, sym, ℕ, ◌&&◌, ◌+◌, ◌<◌, ◌==◌, ◌∙◌, ◌∷◌, ◌≡◌, ◌≤◌,
}
use datuplet.Schema.{
  DataType, bool, data_type_eq, date, float32, float64, int32, int64, iota-injective, string,
  timestamp, unknown,
}
use datuplet.Schema.Inference.{
  ColumnInferenceState, count_of, count_type, first_key, promote, resolve_column_type,
}
use datuplet.Schema.Inference.Join.{
  IsInferable, decide_type, join_all, join_all-decide_type, occurs, some_occurs,
}

length-insert :
    (m : Assoc DataType ℕ) (k : DataType) (v : ℕ)
    → length (insert m k v) ≡ length m + (if is_some (lookup m k) then 0 else 1)
unfolding insert lookup
length-insert [] k v = refl
length-insert ((j, w) ∷ m) k v = ground (arith, length-insert m k v)

abbrev bit : Bool → ℕ
bit b = if b then 1 else 0

-- how many of the six types occur
abbrev pub kinds : List DataType → ℕ
kinds ts =
    bit (occurs string ts)
    + bit (occurs timestamp ts)
    + bit (occurs date ts)
    + bit (occurs bool ts)
    + bit (occurs float64 ts)
    + bit (occurs int64 ts)

-- The state holds exactly the counts of the types `ts`, none of them `unknown`.
pub record Tallies (st : ColumnInferenceState) (ts : List DataType) : Type 0 where
  pub counted :
      (t : DataType) → lookup st.type_counts t ≡ (if occurs t ts then some (count ts t) else none)
  pub keys : length st.type_counts ≡ kinds ts
  pub total : st.total_non_null ≡ length ts

pub known_if_inferable : (t : DataType) → IsInferable t → (t == unknown) ≡ false
known_if_inferable t h = ground arith

-- One more value of type `t`: its count, and the number of keys if it is the first.
module _ (st : ColumnInferenceState) (ts : List DataType) (t : DataType) (inv : Tallies st ts) where
  abbrev counts : Assoc DataType ℕ
  counts = insert st.type_counts t (count_of st.type_counts t + 1)

  counted-insert :
      (u : DataType)
      → lookup counts u ≡ (if occurs u (t ∷ ts) then some (count (t ∷ ts) u) else none)
  counted-insert u = ground (
    arith,
    lookup-insert st.type_counts t (count_of st.type_counts t + 1) u,
    inv.counted t,
    inv.counted u,
    iota-injective t u,
  )

  kinds-cons : IsInferable t → kinds (t ∷ ts) ≡ kinds ts + (if occurs t ts then 0 else 1)
  kinds-cons h = ground arith

  keys-insert : IsInferable t → length counts ≡ kinds (t ∷ ts)
  keys-insert h = ground (
    arith,
    length-insert st.type_counts t (count_of st.type_counts t + 1),
    kinds-cons h,
    inv.keys,
    inv.counted t,
  )

pub count_type-Tallies :
    {st : ColumnInferenceState} {ts : List DataType} (t : DataType)
    → IsInferable t
    → Tallies st ts
    → Tallies (count_type st t) (t ∷ ts)
unfolding count_type
count_type-Tallies {st} {ts} t h inv = rw (known_if_inferable t h) (record {
  counted = counted-insert st ts t inv;
  keys = keys-insert st ts t inv h;
  total = omega (arith, inv.total);
})

-- The order of the values does not matter.
module _ (ts us : List DataType) (same : (t : DataType) → count ts t ≡ count us t) where
  kinds-same : kinds ts ≡ kinds us
  kinds-same = rw (same string, same timestamp, same date, same bool, same float64, same int64)

  pub Tallies-same :
      {st : ColumnInferenceState} → length ts ≡ length us → Tallies st ts → Tallies st us
  Tallies-same long inv = record {
    counted = λ t. inv.counted t ∙ ap (λ n. if ltb 0 n then some n else none) (same t);
    keys = inv.keys ∙ kinds-same;
    total = inv.total ∙ long;
  }

count_pair-le-length :
    (u v : DataType) (ts : List DataType) → (u == v) ≡ false → count ts u + count ts v ≤ length ts
count_pair-le-length u v [] h = omega arith
count_pair-le-length u v (t ∷ ts) h = ground (arith, count_pair-le-length u v ts h)

-- A count that makes up the whole column leaves no other type.
module _ (ts : List DataType) (u : DataType) (whole : count ts u ≡ length ts) where
  only : (v : DataType) → (u == v) ≡ false → occurs v ts ≡ false
  only v h = ground (arith, count_pair-le-length u v ts h)

not_occurring :
    (u : DataType) (ts : List DataType)
    → All IsInferable ts
    → (¬ IsInferable u)
    → occurs u ts ≡ false
not_occurring u [] h n = refl
not_occurring u (t ∷ ts) h n = elim (Bool-cases (t == u)) [
  | inl same ↦ absurd (n (subst IsInferable ((data_type_eq.eqb_iff t u).0 same) h.0))
  | inr differs ↦ ground (arith, differs, not_occurring u ts h.1 n)
]

not_int32 : ¬ IsInferable int32
not_int32 h = ground arith

not_float32 : ¬ IsInferable float32
not_float32 h = ground arith

-- `range` over a map with one entry visits that entry.
abbrev pub VisitsSingle : (Assoc DataType ℕ → List (DataType × ℕ)) → Type 0
VisitsSingle range = (t : DataType) (c : ℕ) → range ((t, c) ∷ []) ≡ (t, c) ∷ []

module _ (range : Assoc DataType ℕ → List (DataType × ℕ)) (visits : VisitsSingle range)
    (ts : List DataType) where
  first_key-one :
      (m : Assoc DataType ℕ)
      → ((t : DataType) → lookup m t ≡ (if occurs t ts then some (count ts t) else none))
      → length m ≡ 1
      → kinds ts ≡ 1
      → first_key (range m) ≡ decide_type ts
  unfolding first_key lookup
  first_key-one [] counted one single = absurd (omega arith)
  first_key-one ((k, c) ∷ x ∷ m) counted one single = absurd (omega arith)
  first_key-one ((k, c) ∷ []) counted one single = rw (visits k c) (
      ground (
        arith,
        counted string,
        counted timestamp,
        counted date,
        counted bool,
        counted float64,
        counted int64,
      ))

promote-many :
    (counts : DataType → ℕ) (entries : List (DataType × ℕ)) (ts : List DataType)
    → ((u : DataType) → counts u ≡ count ts u)
    → 1 < kinds ts
    → promote counts entries ≡ decide_type ts
unfolding promote
promote-many counts entries ts same many =
    rw (same string, same timestamp, same date, same bool, same int64, same float64) (ground arith)

whole_is_one :
    (ts : List DataType) (u : DataType) → IsInferable u → count ts u ≡ length ts → kinds ts ≤ 1
whole_is_one ts u h whole = ground (
  arith,
  only ts u whole string,
  only ts u whole timestamp,
  only ts u whole date,
  only ts u whole bool,
  only ts u whole float64,
  only ts u whole int64,
)

count_of_tally :
    {st : ColumnInferenceState} {ts : List DataType}
    → Tallies st ts
    → (u : DataType) → count_of st.type_counts u ≡ count ts u
count_of_tally {st} {ts} inv u = ground (arith, inv.counted u)

abbrev pub column_type : List DataType → DataType
column_type ts = get_or (join_all ts) string

not_whole :
    (ts : List DataType) (u : DataType)
    → IsInferable u
    → 1 < kinds ts
    → nat_beq (count ts u) (length ts) ≡ false
not_whole ts u h many = ground (arith, whole_is_one ts u h)

kinds_pos : (t : DataType) (ts : List DataType) → IsInferable t → 0 < kinds (t ∷ ts)
kinds_pos t ts h = ground (arith, some_occurs t ts h)

-- the tests of resolveColumnType before the promotion rules, with what each would return
abbrev ladder : (total len ts d : ℕ) → (first promoted : DataType) → DataType
ladder total len ts d first promoted =
    if nat_beq total 0
    then string
    else if nat_beq len 1
    then first
    else if ltb 0 ts && nat_beq ts total
    then timestamp
    else if ltb 0 d && nat_beq d total
    then date
    else promoted

ladder-one :
    (total len ts d : ℕ) (first promoted : DataType)
    → 0 < total
    → len ≡ 1
    → ladder total len ts d first promoted ≡ first
ladder-one total len ts d first promoted some_value one = ground arith

ladder-many :
    (total len ts d : ℕ) (first promoted : DataType)
    → 0 < total
    → nat_beq len 1 ≡ false
    → nat_beq ts total ≡ false
    → nat_beq d total ≡ false
    → ladder total len ts d first promoted ≡ promoted
ladder-many total len ts d first promoted some_value many not_ts not_d = ground arith

module _ (range : Assoc DataType ℕ → List (DataType × ℕ)) (st : ColumnInferenceState) (t : DataType)
    (us : List DataType) (visits : VisitsSingle range) (inv : Tallies st (t ∷ us))
    (h : All IsInferable (t ∷ us)) where
  abbrev ts : List DataType
  ts = t ∷ us

  some_value : 0 < st.total_non_null
  some_value = omega (arith, inv.total)

  resolve-one : length st.type_counts ≡ 1 → resolve_column_type range st ≡ decide_type ts
  unfolding resolve_column_type
  resolve-one one =
      ladder-one st.total_non_null (length st.type_counts) (count_of st.type_counts timestamp)
        (count_of st.type_counts date) (first_key (range st.type_counts))
        (promote (count_of st.type_counts) (range st.type_counts)) some_value one
      ∙ first_key-one range visits ts st.type_counts inv.counted one (omega (arith, one, inv.keys))

  not_total :
      (u : DataType)
      → IsInferable u
      → 1 < kinds ts
      → nat_beq (count_of st.type_counts u) st.total_non_null ≡ false
  not_total u inferable many = rw (count_of_tally inv u, inv.total) (not_whole ts u inferable many)

  resolve-many :
      nat_beq (length st.type_counts) 1 ≡ false
      → 1 < kinds ts
      → resolve_column_type range st ≡ decide_type ts
  unfolding resolve_column_type
  resolve-many several many =
      ladder-many st.total_non_null (length st.type_counts) (count_of st.type_counts timestamp)
        (count_of st.type_counts date) (first_key (range st.type_counts))
        (promote (count_of st.type_counts) (range st.type_counts)) some_value several
        (not_total timestamp (ground arith) many) (not_total date (ground arith) many)
      ∙ promote-many (count_of st.type_counts) (range st.type_counts) ts (count_of_tally inv) many

  resolve-decide_type : resolve_column_type range st ≡ decide_type ts
  resolve-decide_type = elim (Bool-cases (nat_beq (length st.type_counts) 1)) [
    | inl one ↦ resolve-one ((nat_beq_iff _ _).0 one)
    | inr several ↦ resolve-many several (ground (arith, several, inv.keys, kinds_pos t us h.0))
  ]

resolve-empty :
    (range : Assoc DataType ℕ → List (DataType × ℕ)) (st : ColumnInferenceState)
    → Tallies st []
    → resolve_column_type range st ≡ column_type []
unfolding resolve_column_type join_all
resolve-empty range st inv = ground (arith, inv.total)

-- However `range` orders a map, the type that resolveColumnType picks for a column is the join of
-- the types of its values, and string for a column with none: the choice by the most common type is
-- never reached.
pub resolve_column_type-join-All :
    (range : Assoc DataType ℕ → List (DataType × ℕ)) (st : ColumnInferenceState)
    (ts : List DataType)
    → VisitsSingle range
    → Tallies st ts
    → All IsInferable ts
    → resolve_column_type range st ≡ column_type ts
resolve_column_type-join-All range st [] visits inv h = resolve-empty range st inv
resolve_column_type-join-All range st (t ∷ ts) visits inv h =
    resolve-decide_type range st t ts visits inv h
    ∙ ap (λ o. get_or o string) (sym (join_all-decide_type t ts h))
