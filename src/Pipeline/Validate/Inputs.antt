-- ===== src/Pipeline/Validate/Inputs.antt =====
-- validateInputs of pkg/pipeline/validate/validate.go. The two maps of what is available hold their keys.
use datuplet.Prelude.{
  Bool, List, Text, [], bytes, contains, false, if◌then◌else◌, is_empty, is_some, ltb, map, nat_eq,
  none, not, show_nat, some, text_eq, true, ℕ, ◌&&◌, ◌++◌, ◌+◌, ◌∷◌,
}
use datuplet.Pipeline.{
  Finding, InputSpec, InputTableSpec, OutputSpec, error, negsuc, pos, warning, ℤ,
}
use datuplet.Pipeline.Validate.{Libraries, finding, unless_empty, when}
use datuplet.Pipeline.Validate.Names.{bucket_name_error, since_error, table_name_error}

-- the tables, each "bucket.table", and the buckets that components seen so far write
pub record Available : Type 0 where
  pub tables : List Text
  pub buckets : List Text

unfoldable pub is_positive : ℤ → Bool
is_positive (pos n) = ltb 0 n
is_positive (negsuc n) = false

unfoldable pub show_int : ℤ → Text
show_int (pos n) = show_nat n
show_int (negsuc n) = 45 ∷ show_nat (n + 1)

abbrev pub one_if : Bool → ℕ
one_if true = 1
one_if false = 0

module _ (lib : Libraries) (available : Available) (comp base : Text) (stage_idx : ℕ) where
  unfoldable pub input_bucket_findings : ℕ → List Text → List Finding
  unfolding bucket_name_error
  input_bucket_findings k [] = []
  input_bucket_findings k (b ∷ buckets) =
      let path = base ++ (bytes ".buckets[" ++ (show_nat k ++ bytes "]")) in
      unless_empty (bucket_name_error lib.quote b) (λ m.
        finding error (path ∷ [])
          (bytes "component " ∷ (comp ∷ (bytes ", input bucket: " ∷ (m ∷ [])))))
      ++ (when (ltb 0 stage_idx && not (contains available.buckets b)) (
            finding error (path ∷ []) (
              bytes "component "
              ∷ (comp
                  ∷ (bytes ": input bucket "
                      ∷ (lib.quote b ∷ (bytes " not available from previous stages" ∷ []))))))
          ++ input_bucket_findings (k + 1) buckets)

  -- the checks of since, sinceSnapshot and sinceDays
  unfoldable pub since_findings : Text → InputTableSpec → List Finding
  unfolding since_error is_positive show_int
  since_findings path t =
      let where_ =
        bytes "component "
        ++ (comp
            ++ (bytes ", input table " ++ (t.bucket ++ (bytes "." ++ (t.table ++ bytes ": "))))) in
      when
        (ltb 1 (
          one_if (not (is_empty t.since))
          + one_if (is_some t.since_snapshot)
          + one_if (is_some t.since_days)))
        (finding error (path ∷ [])
          (where_ ∷ (bytes "since, sinceSnapshot and sinceDays are mutually exclusive" ∷ [])))
      ++ ((if is_empty t.since
            then []
            else unless_empty (since_error lib.quote lib.parse_duration t.since)
                (λ m. finding error (path ∷ (bytes ".since" ∷ [])) (where_ ∷ (m ∷ []))))
          ++ elim t.since_days [
            | none ↦ []
            | some days ↦ when (not (is_positive days)) (
                finding error (path ∷ (bytes ".sinceDays" ∷ [])) (
                  where_
                  ∷ (bytes "sinceDays must be positive (got "
                      ∷ (show_int days ∷ (bytes ")" ∷ [])))))
          ])

  unfoldable pub input_table_findings : ℕ → List InputTableSpec → List Finding
  unfolding bucket_name_error table_name_error since_findings
  input_table_findings k [] = []
  input_table_findings k (t ∷ tables) =
      let path = base ++ (bytes ".tables[" ++ (show_nat k ++ bytes "]")) in
      let key = t.bucket ++ (bytes "." ++ t.table) in
      unless_empty (bucket_name_error lib.quote t.bucket) (λ m.
        finding error (path ∷ (bytes ".bucket" ∷ []))
          (bytes "component " ∷ (comp ∷ (bytes ", input table bucket: " ∷ (m ∷ [])))))
      ++ (unless_empty (table_name_error lib.quote t.table) (λ m.
            finding error (path ∷ (bytes ".table" ∷ []))
              (bytes "component " ∷ (comp ∷ (bytes ", input table: " ∷ (m ∷ [])))))
          ++ (since_findings path t
              ++ (when
                    (ltb 0 stage_idx
                      && (not (contains available.tables key)
                          && not (contains available.buckets t.bucket)))
                    (finding warning (path ∷ []) (
                      bytes "component "
                      ∷ (comp
                          ∷ (bytes ": input table "
                              ∷ (lib.quote key
                                  ∷ (bytes
                                        " not produced by an earlier stage — assumed to pre-exist in storage; the run fails at read time if it doesn't"
                                      ∷ []))))))
                  ++ input_table_findings (k + 1) tables)))

  unfoldable pub validate_inputs : InputSpec → List Finding
  unfolding input_bucket_findings input_table_findings
  validate_inputs inp = input_bucket_findings 0 inp.buckets ++ input_table_findings 0 inp.tables

unfoldable pub available_buckets : OutputSpec → List Text
available_buckets out =
    if not (is_empty out.default_bucket)
    then out.default_bucket ∷ []
    else map (λ b. b.name) out.buckets ++ map (λ t. t.bucket) out.tables

unfoldable pub register_outputs : OutputSpec → Available → Available
unfolding available_buckets
register_outputs out available = record {
  buckets = available_buckets out ++ available.buckets;
  tables =
      (if not (is_empty out.default_bucket)
        then []
        else map (λ t. t.bucket ++ (bytes "." ++ t.name)) out.tables)
      ++ available.tables;
}
