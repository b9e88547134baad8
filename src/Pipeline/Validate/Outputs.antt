-- ===== src/Pipeline/Validate/Outputs.antt =====
-- validateOutputs, validateProcessors, validatePartitionSpec and validateColumnSpec of
-- pkg/pipeline/validate/validate.go.
use datuplet.Prelude.{
  Assoc, Bool, List, Option, Text, [], bytes, contains, if◌then◌else◌, insert, is_empty, is_some,
  lookup, none, not, show_nat, some, text_eq, ℕ, ◌&&◌, ◌++◌, ◌+◌, ◌==◌, ◌||◌, ◌∷◌,
}
use datuplet.Pipeline.{
  ColumnSpec, Finding, OutputBucketSpec, OutputSpec, OutputTableSpec, PartitionFieldSpec,
  ProcessorSpec, error,
}
use datuplet.Pipeline.Validate.{Libraries, Transform, finding, unless_empty, when}
use datuplet.Pipeline.Validate.Names.{bucket_name_error, table_name_error, write_mode_error}

-- the transform, if iceberg-go knows it and its text is the canonical one
unfoldable pub parse_partition_transform : Libraries → Text → Option Transform
parse_partition_transform lib s = elim (lib.parse_transform s) [
  | none ↦ none
  | some tr ↦ if tr.is_unknown || not (tr.canonical == s) then none else some tr
]

module _ (lib : Libraries) (comp table base : Text) where
  -- what is found of a field by itself
  unfoldable pub partition_field_findings : ℕ → PartitionFieldSpec → List Finding
  unfolding parse_partition_transform
  partition_field_findings i field =
      let path = base ++ (bytes ".partitionFields[" ++ (show_nat i ++ bytes "]")) in
      let where_ =
        bytes "component "
        ++ (comp
            ++ (bytes ", output table "
                ++ (table ++ (bytes ", partitionSpec[" ++ (show_nat i ++ bytes "]: "))))) in
      when (is_empty field.source_column) (
        finding error (path ∷ (bytes ".sourceColumn" ∷ []))
          (where_ ∷ (bytes "source_column is required" ∷ [])))
      ++ (when (is_empty field.transform) (
            finding error (path ∷ (bytes ".transform" ∷ []))
              (where_ ∷ (bytes "transform is required" ∷ [])))
          ++ when
              (not (is_empty field.transform)
                && not (is_some (parse_partition_transform lib field.transform)))
              (finding error (path ∷ (bytes ".transform" ∷ [])) (
                where_
                ∷ (bytes "invalid transform "
                    ∷ (lib.quote field.transform
                        ∷ (bytes
                              " (supported: identity, year, month, day, hour, void, bucket[N], truncate[W]; N and W integers 1-2147483647)"
                            ∷ []))))))

  -- the findings of the field against the ones before it, and the two maps with it
  unfoldable pub repeated_findings :
      ℕ → Text → Transform → List Text → Assoc Text Text → List Finding
  repeated_findings i source tr seen times =
      let path = base ++ (bytes ".partitionFields[" ++ (show_nat i ++ bytes "]")) in
      let where_ =
        bytes "component "
        ++ (comp ++ (bytes ", output table " ++ (table ++ bytes ", partitionSpec: "))) in
      when (contains seen (source ++ (0 ∷ tr.canonical))) (
        finding error (path ∷ []) (
          where_
          ∷ (bytes "duplicate partition field "
              ∷ (tr.canonical ∷ (bytes "(" ∷ (source ∷ (bytes ")" ∷ [])))))))
      ++ elim (lookup times source) [
        | none ↦ []
        | some prev ↦ when (tr.is_time && not (prev == tr.canonical)) (
            finding error (path ∷ (bytes ".transform" ∷ [])) (
              where_
              ∷ (prev
                  ∷ (bytes "("
                      ∷ (source
                          ∷ (bytes ") and "
                              ∷ (tr.canonical
                                  ∷ (bytes "("
                                      ∷ (source
                                          ∷ (bytes
                                                ") are redundant; use one time transform per column"
                                              ∷ []))))))))))
      ]

  unfoldable pub partition_findings :
      ℕ → List PartitionFieldSpec → List Text → Assoc Text Text → List Finding
  unfolding partition_field_findings repeated_findings
  partition_findings i [] seen times = []
  partition_findings i (field ∷ fields) seen times =
      partition_field_findings i field ++ elim (parse_partition_transform lib field.transform) [
        | none ↦ partition_findings (i + 1) fields seen times
        | some tr ↦
            if is_empty field.source_column
            then partition_findings (i + 1) fields seen times
            else repeated_findings i field.source_column tr seen times
              ++ partition_findings (i + 1) fields
                  ((field.source_column ++ (0 ∷ tr.canonical)) ∷ seen)
                  (if tr.is_time then insert times field.source_column tr.canonical else times)
      ]

  unfoldable pub validate_partition_spec : List PartitionFieldSpec → List Finding
  unfolding partition_findings
  validate_partition_spec fields = partition_findings 0 fields [] []

  unfoldable pub valid_column_type : Text → Bool
  valid_column_type t =
      contains
        (bytes "int"
          ∷ (bytes "long"
              ∷ (bytes "float"
                  ∷ (bytes "double"
                      ∷ (bytes "boolean" ∷ (bytes "string" ∷ (bytes "variant" ∷ [])))))))
        t

  unfoldable pub column_findings : ℕ → List ColumnSpec → List Text → List Finding
  unfolding valid_column_type
  column_findings i [] seen = []
  column_findings i (col ∷ cols) seen =
      let path = base ++ (bytes ".columns[" ++ (show_nat i ++ bytes "]")) in
      let where_ = bytes "component " ++ (comp ++ (bytes ", output table " ++ table)) in
      let index = bytes ", columns[" ++ (show_nat i ++ bytes "]: ") in
      (if is_empty col.name
        then finding error (path ∷ (bytes ".name" ∷ []))
            (where_ ∷ (index ∷ (bytes "name is required" ∷ [])))
          ∷ []
        else when (contains seen col.name) (
            finding error (path ∷ (bytes ".name" ∷ []))
              (where_ ∷ (bytes ", columns: duplicate column name " ∷ (lib.quote col.name ∷ [])))))
      ++ (when (not (valid_column_type col.column_type)) (
            finding error (path ∷ (bytes ".type" ∷ [])) (
              where_
              ∷ (index
                  ∷ (bytes "invalid type "
                      ∷ (lib.quote col.column_type
                          ∷ (bytes
                                " (supported: int, long, float, double, boolean, string, variant)"
                              ∷ []))))))
          ++ column_findings (i + 1) cols
              (if is_empty col.name || contains seen col.name then seen else col.name ∷ seen))

  unfoldable pub validate_column_spec : List ColumnSpec → List Finding
  unfolding column_findings
  validate_column_spec cols = column_findings 0 cols []

module _ (lib : Libraries) (comp base : Text) where
  unfoldable pub validate_processors : ℕ → List ProcessorSpec → List Finding
  validate_processors i [] = []
  validate_processors i (proc ∷ procs) =
      let path = base ++ (bytes ".processors[" ++ (show_nat i ++ bytes "]")) in
      let where_ =
        bytes "component " ++ (comp ++ (bytes ", processor " ++ (show_nat i ++ bytes ": "))) in
      (if not (proc.processor_type == bytes "drop")
        then finding error (path ∷ (bytes ".type" ∷ [])) (
            where_
            ∷ (bytes "invalid type "
                ∷ (lib.quote proc.processor_type ∷ (bytes " (supported: drop)" ∷ []))))
          ∷ []
        else when (is_empty proc.columns) (
            finding error (path ∷ (bytes ".columns" ∷ []))
              (where_ ∷ (bytes "drop requires columns" ∷ []))))
      ++ validate_processors (i + 1) procs

  unfoldable pub output_bucket_findings : ℕ → List OutputBucketSpec → List Finding
  unfolding bucket_name_error write_mode_error
  output_bucket_findings i [] = []
  output_bucket_findings i (b ∷ buckets) =
      let path = base ++ (bytes ".buckets[" ++ (show_nat i ++ bytes "]")) in
      let where_ = bytes "component " ++ (comp ++ bytes ", output bucket ") in
      unless_empty (bucket_name_error lib.quote b.name) (λ m.
        finding error (path ∷ (bytes ".name" ∷ []))
          (where_ ∷ (show_nat i ∷ (bytes ": " ∷ (m ∷ [])))))
      ++ (unless_empty (write_mode_error lib.quote b.write_mode) (λ m.
            finding error (path ∷ (bytes ".writeMode" ∷ []))
              (where_ ∷ (b.name ∷ (bytes ": " ∷ (m ∷ [])))))
          ++ output_bucket_findings (i + 1) buckets)

  unfoldable pub output_table_findings : ℕ → List OutputTableSpec → List Finding
  unfolding table_name_error bucket_name_error write_mode_error validate_partition_spec
      validate_column_spec
  output_table_findings i [] = []
  output_table_findings i (t ∷ tables) =
      let path = base ++ (bytes ".tables[" ++ (show_nat i ++ bytes "]")) in
      let where_ = bytes "component " ++ (comp ++ bytes ", output table ") in
      (if is_empty t.name
        then finding error (path ∷ (bytes ".name" ∷ []))
            (where_ ∷ (show_nat i ∷ (bytes ": name is required" ∷ [])))
          ∷ []
        else unless_empty (table_name_error lib.quote t.name) (λ m.
          finding error (path ∷ (bytes ".name" ∷ []))
            (where_ ∷ (show_nat i ∷ (bytes ": " ∷ (m ∷ []))))))
      ++ (unless_empty (bucket_name_error lib.quote t.bucket) (λ m.
            finding error (path ∷ (bytes ".bucket" ∷ []))
              (where_ ∷ (t.name ∷ (bytes " bucket: " ∷ (m ∷ [])))))
          ++ (unless_empty (write_mode_error lib.quote t.write_mode) (λ m.
                finding error (path ∷ (bytes ".writeMode" ∷ []))
                  (where_ ∷ (t.name ∷ (bytes ": " ∷ (m ∷ [])))))
              ++ (validate_partition_spec lib comp t.name path t.partition_fields
                  ++ (validate_column_spec lib comp t.name path t.columns
                      ++ output_table_findings (i + 1) tables))))

  unfoldable pub validate_outputs : OutputSpec → List Finding
  unfolding output_bucket_findings output_table_findings validate_processors
  validate_outputs out =
      let has_default = not (is_empty out.default_bucket) in
      when (has_default && (not (is_empty out.buckets) || not (is_empty out.tables))) (
        finding error (base ∷ []) (
          bytes "component "
          ∷ (comp
              ∷ (bytes ": defaultBucket is exclusive, cannot be combined with buckets or tables"
                  ∷ []))))
      ++ ((if has_default
            then unless_empty (bucket_name_error lib.quote out.default_bucket) (λ m.
              finding error (base ∷ (bytes ".defaultBucket" ∷ []))
                (bytes "component " ∷ (comp ∷ (bytes ", defaultBucket: " ∷ (m ∷ [])))))
              ++ unless_empty (write_mode_error lib.quote out.default_write_mode) (λ m.
                finding error (base ∷ (bytes ".defaultWriteMode" ∷ []))
                  (bytes "component " ∷ (comp ∷ (bytes ", defaultWriteMode: " ∷ (m ∷ [])))))
            else [])
          ++ (output_bucket_findings 0 out.buckets
              ++ (output_table_findings 0 out.tables ++ validate_processors 0 out.processors)))
