-- ===== src/Pipeline/Validate/Clean.antt =====
-- Findings of pkg/pipeline/validate without an error, as firstErrorFinding of
-- pkg/k8s/controllers/pipelinerun_controller.go reads them.
use datuplet.Prelude.{
  Bool, Bool-cases, List, Text, [], all, any, any-append, arith, false, inl, inr, is_empty, map,
  none, not, refl, sym, text_eq, true, ℕ, ◌++◌, ◌+◌, ◌||◌, ◌∷◌, ◌≡◌,
}
use datuplet.Pipeline.{Finding, OutputBucketSpec, OutputSpec, OutputTableSpec, error}
use datuplet.Pipeline.Validate.{Libraries, finding, unless_empty, when}
use datuplet.Controller.Findings.{first_error_finding, is_error}
use datuplet.Pipeline.Validate.Names.{bucket_name_error, matches_bucket_name}
use datuplet.Pipeline.Validate.Outputs.{
  output_bucket_findings, output_table_findings, validate_outputs,
}
use datuplet.Pipeline.Validate.Inputs.{available_buckets}

unfoldable pub has_error : List Finding → Bool
has_error fs = any (λ f. is_error f.severity) fs

pub first_error_finding-none :
    (fs : List Finding) → first_error_finding fs ≡ none → has_error fs ≡ false
unfolding first_error_finding has_error
first_error_finding-none [] h = refl
first_error_finding-none (f ∷ fs) h = elim (Bool-cases (is_error f.severity)) [
  | inl e ↦ absurd (ground (arith, h, e))
  | inr e ↦ ground (arith, first_error_finding-none fs (ground (arith, h, e)), e)
]

pub has_error-append :
    (xs ys : List Finding) → has_error (xs ++ ys) ≡ (has_error xs || has_error ys)
unfolding has_error
has_error-append xs ys = any-append (λ f. is_error f.severity) xs ys

pub has_error-split :
    (xs ys : List Finding)
    → has_error (xs ++ ys) ≡ false
    → (has_error xs ≡ false) × (has_error ys ≡ false)
has_error-split xs ys h = ground (arith, has_error-append xs ys, h)

pub has_error-when :
    (b : Bool) (path message : List Text) → has_error (when b (finding error path message)) ≡ b
unfolding has_error
has_error-when true path message = refl
has_error-when false path message = refl

pub has_error-unless_empty :
    (m : Text) (path : List Text) (message : Text → List Text)
    → has_error (unless_empty m (λ t. finding error path (message t))) ≡ not (is_empty m)
unfolding has_error
has_error-unless_empty [] path message = refl
has_error-unless_empty (c ∷ m) path message = refl

pub has_error-nil : has_error [] ≡ false
unfolding has_error
has_error-nil = refl

pub ruleset errors = (has_error-append, has_error-when, has_error-unless_empty, has_error-nil)

bucket_name_error-matches :
    (quote : Text → Text) (name : Text)
    → is_empty (bucket_name_error quote name) ≡ true
    → matches_bucket_name name ≡ true
unfolding bucket_name_error
bucket_name_error-matches quote name h = ground (arith, h)

all-append :
    {A : Type 0} (p : A → Bool) (xs ys : List A)
    → all p xs ≡ true
    → all p ys ≡ true
    → all p (xs ++ ys) ≡ true
all-append p [] ys h k = k
all-append p (x ∷ xs) ys h k = ground (arith, h, all-append p xs ys (ground (arith, h)) k)

module _ (lib : Libraries) (comp base : Text) where
  valid_buckets :
      (i : ℕ) (bs : List OutputBucketSpec)
      → has_error (output_bucket_findings lib comp base i bs) ≡ false
      → all matches_bucket_name (map (λ b. b.name) bs) ≡ true
  unfolding output_bucket_findings
  valid_buckets i [] h = refl
  valid_buckets i (b ∷ bs) h =
      let flat = simp errors at h in
      let named = bucket_name_error-matches lib.quote b.name (ground (arith, flat)) in
      ground (arith, named, valid_buckets (i + 1) bs (ground (arith, flat)))

  valid_tables :
      (i : ℕ) (ts : List OutputTableSpec)
      → has_error (output_table_findings lib comp base i ts) ≡ false
      → all matches_bucket_name (map (λ t. t.bucket) ts) ≡ true
  unfolding output_table_findings
  valid_tables i [] h = refl
  valid_tables i (t ∷ ts) h =
      let flat = simp errors at h in
      let named = bucket_name_error-matches lib.quote t.bucket (ground (arith, flat)) in
      ground (arith, named, valid_tables (i + 1) ts (ground (arith, flat)))

  valid_default :
      (d : Text) (out : OutputSpec)
      → d ≡ out.default_bucket
      → is_empty d ≡ false
      → has_error (validate_outputs lib comp base out) ≡ false
      → matches_bucket_name d ≡ true
  unfolding validate_outputs
  valid_default d out same e h =
      let flat = simp (errors, sym same, e) at h in
      bucket_name_error-matches lib.quote d (ground (arith, flat))

  pub validate_outputs-valid :
      (out : OutputSpec)
      → has_error (validate_outputs lib comp base out) ≡ false
      → all matches_bucket_name (available_buckets out) ≡ true
  unfolding validate_outputs available_buckets
  validate_outputs-valid out h =
      let flat = simp errors at h in
      elim (Bool-cases (is_empty out.default_bucket)) [
        | inl e ↦ rw e (
            all-append matches_bucket_name (map (λ b. b.name) out.buckets)
              (map (λ t. t.bucket) out.tables) (valid_buckets 0 out.buckets (ground (arith, flat)))
              (valid_tables 0 out.tables (ground (arith, flat))))
        | inr e ↦ rw e (ground (arith, valid_default out.default_bucket out refl e h))
      ]
