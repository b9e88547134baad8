-- ===== src/Tests/Listing.antt =====
-- A concrete listing of runs, two pages of it.
use datuplet.Prelude.{
  Bool, List, Option, Text, [], ap, contains, false, length, nat_eq, none, ok, refl, some, suc,
  zero, ℕ, ◌∷◌, ◌≡◌,
}
use datuplet.Runs.Pages.{Codec, RunListOpts, RunRow, all_runs, is_before, passes}
use datuplet.Runs.Pages.Cursor.{IsCodec}
use datuplet.Runs.Pages.Complete.{all_runs_complete}

-- texts of numbers with as many bytes as they say
abbrev unary : ℕ → Text
unary zero = []
unary (suc n) = 49 ∷ unary n

length-unary : (n : ℕ) → length (unary n) ≡ n
length-unary zero = refl
length-unary (suc n) = ap suc (length-unary n)

contains-unary : (n : ℕ) → contains (unary n) 124 ≡ false
contains-unary zero = refl
contains-unary (suc n) = contains-unary n

abbrev decode : Text → Option Text
decode [] = none
decode (c ∷ s) = some s

abbrev codec : Codec
codec = record {
  format_time = unary;
  parse_time = λ s. some (length s);
  format_id = unary;
  parse_id = λ s. some (length s);
  base64_encode = λ s. 33 ∷ s;
  base64_decode = decode;
}

codec-IsCodec : IsCodec codec
codec-IsCodec = record {
  base64 = λ s. refl;
  base64_full = λ s h. refl;
  time = λ t. ap some (length-unary t);
  ids = λ i. ap some (length-unary i);
  no_bar = contains-unary;
}

abbrev run_at : ℕ → ℕ → RunRow
run_at created_at id = record {
  id = id;
  pipeline_id = 1;
  pipeline_name = [];
  phase = [];
  created_at = created_at;
}

abbrev listed : List RunRow
listed = run_at 9 2 ∷ run_at 9 1 ∷ run_at 4 3 ∷ []

abbrev two_each : RunListOpts
two_each = record { limit = 2; cursor = []; pipeline_substr = []; pipeline_id = none; phase = [] }

abbrev no_ilike : Text → Text → Bool
no_ilike name pattern = false

all_runs_complete_example : all_runs codec no_ilike listed 4 two_each ≡ ok listed
unfolding is_before all_runs passes
all_runs_complete_example =
    all_runs_complete codec no_ilike listed two_each codec-IsCodec
      ((refl, (refl, tt)), ((refl, tt), (tt, tt)))
