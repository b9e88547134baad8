-- ===== src/Runs/Pages.antt =====
-- ListRunsPage of pkg/pipelineapi/store/run.go and the cursor of cursor.go beside it. The database holds
-- the project's rows in the order of the query, created_at and id descending; an id is a number, as
-- Postgres orders uuids. ILIKE, base64 and the texts of instants and ids are parameters.
pub mod Cursor
pub mod Cuts
pub mod Complete
use datuplet.Prelude.{
  Bool, List, Option, Result, Text, [], err, filter, get_elem?, if◌then◌else◌, is_empty, length,
  ltb, nat_beq, none, ok, some, suc, take, text_eq, true, zero, ℕ, ◌&&◌, ◌++◌, ◌+◌, ◌-◌, ◌==◌,
  ◌>>=◌, ◌||◌, ◌∷◌,
}

pub record RunRow : Type 0 where
  pub id : ℕ
  pub pipeline_id : ℕ
  pub pipeline_name : Text
  pub phase : Text
  pub created_at : ℕ

pub record Codec : Type 0 where
  pub format_time : ℕ → Text
  pub parse_time : Text → Option ℕ
  pub format_id : ℕ → Text
  pub parse_id : Text → Option ℕ
  pub base64_encode : Text → Text
  pub base64_decode : Text → Option Text

-- `pipeline_id`: none is uuid.Nil
pub record RunListOpts : Type 0 where
  pub limit : ℕ
  pub cursor : Text
  pub pipeline_substr : Text
  pub pipeline_id : Option ℕ
  pub phase : Text

pub record RunPage : Type 0 where
  pub runs : List RunRow
  pub next_cursor : Text

pub data PageError : Type 0 where
  bad_cursor : PageError
  no_end : PageError

-- strings.SplitN(s, "|", 2): what stands before the first bar and after it
unfoldable split_bar : Text → Option (Text × Text)
split_bar [] = none
split_bar (c ∷ s) =
    if nat_beq c 124
    then some ([], s)
    else elim (split_bar s) [ none ↦ none | some (a, b) ↦ some (c ∷ a, b) ]

unfoldable pub encode_cursor : Codec → ℕ → ℕ → Text
encode_cursor k t id = k.base64_encode (k.format_time t ++ (124 ∷ k.format_id id))

abbrev both_parts : Option ℕ → Option ℕ → Option (ℕ × ℕ)
both_parts (some t) (some i) = some (t, i)
both_parts _ _ = none

abbrev parse_parts : Codec → Option (Text × Text) → Option (ℕ × ℕ)
parse_parts k none = none
parse_parts k (some (a, b)) = both_parts (k.parse_time a) (k.parse_id b)

abbrev parse_raw : Codec → Option Text → Option (ℕ × ℕ)
parse_raw k none = none
parse_raw k (some raw) = parse_parts k (split_bar raw)

unfoldable pub decode_cursor : Codec → Text → Option (ℕ × ℕ)
unfolding split_bar
decode_cursor k s = parse_raw k (k.base64_decode s)

unfoldable pub clamp_limit : ℕ → ℕ
clamp_limit limit = if nat_beq limit 0 then 50 else if ltb 200 limit then 200 else limit

-- (created_at, id) < (t, i)
unfoldable pub is_before : ℕ × ℕ → RunRow → Bool
is_before (t, i) r = ltb r.created_at t || nat_beq r.created_at t && ltb r.id i

-- the filters of the options
unfoldable pub passes : (Text → Text → Bool) → RunListOpts → RunRow → Bool
passes ilike o r =
    (elim o.pipeline_id [ none ↦ true | some p ↦ nat_beq r.pipeline_id p ])
    && (is_empty o.phase || r.phase == o.phase)
    && (is_empty o.pipeline_substr || ilike r.pipeline_name o.pipeline_substr)

-- what follows the query, on its rows, at most one more than the limit
unfoldable cut_page : Codec → ℕ → List RunRow → RunPage
cut_page k limit out =
    if ltb limit (length out)
    then record {
      runs = take limit out;
      next_cursor = elim (get_elem? out (limit - 1)) [
        | none ↦ []
        | some r ↦ encode_cursor k r.created_at r.id
      ];
    }
    else record { runs = out; next_cursor = [] }

-- the rows after a cursor
abbrev after : Option (ℕ × ℕ) → List RunRow → List RunRow
after none rows = rows
after (some c) rows = filter (is_before c) rows

-- the cursor of the options, `none` at the start; a bad one is an error
unfoldable read_cursor : Codec → Text → Result PageError (Option (ℕ × ℕ))
unfolding decode_cursor
read_cursor k [] = ok none
read_cursor k (c ∷ s) = elim (decode_cursor k (c ∷ s)) [
  | none ↦ err bad_cursor
  | some p ↦ ok (some p)
]

unfoldable pub list_runs_page :
    Codec → (Text → Text → Bool) → List RunRow → RunListOpts → Result PageError RunPage
unfolding cut_page read_cursor
list_runs_page k ilike rows o = read_cursor k o.cursor >>= λ c. ok (
    cut_page k (clamp_limit o.limit)
      (take (clamp_limit o.limit + 1) (after c (filter (passes ilike o) rows))))

-- a client that follows the cursors, for at most so many pages
unfoldable pub all_runs :
    Codec → (Text → Text → Bool) → List RunRow → ℕ → RunListOpts → Result PageError (List RunRow)
all_runs k ilike rows zero o = err no_end
all_runs k ilike rows (suc n) o = list_runs_page k ilike rows o >>= λ page.
    let rest = all_runs k ilike rows n (record o { cursor = page.next_cursor }) in
    if is_empty page.next_cursor then ok page.runs else (rest >>= λ more. ok (page.runs ++ more))
