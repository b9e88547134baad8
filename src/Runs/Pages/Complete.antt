-- ===== src/Runs/Pages/Complete.antt =====
-- Following the cursors of ListRunsPage (pkg/pipelineapi/store/run.go).
use datuplet.Prelude.{
  All, Bool, Bool-cases, List, Option, Result, Text, [], ap, arith, false, filter, if◌then◌else◌,
  inl, inr, is_empty, length, length-append, ltb, none, ok, refl, some, subst, suc, sym, take, true,
  zero, ℕ, ◌++◌, ◌+◌, ◌-◌, ◌<◌, ◌>>=◌, ◌∙◌, ◌∷◌, ◌≡◌,
}
use datuplet.Runs.Pages.{
  Codec, PageError, RunListOpts, RunPage, RunRow, after, all_runs, clamp_limit, cut_page,
  decode_cursor, encode_cursor, is_before, list_runs_page, passes, read_cursor,
}
use datuplet.Runs.Pages.Cursor.{IsCodec, decode_cursor-encode_cursor, is_empty-encode_cursor}
use datuplet.Runs.Pages.Cuts.{
  Cut, Descends, after-split, append_assoc, cut, page-last, page-more, pair,
}

module _ (K : Codec) (good : IsCodec K) (ilike : Text → Text → Bool) (rows : List RunRow)
    (o : RunListOpts) (k : ℕ) (size : clamp_limit o.limit ≡ suc k)
    (descends : Descends (filter (passes ilike o) rows)) where
  abbrev at_cursor : Text → RunListOpts
  at_cursor s = record o { cursor = s }

  page_at :
      (s : Text) (c : Option (ℕ × ℕ)) (suf : List RunRow)
      → read_cursor K s ≡ ok c
      → after c (filter (passes ilike o) rows) ≡ suf
      → list_runs_page K ilike rows (at_cursor s) ≡ ok (cut_page K (suc k) (take (suc (suc k)) suf))
  unfolding list_runs_page passes
  page_at s c suf h e =
      let more : clamp_limit o.limit + 1 ≡ suc (suc k) = omega (arith, size) in
      ap
        (λ r. r >>= λ d. ok (
          cut_page K (clamp_limit o.limit)
            (take (clamp_limit o.limit + 1) (after d (filter (passes ilike o) rows)))))
        h
      ∙ ap (λ l. ok (cut_page K (clamp_limit o.limit) (take (clamp_limit o.limit + 1) l))) e
      ∙ ap (λ n. ok (cut_page K (clamp_limit o.limit) (take n suf))) more
      ∙ ap (λ n. ok (cut_page K n (take (suc (suc k)) suf))) size

  abbrev follow : ℕ → Result PageError RunPage → Result PageError (List RunRow)
  follow n r = r >>= λ page.
      let rest = all_runs K ilike rows n (at_cursor page.next_cursor) in
      if is_empty page.next_cursor then ok page.runs else (rest >>= λ more. ok (page.runs ++ more))

  read_full :
      (s : Text) (p : ℕ × ℕ)
      → is_empty s ≡ false
      → decode_cursor K s ≡ some p
      → read_cursor K s ≡ ok (some p)
  unfolding read_cursor
  read_full [] p h d = absurd (cc)
  read_full (c ∷ s) p h d = ground (arith, d)

  read_encoded :
      (r : RunRow) → read_cursor K (encode_cursor K r.created_at r.id) ≡ ok (some (pair r))
  read_encoded r =
      read_full _ (pair r) (is_empty-encode_cursor K good r.created_at r.id)
        (decode_cursor-encode_cursor K good r.created_at r.id)

  Walks : ℕ → Type 0
  Walks n =
      (s : Text) (c : Option (ℕ × ℕ)) (pre suf : List RunRow)
      → read_cursor K s ≡ ok c
      → after c (filter (passes ilike o) rows) ≡ suf
      → filter (passes ilike o) rows ≡ pre ++ suf
      → length suf < n
      → all_runs K ilike rows n (at_cursor s) ≡ ok suf

  walk_next :
      (n : ℕ) (pre suf : List RunRow) (x : Cut k suf)
      → Walks n
      → filter (passes ilike o) rows ≡ pre ++ suf
      → length suf < suc n
      → all_runs K ilike rows n (at_cursor (encode_cursor K x.at.created_at x.at.id)) ≡ ok x.back
  unfolding Walks
  walk_next n pre suf x ih w b =
      let joined : filter (passes ilike o) rows ≡ (pre ++ x.front) ++ (x.at ∷ x.back) =
        w ∙ ap (λ l. pre ++ l) x.whole ∙ sym (append_assoc pre x.front (x.at ∷ x.back)) in
      ih (encode_cursor K x.at.created_at x.at.id) (some (pair x.at))
        ((pre ++ x.front) ++ (x.at ∷ [])) x.back (read_encoded x.at)
        (ap (filter (is_before (pair x.at))) joined
          ∙ after-split (pre ++ x.front) x.at x.back (subst Descends joined descends))
        (joined ∙ sym (append_assoc (pre ++ x.front) (x.at ∷ []) x.back))
        (omega (arith, b, ap length x.whole, length-append x.front (x.at ∷ x.back)))

  follow_more :
      (n : ℕ) (suf : List RunRow) (x : Cut k suf)
      → all_runs K ilike rows n (at_cursor (encode_cursor K x.at.created_at x.at.id)) ≡ ok x.back
      → follow n (
          ok (record {
            runs = x.front ++ (x.at ∷ []);
            next_cursor = encode_cursor K x.at.created_at x.at.id;
          }))
        ≡ ok suf
  follow_more n suf x h =
      let full = is_empty-encode_cursor K good x.at.created_at x.at.id in
      let joined = append_assoc x.front (x.at ∷ []) x.back ∙ sym x.whole in
      ground (arith, full, h, joined)

  walk : (n : ℕ) → Walks n
  unfolding Walks all_runs
  walk zero s c pre suf h e w b = absurd (omega arith)
  walk (suc n) s c pre suf h e w b =
      let page = ap (follow n) (page_at s c suf h e) in
      elim (Bool-cases (ltb (suc k) (length suf))) [
        | inr small ↦ page ∙ ap (λ p. follow n (ok p)) (page-last K k suf (ground (arith, small)))
        | inl big ↦
            let longer : suc k < length suf = ground (arith, big) in
            let x = cut k suf longer in
            page
            ∙ ap (λ p. follow n (ok p)) (page-more K k suf x longer)
            ∙ follow_more n suf x (walk_next n pre suf x (walk n) w b)
      ]

filter-All :
    (p : RunRow → Bool) (P : RunRow → Type 0) (rs : List RunRow) → All P rs → All P (filter p rs)
filter-All p P [] h = tt
filter-All p P (r ∷ rs) h =
    elim (p r) as (λ b. All P (if b then r ∷ filter p rs else filter p rs)) [
      | true ↦ (h.0, filter-All p P rs h.1)
      | false ↦ filter-All p P rs h.1
    ]

filter-Descends : (p : RunRow → Bool) (rs : List RunRow) → Descends rs → Descends (filter p rs)
filter-Descends p [] h = tt
filter-Descends p (r ∷ rs) h =
    elim (p r) as (λ b. Descends (if b then r ∷ filter p rs else filter p rs)) [
      | true ↦ (filter-All p (λ s. is_before (pair r) s ≡ true) rs h.0, filter-Descends p rs h.1)
      | false ↦ filter-Descends p rs h.1
    ]

clamp_limit-positive : (limit : ℕ) → 0 < clamp_limit limit
unfolding clamp_limit
clamp_limit-positive limit = ground arith

-- Following the cursors from the start, over rows in the order of the query, gives every run that
-- passes the filters once and in order, whatever the page size, and needs no more pages than there
-- are runs and one; the codec's texts are read back, and no text of an instant has a bar.
pub all_runs_complete :
    (K : Codec) (ilike : Text → Text → Bool) (rows : List RunRow) (o : RunListOpts)
    → IsCodec K
    → Descends rows
    → all_runs K ilike rows (suc (length (filter (passes ilike o) rows))) (record o { cursor = [] })
      ≡ ok (filter (passes ilike o) rows)
unfolding Walks read_cursor
all_runs_complete K ilike rows o good descends =
    let positive : 0 < clamp_limit o.limit = clamp_limit-positive o.limit in
    walk K good ilike rows o (clamp_limit o.limit - 1) (omega (arith, positive))
      (filter-Descends (passes ilike o) rows descends) (suc (length (filter (passes ilike o) rows)))
      [] none [] (filter (passes ilike o) rows) refl refl refl (omega arith)
