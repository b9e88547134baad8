-- ===== src/Runs/Pages/Cuts.antt =====
-- The rows after a cursor and the page cut from them, in ListRunsPage (pkg/pipelineapi/store/run.go).
use datuplet.Prelude.{
  All, Bool, List, [], ap, arith, false, filter, get_elem?, length, refl, some, suc, take, true,
  zero, ℕ, ◌++◌, ◌-◌, ◌<◌, ◌∙◌, ◌∷◌, ◌≡◌, ◌≤◌,
}
use datuplet.Runs.Pages.{Codec, RunRow, cut_page, encode_cursor, is_before}

abbrev pub pair : RunRow → ℕ × ℕ
pair r = (r.created_at, r.id)

-- the order of the query: every later row is before every earlier one
abbrev pub Descends : List RunRow → Type 0
Descends [] = Unit
Descends (r ∷ rs) = All (λ s. is_before (pair r) s ≡ true) rs × Descends rs

pub filter_keeps :
    (p : RunRow → Bool) (rs : List RunRow) → All (λ r. p r ≡ true) rs → filter p rs ≡ rs
filter_keeps p [] h = refl
filter_keeps p (r ∷ rs) h = ground (arith, h.0, filter_keeps p rs h.1)

pub not_before_self : (c : RunRow) → is_before (pair c) c ≡ false
unfolding is_before
not_before_self c = ground arith

pub asymmetric : (x c : RunRow) → is_before (pair x) c ≡ true → is_before (pair c) x ≡ false
unfolding is_before
asymmetric x c h = ground (arith, h)

pub not_before :
    (x c : RunRow) (xs ys : List RunRow)
    → All (λ s. is_before (pair x) s ≡ true) (xs ++ (c ∷ ys))
    → is_before (pair c) x ≡ false
not_before x c [] ys h = asymmetric x c h.0
not_before x c (z ∷ xs) ys h = not_before x c xs ys h.1

-- in a descending list, the rows before one are those after it
pub after-split :
    (xs : List RunRow) (c : RunRow) (ys : List RunRow)
    → Descends (xs ++ (c ∷ ys))
    → filter (is_before (pair c)) (xs ++ (c ∷ ys)) ≡ ys
after-split [] c ys h = ground (arith, not_before_self c, filter_keeps (is_before (pair c)) ys h.0)
after-split (x ∷ xs) c ys h = ground (arith, not_before x c xs ys h.0, after-split xs c ys h.1)

pub append_assoc : (xs ys zs : List RunRow) → (xs ++ ys) ++ zs ≡ xs ++ (ys ++ zs)
append_assoc [] ys zs = refl
append_assoc (x ∷ xs) ys zs = ap (λ l. x ∷ l) (append_assoc xs ys zs)

-- a list cut at one of its elements, and what a page of it shows
pub record Cut (k : ℕ) (l : List RunRow) : Type 0 where
  pub front : List RunRow
  pub at : RunRow
  pub back : List RunRow
  pub whole : l ≡ front ++ (at ∷ back)
  pub shown : take (suc k) (take (suc (suc k)) l) ≡ front ++ (at ∷ [])
  pub found : get_elem? (take (suc (suc k)) l) k ≡ some at

pub cut : (k : ℕ) (l : List RunRow) → suc k < length l → Cut k l
cut k [] h = absurd (omega arith)
cut zero (r ∷ rs) h = record {
  front = [];
  at = r;
  back = rs;
  whole = refl;
  shown = refl;
  found = refl;
}
cut (suc k) (r ∷ rs) h =
    let c = cut k rs (omega (arith, h)) in
    record {
      front = r ∷ c.front;
      at = c.at;
      back = c.back;
      whole = ap (λ l. r ∷ l) c.whole;
      shown = ap (λ l. r ∷ l) c.shown;
      found = c.found;
    }

pub length-take_more : (n : ℕ) (l : List RunRow) → n < length l → length (take (suc n) l) ≡ suc n
length-take_more n [] h = absurd (omega arith)
length-take_more zero (r ∷ rs) h = refl
length-take_more (suc n) (r ∷ rs) h = omega (arith, length-take_more n rs (omega (arith, h)))

pub take-all : (n : ℕ) (l : List RunRow) → length l ≤ n → take n l ≡ l
take-all zero [] h = refl
take-all zero (r ∷ rs) h = absurd (omega arith)
take-all (suc n) [] h = refl
take-all (suc n) (r ∷ rs) h = ap (λ l. r ∷ l) (take-all n rs (omega (arith, h)))

pub page-last :
    (K : Codec) (k : ℕ) (suf : List RunRow)
    → length suf ≤ suc k
    → cut_page K (suc k) (take (suc (suc k)) suf) ≡ record { runs = suf; next_cursor = [] }
unfolding cut_page
page-last K k suf h =
    let whole = take-all (suc (suc k)) suf (omega (arith, h)) in
    ap (cut_page K (suc k)) whole ∙ ground (arith, h)

pub page-more :
    (K : Codec) (k : ℕ) (suf : List RunRow) (c : Cut k suf)
    → suc k < length suf
    → cut_page K (suc k) (take (suc (suc k)) suf) ≡ record {
      runs = c.front ++ (c.at ∷ []);
      next_cursor = encode_cursor K c.at.created_at c.at.id;
    }
unfolding cut_page
page-more K k suf c h =
    let full = length-take_more (suc k) suf h in
    let less : suc k - 1 ≡ k = omega arith in
    ground (arith, full, c.shown, c.found, ap (get_elem? (take (suc (suc k)) suf)) less)
