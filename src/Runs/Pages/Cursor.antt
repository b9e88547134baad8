-- ===== src/Runs/Pages/Cursor.antt =====
-- The cursors of pkg/pipelineapi/store/cursor.go, printed and parsed.
use datuplet.Prelude.{
  Text, [], ap, arith, contains, false, is_empty, nat_eq, refl, some, ℕ, ◌++◌, ◌∙◌, ◌∷◌, ◌≡◌,
}
use datuplet.Runs.Pages.{Codec, decode_cursor, encode_cursor, parse_parts, parse_raw, split_bar}

-- what the codec relies on: base64 and the texts are read back, no text of an instant has a bar
pub record IsCodec (k : Codec) : Type 0 where
  pub base64 : (s : Text) → k.base64_decode (k.base64_encode s) ≡ some s
  pub base64_full : (s : Text) → is_empty s ≡ false → is_empty (k.base64_encode s) ≡ false
  pub time : (t : ℕ) → k.parse_time (k.format_time t) ≡ some t
  pub ids : (i : ℕ) → k.parse_id (k.format_id i) ≡ some i
  pub no_bar : (t : ℕ) → contains (k.format_time t) 124 ≡ false

pub split_bar-append :
    (s t : Text) → contains s 124 ≡ false → split_bar (s ++ (124 ∷ t)) ≡ some (s, t)
unfolding split_bar
split_bar-append [] t h = refl
split_bar-append (c ∷ s) t h = ground (arith, h, split_bar-append s t)

-- A cursor is read back.
pub decode_cursor-encode_cursor :
    (k : Codec) → IsCodec k → (t i : ℕ) → decode_cursor k (encode_cursor k t i) ≡ some (t, i)
unfolding decode_cursor encode_cursor
decode_cursor-encode_cursor k h t i =
    ap (parse_raw k) (h.base64 (k.format_time t ++ (124 ∷ k.format_id i)))
    ∙ ap (parse_parts k) (split_bar-append (k.format_time t) (k.format_id i) (h.no_bar t))
    ∙ ground (arith, h.time t, h.ids i)

pub bar_full : (s t : Text) → is_empty (s ++ (124 ∷ t)) ≡ false
bar_full [] t = refl
bar_full (c ∷ s) t = refl

pub is_empty-encode_cursor :
    (k : Codec) → IsCodec k → (t i : ℕ) → is_empty (encode_cursor k t i) ≡ false
unfolding encode_cursor
is_empty-encode_cursor k h t i = h.base64_full _ (bar_full (k.format_time t) (k.format_id i))
