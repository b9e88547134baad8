-- ===== src/Runs/Mirror/Coalesce/Late.antt =====
-- A version that comes late to the decorator of pkg/pipelineapi/k8s/coalesce.go.
use datuplet.Prelude.{
  Assoc, List, [], ap, arith, false, lookup, ok, some, text_eq, true, ℕ, ◌<◌, ◌∙◌, ◌∷◌, ◌≡◌,
}
use datuplet.Runs.Store.{Run, admits, is_out_of_band, update_row, written}
use datuplet.Runs.Mirror.{RunStatus, opts_of}
use datuplet.Runs.Mirror.Coalesce.{
  CoalesceEntry, Key, equals_for_db, is_cached, key_eq, key_of, settle, update,
}
use datuplet.Runs.Mirror.Coalesce.Content.{coalesced, direct, write_row}

late_write :
    (now : ℕ) (r : Run) (newer older : RunStatus)
    → is_out_of_band r.phase ≡ false
    → r.observed_rv < older.resource_version
    → older.resource_version < newer.resource_version
    → (write_row now r older ≡ (written now (opts_of older) r, ok true))
      × (write_row now (write_row now r newer).0 older ≡ ((write_row now r newer).0, ok false))
      × ((write_row now r newer).0.phase ≡ newer.phase)
unfolding write_row update_row admits written
late_write now r newer older o a b =
    (ground (arith, o, a), ground (arith, o, a, b), ground (arith, o, a, b))

update-cached :
    (now : ℕ) (cache : Assoc Key CoalesceEntry) (r : Run) (s : RunStatus)
    → is_cached cache s ≡ true
    → update (write_row now) now (cache, r) s ≡ ((cache, r), ok false)
unfolding update
update-cached now cache r s h = ground (arith, h)

update-new :
    (now : ℕ) (cache : Assoc Key CoalesceEntry) (r : Run) (s : RunStatus)
    → is_cached cache s ≡ false
    → update (write_row now) now (cache, r) s
      ≡ settle (write_row now) now cache s (write_row now r s)
unfolding update
update-new now cache r s h = ground (arith, h)

-- A version that the decorator drops as unchanged is not remembered in the row: an older version
-- that comes after it, with another content and newer than the row's, still overwrites the row,
-- where a row that got every write refuses it. The row is in no phase that is written out of band.
pub late_version-coalesced :
    (now : ℕ) (cache : Assoc Key CoalesceEntry) (r : Run) (e : CoalesceEntry)
    (newer older : RunStatus)
    → lookup cache (key_of newer) ≡ some e
    → key_of older ≡ key_of newer
    → equals_for_db e.status newer ≡ true
    → equals_for_db e.status older ≡ false
    → is_out_of_band r.phase ≡ false
    → r.observed_rv < older.resource_version
    → older.resource_version < newer.resource_version
    → let es : List (ℕ × RunStatus) = (now, newer) ∷ (now, older) ∷ [] in
      ((coalesced (cache, r) es).1.phase ≡ older.phase) × ((direct r es).phase ≡ newer.phase)
unfolding coalesced direct is_cached settle written
late_version-coalesced now cache r e newer older l k h n o a b =
    let kept : is_cached cache newer ≡ true = ground (arith, l, h) in
    let open_ : is_cached cache older ≡ false = ground (arith, ap (lookup cache) k, l, n) in
    let b' = late_write now r newer older o a b in
    let hit = update-cached now cache r newer kept in
    let miss =
      update-new now cache r older open_ ∙ ap (settle (write_row now) now cache older) b'.0 in
    (
      ap (λ u. (update (write_row now) now u.0 older).0.1.phase) hit ∙ ap (λ u. u.0.1.phase) miss,
      ap (λ u. u.0.phase) b'.1 ∙ b'.2,
    )
