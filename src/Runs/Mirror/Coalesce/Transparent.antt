-- ===== src/Runs/Mirror/Coalesce/Transparent.antt =====
-- The decorator of pkg/pipelineapi/k8s/coalesce.go over the row of one run (UpdateRunPhase with its
-- guards), against the row that gets every write.
use datuplet.Prelude.{
  Assoc, Bool, List, Option-cases, Result, [], ap, arith, false, if◌then◌else◌, inl, inr, insert,
  lookup, lookup-insert_self, ok, refl, some, subst, sym, text_eq, true, ℕ, ◌<◌, ◌∙◌, ◌∷◌, ◌≡◌, ◌≤◌,
}
use datuplet.Runs.Store.{Run, StoreError, admits, is_out_of_band, update_row, written}
use datuplet.Runs.Mirror.{RunStatus, opts_of}
use datuplet.Runs.Mirror.Coalesce.{
  CoalesceEntry, Key, equals_for_db, is_cached, key_eq, key_of, settle, update,
}
use datuplet.Runs.Mirror.Coalesce.Content.{
  InOrder, both-content, coalesced, content, direct, is_marshalled, put, put-equals_for_db,
  put_idem, write_row, write_row-cases, write_row-content, write_row-grows,
}

record Tracks (key : Key) (cache : Assoc Key CoalesceEntry) (r r' : Run) : Type 0 where
  same : content r ≡ content r'
  behind : r.observed_rv ≤ r'.observed_rv
  settled :
      (e : CoalesceEntry)
      → lookup cache key ≡ some e
      → (is_marshalled e.status ≡ true) × (put e.status (content r) ≡ content r)

-- a status that the cache has already leaves the content, written or not
absorbed :
    (now : ℕ) (r : Run) (s : RunStatus)
    → r.observed_rv < s.resource_version
    → put s (content r) ≡ content r
    → content (write_row now r s).0 ≡ content r
absorbed now r s h k = write_row-content now r s h ∙ ground (arith, k)

hit-Tracks :
    (key : Key) (now : ℕ) (cache : Assoc Key CoalesceEntry) (r r' : Run) (s : RunStatus)
    → Tracks key cache r r'
    → key_of s ≡ key
    → r'.observed_rv < s.resource_version
    → is_marshalled s ≡ true
    → is_cached cache s ≡ true
    → Tracks key cache r (write_row now r' s).0
unfolding is_cached
hit-Tracks key now cache r r' s t k l m h = elim (Option-cases (lookup cache (key_of s))) [
  | inl e ↦ absurd (ground (arith, h, e))
  | inr (prev, e) ↦
      let known = t.settled prev (ap (lookup cache) (sym k) ∙ e) in
      let agree : equals_for_db prev.status s ≡ true = ground (arith, h, e) in
      let swap = put-equals_for_db prev.status s (content r) agree known.0 m in
      record {
        same =
            sym (absorbed now r s (omega (arith, t.behind, l)) (sym swap ∙ known.1))
            ∙ both-content now r r' s t.same t.behind l;
        behind = omega (arith, t.behind, (write_row-grows now r' s).0);
        settled = t.settled;
      }
]

put-content :
    (now : ℕ) (s : RunStatus) (r : Run) → content (written now (opts_of s) r) ≡ put s (content r)
unfolding content written put
put-content now s r = refl

both-behind :
    (now : ℕ) (r r' : Run) (s : RunStatus)
    → content r ≡ content r'
    → r.observed_rv ≤ r'.observed_rv
    → r'.observed_rv < s.resource_version
    → (write_row now r s).0.observed_rv ≤ (write_row now r' s).0.observed_rv
unfolding content write_row update_row admits written
both-behind now r r' s h k l =
    let phases : r.phase ≡ r'.phase = ap (λ c. c.0) h in
    ground (arith, ap is_out_of_band phases, k, l)

-- a write behind the decorator, by the answer of the row
miss-Tracks :
    (key : Key) (now : ℕ) (cache : Assoc Key CoalesceEntry) (r r' : Run) (s : RunStatus)
    → Tracks key cache r r'
    → key_of s ≡ key
    → r'.observed_rv < s.resource_version
    → is_marshalled s ≡ true
    → let c = (settle (write_row now) now cache s (write_row now r s)).0 in
      Tracks key c.0 c.1 (write_row now r' s).0
unfolding settle
miss-Tracks key now cache r r' s t k l m =
    let both = both-content now r r' s t.same t.behind l in
    let P : Run × Result StoreError Bool → Type 0 = λ q.
      let c = (settle (write_row now) now cache s q).0 in
      Tracks key c.0 c.1 (write_row now r' s).0 in
    elim (write_row-cases now r s) [
      | inl e ↦ subst P (sym e) (record {
        same = sym (ap (λ q. content q.0) e) ∙ both;
        behind = omega (arith, t.behind, (write_row-grows now r' s).0);
        settled = t.settled;
      })
      | inr e ↦ subst P (sym e) (record {
        same = sym (ap (λ q. content q.0) e) ∙ both;
        behind =
            subst (λ n. n ≤ (write_row now r' s).0.observed_rv) (ap (λ q. q.0.observed_rv) e)
              (both-behind now r r' s t.same t.behind l);
        settled = λ f h.
            let known : record { status = s; written_at = now } ≡ f =
              let stored = insert cache (key_of s) (record { status = s; written_at = now }) in
              let both : some (record { status = s; written_at = now }) ≡ some f =
                sym (lookup-insert_self cache (key_of s) (record { status = s; written_at = now }))
                ∙ ap (lookup stored) k
                ∙ h in
              cc in
            subst
              (λ f.
                (is_marshalled f.status ≡ true)
                × (put f.status (content (written now (opts_of s) r))
                    ≡ content (written now (opts_of s) r)))
              known
              (
                m,
                ap (put s) (put-content now s r)
                    ∙ put_idem s (content r)
                    ∙ sym (put-content now s r),
              );
      })
    ]

coalesced-Tracks :
    (key : Key) (cache : Assoc Key CoalesceEntry) (r r' : Run) (rv : ℕ) (es : List (ℕ × RunStatus))
    → Tracks key cache r r'
    → r'.observed_rv ≤ rv
    → InOrder key rv es
    → content (coalesced (cache, r) es).1 ≡ content (direct r' es)
unfolding coalesced direct update
coalesced-Tracks key cache r r' rv [] t l h = t.same
coalesced-Tracks key cache r r' rv ((now, s) ∷ es) t l h =
    let next = settle (write_row now) now cache s (write_row now r s) in
    let above : r'.observed_rv < s.resource_version = omega (arith, l, h.1) in
    let r'' = (write_row now r' s).0 in
    let bound : r''.observed_rv ≤ s.resource_version =
      omega (arith, (write_row-grows now r' s).1, above) in
    let held : (Assoc Key CoalesceEntry × Run) × Result StoreError Bool = ((cache, r), ok false) in
    elim (is_cached cache s)
        as (λ b.
          is_cached cache s ≡ b
          → content (coalesced (if b then held else next).0 es).1 ≡ content (direct r'' es)) [
            | true ↦ λ e.
                coalesced-Tracks key cache r r'' s.resource_version es
                  (hit-Tracks key now cache r r' s t h.0 above h.2 e) bound h.3
            | false ↦ λ e.
                coalesced-Tracks key next.0.0 next.0.1 r'' s.resource_version es
                  (miss-Tracks key now cache r r' s t h.0 above h.2) bound h.3
          ]
      refl

-- Dropping the writes of an unchanged state loses nothing: over the events of one object in the order
-- of its versions, all newer than the row's, the row behind the decorator shows what the row shows
-- that gets every write. The cache starts empty, as after a restart.
pub coalesced-content :
    (key : Key) (r : Run) (es : List (ℕ × RunStatus))
    → InOrder key r.observed_rv es
    → content (coalesced ([], r) es).1 ≡ content (direct r es)
unfolding lookup
coalesced-content key r es h =
    coalesced-Tracks key [] r r r.observed_rv es
      (record { same = refl; behind = omega arith; settled = λ e k. absurd (cc) }) (omega arith) h
