-- ===== src/Pipeline/Validate/Latest.antt =====
-- LatestStable of pkg/k8s/api/v1/component_types.go against the order of versions.
use datuplet.Prelude.{
  All, Bool, Bool-cases, List, Option, Option-cases, [], any, ap, arith, false, get_or, inl, inr,
  is_some, none, refl, some, subst, sym, true, ◌<◌, ◌∙◌, ◌∷◌, ◌≡◌, ◌⊎◌,
}
use mathlib.Core.List.{Memᴰ}
use datuplet.Pipeline.Validate.Versions.{
  WritesVersion, WritesVersion-parse_stable_version, parse_stable_version-WritesVersion,
}
use datuplet.Pipeline.Validate.Registry.{
  ComponentDefinitionSpec, Stable, VersionSpec, better, latest_from, latest_stable, newer,
  stable_of,
}

-- the version is not a prerelease, and its text is `v` and these three numbers
unfoldable pub Counts : VersionSpec → Stable → Type 0
unfolding WritesVersion
Counts v t = (v.prerelease ≡ false) × WritesVersion v.version t

-- the triple comes after the other one in the order by major, minor and patch
unfoldable pub Later : Stable → Stable → Type 0
Later s t =
    (t.major < s.major)
    ⊎ ((s.major ≡ t.major) × ((t.minor < s.minor) ⊎ ((s.minor ≡ t.minor) × (t.patch < s.patch))))

-- none counts; or it is listed and counts, and none that counts comes after it
unfoldable pub Newest : List VersionSpec → Option VersionSpec → Type 0
unfolding Counts Later
Newest vs none = All (λ w. ¬ ((s : Stable) × Counts w s)) vs
Newest vs (some v) =
    Memᴰ v vs
    × ((t : Stable) × Counts v t × All (λ w. ¬ ((s : Stable) × Counts w s × Later s t)) vs)

-- the tests of the code for the two
unfoldable beats : Stable → VersionSpec → Bool
beats t w = elim (stable_of w) [ none ↦ false | some s ↦ newer s t ]

abbrev is_stable : VersionSpec → Bool
is_stable w = is_some (stable_of w)

stable_of-Counts : (v : VersionSpec) (t : Stable) → stable_of v ≡ some t → Counts v t
unfolding stable_of Counts
stable_of-Counts v t h = elim (Bool-cases v.prerelease) [
  | inl e ↦ let bad = simp e at h in absurd (cc)
  | inr e ↦ (e, parse_stable_version-WritesVersion v.version t (simp e at h))
]

Counts-stable_of : (v : VersionSpec) (t : Stable) → Counts v t → stable_of v ≡ some t
unfolding stable_of Counts
Counts-stable_of v t h = rw (h.0, stable_of) (WritesVersion-parse_stable_version v.version t h.1)

Later-newer : (s t : Stable) → Later s t → newer s t ≡ true
unfolding newer Later
Later-newer s t h = ground (arith, h)

none-Counts :
    (vs : List VersionSpec) → any is_stable vs ≡ false → All (λ w. ¬ ((s : Stable) × Counts w s)) vs
none-Counts [] h = tt
none-Counts (w ∷ vs) h = (
  λ (s, c). absurd (ground (arith, h, Counts-stable_of w s c)),
  none-Counts vs (ground (arith, h)),
)

abbrev beats_best : Stable → Option (VersionSpec × Stable) → Bool
beats_best t none = false
beats_best t (some (b, u)) = newer u t

-- what is found from a best so far
abbrev Found :
    Option (VersionSpec × Stable) → List VersionSpec → Option (VersionSpec × Stable) → Type 0
Found best vs none = (best ≡ none) × (any is_stable vs ≡ false)
Found best vs (some (v, t)) =
    ((best ≡ some (v, t)) ⊎ (Memᴰ v vs × (stable_of v ≡ some t)))
    × ((beats_best t best ≡ false) × (any (beats t) vs ≡ false))

newer_irrefl : (t : Stable) → newer t t ≡ false
unfolding newer
newer_irrefl t = ground arith

-- what is not newer than one that is not newer
newer_trans : (a b c : Stable) → newer a b ≡ false → newer b c ≡ false → newer a c ≡ false
unfolding newer
newer_trans a b c h k = ground arith

newer_asym : (a b : Stable) → newer a b ≡ true → newer b a ≡ false
unfolding newer
newer_asym a b h = ground arith

module _ (v : VersionSpec) (vs : List VersionSpec) where
  beats-none : (t : Stable) → stable_of v ≡ none → beats t v ≡ false
  unfolding beats
  beats-none t e = rw (e, beats) refl

  beats-some : {s : Stable} (t : Stable) → stable_of v ≡ some s → beats t v ≡ newer s t
  unfolding beats
  beats-some t e = rw (e, beats) refl

  beats_best_trans :
      (best : Option (VersionSpec × Stable)) (s t : Stable)
      → beats_best s best ≡ false
      → newer s t ≡ false
      → beats_best t best ≡ false
  beats_best_trans none s t h k = refl
  beats_best_trans (some (b, u)) s t h k = newer_trans u s t h k

  Found-skip :
      (best r : Option (VersionSpec × Stable))
      → stable_of v ≡ none
      → Found best vs r
      → Found best (v ∷ vs) r
  Found-skip best none e h = (h.0, rw e h.1)
  Found-skip best (some (w, t)) e h = (
    elim h.0 [ inl q ↦ inl q | inr (m, q) ↦ inr (Memᴰ.tail m, q) ],
    (h.1.0, ground (arith, beats-none t e, h.1.1)),
  )

  -- the version is the best so far
  taken_or_listed :
      (s t : Stable) (w : VersionSpec)
      → stable_of v ≡ some s
      → ◌≡◌ {A = Option (VersionSpec × Stable)} (some (v, s)) (some (w, t))
        ⊎ (Memᴰ w vs × (stable_of w ≡ some t))
      → Memᴰ w (v ∷ vs) × (stable_of w ≡ some t)
  taken_or_listed s t w e (inr (m, q)) = (Memᴰ.tail m, q)
  taken_or_listed s t w e (inl q) =
      let same : v ≡ w = ap (λ (o : Option (VersionSpec × Stable)). (get_or o (v, s)).0) q in
      let triple : s ≡ t = ap (λ (o : Option (VersionSpec × Stable)). (get_or o (v, s)).1) q in
      (Memᴰ.head (sym same), subst (λ x. stable_of x ≡ some t) same (e ∙ ap some triple))

  Found-taken :
      (best r : Option (VersionSpec × Stable)) (s : Stable)
      → stable_of v ≡ some s
      → beats_best s best ≡ false
      → Found (some (v, s)) vs r
      → Found best (v ∷ vs) r
  Found-taken best none s e k h = absurd (cc)
  Found-taken best (some (w, t)) s e k h = (
    inr (taken_or_listed s t w e h.0),
    (beats_best_trans best s t k h.1.0, ground (arith, beats-some t e, h.1)),
  )

  Found-kept :
      (b : VersionSpec) (u s : Stable) (r : Option (VersionSpec × Stable))
      → stable_of v ≡ some s
      → newer s u ≡ false
      → Found (some (b, u)) vs r
      → Found (some (b, u)) (v ∷ vs) r
  Found-kept b u s none e k h = absurd (cc)
  Found-kept b u s (some (w, t)) e k h = (
    elim h.0 [ inl q ↦ inl q | inr (m, q) ↦ inr (Memᴰ.tail m, q) ],
    (h.1.0, ground (arith, beats-some t e, newer_trans s u t k h.1.0, h.1)),
  )

  better-Found :
      (best r : Option (VersionSpec × Stable)) → Found (better best v) vs r → Found best (v ∷ vs) r
  unfolding better
  better-Found none r h = elim (Option-cases (stable_of v)) [
    | inl e ↦ Found-skip none r e (subst (λ x. Found x vs r) (rw (e, better) refl) h)
    | inr (s, e) ↦ Found-taken none r s e refl (subst (λ x. Found x vs r) (rw (e, better) refl) h)
  ]
  better-Found (some (b, u)) r h = elim (Option-cases (stable_of v)) [
    | inl e ↦ Found-skip (some (b, u)) r e (subst (λ x. Found x vs r) (rw (e, better) refl) h)
    | inr (s, e) ↦ elim (Bool-cases (newer s u)) [
      | inl n ↦
          Found-taken (some (b, u)) r s e (newer_asym s u n)
            (subst (λ x. Found x vs r) (rw (e, better, n) refl) h)
      | inr n ↦ Found-kept b u s r e n (subst (λ x. Found x vs r) (rw (e, better, n) refl) h)
    ]
  ]

latest_from-Found :
    (best : Option (VersionSpec × Stable)) (vs : List VersionSpec)
    → Found best vs (latest_from best vs)
unfolding latest_from
latest_from-Found none [] = (refl, refl)
latest_from-Found (some (b, u)) [] = (inl refl, (newer_irrefl u, refl))
latest_from-Found best (v ∷ vs) =
    better-Found v vs best (latest_from (better best v) vs) (latest_from-Found (better best v) vs)

none-Later :
    (t : Stable) (vs : List VersionSpec)
    → any (beats t) vs ≡ false
    → All (λ w. ¬ ((s : Stable) × Counts w s × Later s t)) vs
none-Later t [] h = tt
none-Later t (w ∷ vs) h = (
  λ (s, c, l).
      absurd (ground (arith, h, beats-some w vs t (Counts-stable_of w s c), Later-newer s t l)),
  none-Later t vs (ground (arith, h)),
)

Found-Newest :
    (vs : List VersionSpec) (r : Option (VersionSpec × Stable))
    → Found none vs r
    → Newest vs (elim r [ none ↦ none | some (v, s) ↦ some v ])
unfolding Newest
Found-Newest vs none h = none-Counts vs h.1
Found-Newest vs (some (v, t)) h = elim h.0 [
  | inl q ↦ absurd (cc)
  | inr (m, q) ↦ (m, (t, stable_of-Counts v t q, none-Later t vs h.1.1))
]

-- LatestStable gives none only where each version is a prerelease or is not written `v`, a number, a dot,
-- a number, a dot and a number. What it gives is a listed version that is no prerelease and is written so,
-- and no listed version of this kind comes after it in the order by major, minor and patch number, each
-- read as the largest int where it is above that.
pub latest_stable-Newest :
    (spec : ComponentDefinitionSpec) → Newest spec.versions (latest_stable spec)
unfolding latest_stable
latest_stable-Newest spec =
    Found-Newest spec.versions (latest_from none spec.versions)
      (latest_from-Found none spec.versions)
