-- ===== src/Limits/Clamp.antt =====
-- applyDefaultsThenClamp of pkg/k8s/controllers/resource_clamp.go. A quantity is a number, compared as
-- such; a list of resources is a map with each name at most once, and nil is the empty one. The claims
-- that a specification may carry are passed through and left out.
use datuplet.Prelude.{
  Assoc, List, Option, Text, [], ap, arith, false, if◌then◌else◌, is_empty, lookup, ltb, max, min,
  none, some, text_beq_iff, text_eq, ℕ, ◌&&◌, ◌++◌, ◌∷◌, ◌≡◌,
}

abbrev ResourceList : Type 0
ResourceList = Assoc Text ℕ

pub record ResourceRequirements : Type 0 where
  pub limits : ResourceList
  pub requests : ResourceList

-- a part of the note
pub data Change : Type 0 where
  dropped : Text → Change
  lowered : Text → ℕ → ℕ → Change

pub record ClampResult : Type 0 where
  pub resources : ResourceRequirements
  pub note : List Change

-- one entry, by the maximum of its name
abbrev clamp_entry : Text → ℕ → Option ℕ → ResourceList → ResourceList
clamp_entry name q none rest = rest
clamp_entry name q (some m) rest = (name, if ltb m q then m else q) ∷ rest

unfoldable pub clamp_list : ResourceList → ResourceList → ResourceList
clamp_list max [] = []
clamp_list max ((name, q) ∷ list) = clamp_entry name q (lookup max name) (clamp_list max list)

abbrev entry_changes : Text → ℕ → Option ℕ → List Change
entry_changes name q none = dropped name ∷ []
entry_changes name q (some m) = if ltb m q then lowered name q m ∷ [] else []

unfoldable pub changes : ResourceList → ResourceList → List Change
changes max [] = []
changes max ((name, q) ∷ list) = entry_changes name q (lookup max name) ++ changes max list

-- a request above its limit is pulled down
abbrev lower_entry : ℕ → Option ℕ → ℕ
lower_entry rq none = rq
lower_entry rq (some lq) = if ltb lq rq then lq else rq

unfoldable pub lower_requests : ResourceList → ResourceList → ResourceList
lower_requests limits [] = []
lower_requests limits ((name, rq) ∷ requests) =
    (name, lower_entry rq (lookup limits name)) ∷ lower_requests limits requests

unfoldable pub apply_defaults_then_clamp :
    Option ResourceRequirements → ResourceRequirements → ResourceList → ClampResult
unfolding clamp_list changes lower_requests
apply_defaults_then_clamp none def max = record { resources = def; note = [] }
apply_defaults_then_clamp (some spec) def max =
    let limits = clamp_list max spec.limits in
    if is_empty spec.requests && is_empty spec.limits
    then record { resources = def; note = [] }
    else record {
      resources = record {
        limits = limits;
        requests = lower_requests limits (clamp_list max spec.requests);
      };
      note = changes max spec.limits ++ changes max spec.requests;
    }

-- the smaller of two, where both are there
abbrev pub both : Option ℕ → Option ℕ → Option ℕ
both none q = none
both (some m) none = none
both (some m) (some q) = some (min m q)

-- a request under a limit, where there is one
abbrev pub under : Option ℕ → Option ℕ → Option ℕ
under l none = none
under none (some q) = some q
under (some l) (some q) = some (min l q)

lookup-clamp_list :
    (max list : ResourceList) (name : Text)
    → lookup (clamp_list max list) name ≡ both (lookup max name) (lookup list name)
unfolding clamp_list lookup
lookup-clamp_list max [] name = ground arith
lookup-clamp_list max ((k, q) ∷ list) name = ground (
  arith,
  lookup-clamp_list max list name,
  text_beq_iff k name,
  λ (e : k ≡ name). ap (lookup max) e,
)

lookup-lower_requests :
    (limits list : ResourceList) (name : Text)
    → lookup (lower_requests limits list) name ≡ under (lookup limits name) (lookup list name)
unfolding lower_requests lookup
lookup-lower_requests limits [] name = ground arith
lookup-lower_requests limits ((k, q) ∷ list) name = ground (
  arith,
  lookup-lower_requests limits list name,
  text_beq_iff k name,
  λ (e : k ≡ name). ap (lookup limits) e,
)

-- A specification that asks for anything gets of each resource exactly what it asks for, cut to the
-- maximum, and to its own limit for a request; a resource without a maximum is gone.
pub apply_defaults_then_clamp-exact :
    (spec def : ResourceRequirements) (max : ResourceList) (name : Text)
    → (is_empty spec.requests && is_empty spec.limits) ≡ false
    → let r = (apply_defaults_then_clamp (some spec) def max).resources in
      (lookup r.limits name ≡ both (lookup max name) (lookup spec.limits name))
      × (lookup r.requests name
          ≡ under (lookup r.limits name) (both (lookup max name) (lookup spec.requests name)))
unfolding apply_defaults_then_clamp
apply_defaults_then_clamp-exact spec def max name h =
    let limits = clamp_list max spec.limits in
    ground (
      arith,
      h,
      lookup-clamp_list max spec.limits name,
      lookup-clamp_list max spec.requests name,
      lookup-lower_requests limits (clamp_list max spec.requests) name,
    )
