-- ===== src/Pipeline/Validate/Registry.antt =====
-- StaticRegistry.Resolve and resolveVersion (pkg/pipeline/validate/registry.go), FindVersion and
-- LatestStable (pkg/k8s/api/v1/component_types.go).
use datuplet.Prelude.{
  Assoc, Bool, List, Option, Result, Text, [], bytes, err, get_or, if◌then◌else◌, is_empty, leb,
  lookup, ltb, min, nat_beq, none, not, ok, some, text_eq, ℕ, ◌&&◌, ◌++◌, ◌-◌, ◌==◌, ◌^◌, ◌||◌, ◌∷◌,
}
use datuplet.Pipeline.{ComponentIo, ComponentResources, Finding, ResolvedComponent, error, warning}
use datuplet.Pipeline.Validate.{Libraries, finding, when}
use datuplet.Schema.Inference.Lexing.{digits_value}

pub record VersionSpec : Type 0 where
  pub version : Text
  pub image : Text
  pub prerelease : Bool
  pub config_schema : Text
  pub resources : Option ComponentResources

pub record ComponentDefinitionSpec : Type 0 where
  pub deprecated : Bool
  pub default_version : Text
  pub versions : List VersionSpec
  pub io : Option ComponentIo

pub record ComponentDefinition : Type 0 where
  pub spec : ComponentDefinitionSpec
  pub phase : Text
  pub message : Text

pub record Stable : Type 0 where
  pub major : ℕ
  pub minor : ℕ
  pub patch : ℕ

-- the digits up to the first byte of another kind, and the rest
unfoldable pub span_digits : Text → Text × Text
span_digits [] = ([], [])
span_digits (c ∷ s) =
    let rest = span_digits s in if leb 48 c && leb c 57 then (c ∷ rest.0, rest.1) else ([], c ∷ s)

-- strconv.Atoi of digits, its error dropped: the largest int is its value out of range
unfoldable pub atoi_digits : Text → ℕ
unfolding digits_value
atoi_digits s = min (digits_value 0 s) (2 ^ 63 - 1)

-- digits, then a dot
unfoldable pub number_dot : Text → Option (ℕ × Text)
unfolding span_digits atoi_digits
number_dot s =
    let parts = span_digits s in
    if is_empty parts.0 then none else elim parts.1 [
      | [] ↦ none
      | c ∷ rest ↦ if nat_beq c 46 then some (atoi_digits parts.0, rest) else none
    ]

-- ^v(\d+)\.(\d+)\.(\d+)$
unfoldable pub parse_stable_version : Text → Option Stable
unfolding number_dot
parse_stable_version [] = none
parse_stable_version (c ∷ s) = if not (nat_beq c 118) then none else elim (number_dot s) [
  | none ↦ none
  | some (major, after) ↦ elim (number_dot after) [
    | none ↦ none
    | some (minor, last) ↦
        if is_empty (span_digits last).0 || not (is_empty (span_digits last).1)
        then none
        else some (record { major = major; minor = minor; patch = atoi_digits last })
  ]
]

-- the triple that LatestStable ranks a version by, if it counts
unfoldable pub stable_of : VersionSpec → Option Stable
unfolding parse_stable_version
stable_of v = if v.prerelease then none else parse_stable_version v.version

unfoldable pub newer : Stable → Stable → Bool
newer s best =
    ltb best.major s.major
    || ((nat_beq s.major best.major && ltb best.minor s.minor)
        || (nat_beq s.major best.major && (nat_beq s.minor best.minor && ltb best.patch s.patch)))

-- the better of the best so far and a version
unfoldable pub better : Option (VersionSpec × Stable) → VersionSpec → Option (VersionSpec × Stable)
unfolding stable_of newer
better best v = elim (stable_of v) [
  | none ↦ best
  | some s ↦ elim best [
    | none ↦ some (v, s)
    | some (b, t) ↦ if newer s t then some (v, s) else some (b, t)
  ]
]

unfoldable pub latest_from :
    Option (VersionSpec × Stable) → List VersionSpec → Option (VersionSpec × Stable)
unfolding better
latest_from best [] = best
latest_from best (v ∷ vs) = latest_from (better best v) vs

unfoldable pub latest_stable : ComponentDefinitionSpec → Option VersionSpec
unfolding latest_from
latest_stable spec = elim (latest_from none spec.versions) [ none ↦ none | some (v, s) ↦ some v ]

unfoldable pub find_version : List VersionSpec → Text → Option VersionSpec
find_version [] v = none
find_version (ver ∷ vers) v = if ver.version == v then some ver else find_version vers v

unfoldable pub version_finding : List Text → Option VersionSpec → Result Finding VersionSpec
version_finding message none = err (finding error (bytes "version" ∷ []) message)
version_finding message (some v) = ok v

unfoldable pub resolve_version :
    Libraries → Text → Text → ComponentDefinitionSpec → Result Finding VersionSpec
unfolding find_version latest_stable version_finding
resolve_version lib component version spec =
    if not (is_empty version)
    then version_finding
        (bytes "component "
          ∷ (lib.quote component ∷ (bytes " has no version " ∷ (lib.quote version ∷ []))))
        (find_version spec.versions version)
    else if not (is_empty spec.default_version)
    then version_finding
        (bytes "component "
          ∷ (lib.quote component
              ∷ (bytes " default version "
                  ∷ (lib.quote spec.default_version ∷ (bytes " is not registered" ∷ [])))))
        (find_version spec.versions spec.default_version)
    else version_finding
        (bytes "component "
          ∷ (lib.quote component
              ∷ (bytes " has no stable version and no default; pin an explicit version" ∷ [])))
        (latest_stable spec)

abbrev no_resources : ComponentResources
no_resources = record {
  default_resources = record { limits = []; requests = [] };
  max_resources = [];
}

-- the schema's text if it compiles, with the finding otherwise
unfoldable pub compiled : Libraries → Text → VersionSpec → Text × List Finding
compiled lib component ver =
    if is_empty ver.config_schema then ([], []) else elim (lib.compile_schema ver.config_schema) [
      | none ↦ (ver.config_schema, [])
      | some e ↦ (
        [],
        finding error (bytes "component" ∷ []) (
              bytes "component "
              ∷ (lib.quote component
                  ∷ (bytes " version "
                      ∷ (lib.quote ver.version
                          ∷ (bytes " has an invalid config schema: " ∷ (e ∷ []))))))
            ∷ [],
      )
    ]

unfoldable pub resolved_version :
    Libraries
    → Text
    → ComponentDefinitionSpec
    → VersionSpec
    → Option ResolvedComponent × List Finding
unfolding compiled
resolved_version lib component spec ver =
    let schema = compiled lib component ver in
    (
      some (record {
        component = component;
        version = ver.version;
        image = ver.image;
        prerelease = ver.prerelease;
        config_schema = schema.0;
        resources = get_or ver.resources no_resources;
        io = spec.io;
      }),
      when spec.deprecated (
            finding warning (bytes "component" ∷ [])
              (bytes "component " ∷ (lib.quote component ∷ (bytes " is deprecated" ∷ []))))
          ++ schema.1,
    )

unfoldable pub static_resolve :
    Libraries
    → Assoc Text ComponentDefinition
    → Text
    → Text
    → Option ResolvedComponent × List Finding
unfolding resolve_version resolved_version
static_resolve lib registry component version = elim (lookup registry component) [
  | none ↦ (
    none,
    finding error (bytes "component" ∷ []) (bytes "unknown component " ∷ (lib.quote component ∷ []))
        ∷ [],
  )
  | some def ↦
      if def.phase == bytes "Invalid"
      then (
        none,
        finding error (bytes "component" ∷ []) (
              bytes "component "
              ∷ (lib.quote component
                  ∷ (bytes " definition is invalid"
                      ∷ (if is_empty def.message then [] else bytes ": " ∷ (def.message ∷ [])))))
            ∷ [],
      )
      else elim (resolve_version lib component version def.spec) [
        | err f ↦ (none, f ∷ [])
        | ok ver ↦ resolved_version lib component def.spec ver
      ]
]
