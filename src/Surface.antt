-- ===== src/Surface.antt =====
-- src/finality_ref/surface.py: the audit of a deployment manifest. The text of the exception that
-- `assert_complete` raises is `incomplete_message`, of the findings that it is raised for.
pub mod Coverage
use execution_finality_for_a.Prelude.{
  ℕ, Str, str, str_eq, ◌==◌, Bool, true, false, not, ◌&&◌, ◌||◌, leb, eqb, List, [], ◌∷◌, ◌++◌,
  is_empty, if◌then◌else◌,
}
use execution_finality_for_a.Errors.{Error, Result, fail_if}

pub record EffectSurface : Type 0 where
  pub name : Str
  pub channel : Str
  pub externally_effective : Bool
  pub sink_mediated : Bool
  pub enforcement_boundary : Str
  pub privileged : Bool

pub data Severity : Type 0 where
  critical high medium : Severity

pub data SurfaceReason : Type 0 where
  duplicate_surface_definition unguarded_external_effect_path : SurfaceReason
  sink_boundary_not_privileged missing_enforcement_boundary : SurfaceReason

pub record SurfaceFinding : Type 0 where
  pub severity : Severity
  pub surface : Str
  pub reason : SurfaceReason

-- The characters that `str.strip` removes: those with `str.isspace`.
unfoldable pub is_whitespace : ℕ → Bool
is_whitespace c =
    (leb 0x9 c && leb c 0xd)
    || (leb 0x1c c && leb c 0x20)
    || eqb c 0x85
    || eqb c 0xa0
    || eqb c 0x1680
    || (leb 0x2000 c && leb c 0x200a)
    || eqb c 0x2028
    || eqb c 0x2029
    || eqb c 0x202f
    || eqb c 0x205f
    || eqb c 0x3000

-- `not text.strip()`: nothing is left of the text.
unfoldable pub is_blank : Str → Bool
is_blank [] = true
is_blank (c ∷ cs) = is_whitespace c && is_blank cs

-- `key in seen`
unfoldable pub is_seen : Str × Str → List (Str × Str) → Bool
is_seen k [] = false
is_seen (n, c) ((m, d) ∷ seen) = (n == m && c == d) || is_seen (n, c) seen

-- `if b: findings.append(…)`
abbrev pub finding : Bool → Severity → Str → SurfaceReason → List SurfaceFinding
finding true severity surface reason =
    record { severity = severity; surface = surface; reason = reason } ∷ []
finding false _ _ _ = []

-- The findings of an externally effective surface.
unfoldable pub exposure : EffectSurface → List SurfaceFinding
exposure s =
    finding (not s.sink_mediated) Severity.critical s.name
      SurfaceReason.unguarded_external_effect_path
    ++ finding (not s.privileged) Severity.high s.name SurfaceReason.sink_boundary_not_privileged
    ++ finding (is_blank s.enforcement_boundary) Severity.high s.name
        SurfaceReason.missing_enforcement_boundary

-- The loop of `audit`, with the keys that it has seen.
unfoldable pub audit_from : List (Str × Str) → List EffectSurface → List SurfaceFinding
audit_from seen [] = []
audit_from seen (s ∷ ss) =
    finding (is_seen (s.name, s.channel) seen) Severity.medium s.name
      SurfaceReason.duplicate_surface_definition
    ++ (if s.externally_effective then exposure s else [])
    ++ audit_from ((s.name, s.channel) ∷ seen) ss

unfoldable pub audit : List EffectSurface → List SurfaceFinding
audit ss = audit_from [] ss

-- `f.severity in {"CRITICAL", "HIGH"}`
abbrev pub is_severe : Severity → Bool
is_severe Severity.medium = false
is_severe _ = true

unfoldable pub severe : List SurfaceFinding → List SurfaceFinding
severe [] = []
severe (f ∷ fs) = if is_severe f.severity then f ∷ severe fs else severe fs

unfoldable pub assert_complete : List EffectSurface → Result (Unit {0})
assert_complete ss = fail_if (not (is_empty (severe (audit ss)))) Error.runtime_error

abbrev pub reason_value : SurfaceReason → Str
reason_value SurfaceReason.duplicate_surface_definition = str "duplicate_surface_definition"
reason_value SurfaceReason.unguarded_external_effect_path = str "unguarded_external_effect_path"
reason_value SurfaceReason.sink_boundary_not_privileged = str "sink_boundary_not_privileged"
reason_value SurfaceReason.missing_enforcement_boundary = str "missing_enforcement_boundary"

-- "; ".join(f"{f.surface}:{f.reason}" for f in critical)
unfoldable pub joined : List SurfaceFinding → Str
joined [] = []
joined (f ∷ []) = f.surface ++ str ":" ++ reason_value f.reason
joined (f ∷ fs) = f.surface ++ str ":" ++ reason_value f.reason ++ str "; " ++ joined fs

unfoldable pub incomplete_message : List SurfaceFinding → Str
incomplete_message fs = str "deployment finality coverage incomplete: " ++ joined fs
