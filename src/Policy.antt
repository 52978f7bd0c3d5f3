-- ===== src/Policy.antt =====
-- src/finality_ref/policy.py: the predicate on a Candidate Act. The frozensets are lists, of which
-- only membership is asked.
pub mod Admissible
use mathlib.Core.Logic.{ite}
use execution_finality_for_a.Prelude.{
  Str, ℤ, pos, ◌+ℤ◌, ◌-ℤ◌, ltb_ℤ, leb_ℤ, eqb, length, is_empty, str_eq, int_eq, ◌==◌, contains,
  is_subset, to_set, Bool, true, false, not, List, [], ◌∷◌, Option, none, some, if◌then◌else◌,
}
use execution_finality_for_a.Errors.{Reason}
use execution_finality_for_a.Models.{CandidateAct, ActStatus, ActStatus-discrete}

pub record Policy : Type 0 where
  pub policy_epoch : ℤ
  pub allowed_purposes : List Str
  pub allowed_jurisdictions : List Str
  pub allowed_sinks : List Str
  pub allowed_boundaries : List Str
  pub allowed_effect_classes : List Str
  pub allowed_scopes : List Str
  pub revoked_sources : List Str
  pub required_runtime_evidence_digest : Option Str
  pub max_future_skew_ns : ℤ

-- `candidate.status == ActStatus.NON_EFFECTIVE`
unfoldable pub is_non_effective : CandidateAct → Bool
unfolding ActStatus-discrete
is_non_effective c = ite (ActStatus-discrete c.status ActStatus.non_effective) true false

-- The last test, made only where a runtime evidence digest is required.
abbrev pub runtime_mismatch : Option Str → Str → Bool
runtime_mismatch none d = false
runtime_mismatch (some required) d = not (d == required)

-- The tests of `Policy.validate` in order, each with the reason that it appends.
unfoldable pub policy_tests : Policy → CandidateAct → ℤ → List (Bool × Reason)
unfolding is_non_effective
policy_tests p c now =
    (not (is_non_effective c), Reason.candidate_not_non_effective)
    ∷ (not (c.policy_epoch == p.policy_epoch), Reason.policy_epoch_mismatch)
    ∷ (not (contains p.allowed_purposes c.purpose), Reason.purpose_not_allowed)
    ∷ (not (contains p.allowed_jurisdictions c.jurisdiction), Reason.jurisdiction_not_allowed)
    ∷ (not (contains p.allowed_sinks c.sink_id), Reason.sink_not_allowed)
    ∷ (not (contains p.allowed_boundaries c.boundary_id), Reason.boundary_not_allowed)
    ∷ (not (contains p.allowed_effect_classes c.effect_class), Reason.effect_class_not_allowed)
    ∷ (is_empty c.scope, Reason.empty_scope)
    ∷ (not (is_subset c.scope p.allowed_scopes), Reason.scope_not_allowed)
    ∷ (not (eqb (length (to_set c.scope)) (length c.scope)), Reason.duplicate_scope)
    ∷ (contains p.revoked_sources c.source, Reason.source_revoked)
    ∷ (leb_ℤ c.freshness_ns (pos 0), Reason.invalid_freshness)
    ∷ (ltb_ℤ now (c.issued_at_ns -ℤ p.max_future_skew_ns), Reason.candidate_from_future)
    ∷ (ltb_ℤ (c.issued_at_ns +ℤ c.freshness_ns) now, Reason.candidate_stale)
    ∷ (
      runtime_mismatch p.required_runtime_evidence_digest c.runtime_evidence_digest,
      Reason.runtime_evidence_mismatch,
    )
    ∷ []

-- `if test: reasons.append(reason)`, test after test.
unfoldable pub collect : List (Bool × Reason) → List Reason
collect [] = []
collect ((b, r) ∷ ts) = let rest = collect ts in if b then r ∷ rest else rest

-- `Policy.validate`: whether the act is allowed, and the reasons why not.
unfoldable pub validate : Policy → CandidateAct → ℤ → Bool × List Reason
validate p c now = let rs = collect (policy_tests p c now) in (is_empty rs, rs)
