-- ===== src/Policy/Admissible.antt =====
-- What the policy admits, said without its tests: the violations that it reports, and the acts that
-- it lets through.
use execution_finality_for_a.Prelude.{
  Str, str_eq, int_eq, ℤ, pos, ◌+ℤ◌, ◌-ℤ◌, ◌≤ℤ◌, ◌<ℤ◌, Elem, Subset, Distinct, contains_iff,
  is_subset_iff, length-to_set_iff, Bool, true, false, ◌≡◌, ◌≢◌, ◌↔◌, ◌⊎◌, inl, inr, List, [], ◌∷◌,
  Option, none, some, arith, is_empty, refl,
}
use execution_finality_for_a.Errors.{Reason}
use execution_finality_for_a.Models.{CandidateAct, ActStatus, ActStatus-discrete}
use execution_finality_for_a.Policy.{Policy, policy_tests, collect, validate}

abbrev pub RuntimeMismatch : Option Str → Str → Type 0
RuntimeMismatch none d = ⊥
RuntimeMismatch (some required) d = d ≢ required

-- What each reason says of the act.
abbrev pub Violates : Policy → CandidateAct → ℤ → Reason → Type 0
Violates p c now Reason.candidate_not_non_effective = c.status ≢ ActStatus.non_effective
Violates p c now Reason.policy_epoch_mismatch = c.policy_epoch ≢ p.policy_epoch
Violates p c now Reason.purpose_not_allowed = ¬ (Elem c.purpose p.allowed_purposes)
Violates p c now Reason.jurisdiction_not_allowed = ¬ (Elem c.jurisdiction p.allowed_jurisdictions)
Violates p c now Reason.sink_not_allowed = ¬ (Elem c.sink_id p.allowed_sinks)
Violates p c now Reason.boundary_not_allowed = ¬ (Elem c.boundary_id p.allowed_boundaries)
Violates p c now Reason.effect_class_not_allowed = ¬ (Elem c.effect_class p.allowed_effect_classes)
Violates p c now Reason.empty_scope = c.scope ≡ []
Violates p c now Reason.scope_not_allowed = ¬ (Subset c.scope p.allowed_scopes)
Violates p c now Reason.duplicate_scope = ¬ (Distinct c.scope)
Violates p c now Reason.source_revoked = Elem c.source p.revoked_sources
Violates p c now Reason.invalid_freshness = c.freshness_ns ≤ℤ pos 0
Violates p c now Reason.candidate_from_future = now <ℤ c.issued_at_ns -ℤ p.max_future_skew_ns
Violates p c now Reason.candidate_stale = c.issued_at_ns +ℤ c.freshness_ns <ℤ now
Violates p c now Reason.runtime_evidence_mismatch =
    RuntimeMismatch p.required_runtime_evidence_digest c.runtime_evidence_digest
Violates p c now Reason.quota_exhausted = ⊥
Violates p c now Reason.budget_exhausted = ⊥

-- Some test of the list fired with this reason.
abbrev Flagged : Reason → List (Bool × Reason) → Type 0
Flagged r [] = ⊥
Flagged r ((b, s) ∷ ts) = ((b ≡ true) × (r ≡ s)) ⊎ Flagged r ts

collect-Flagged : (r : Reason) (ts : List (Bool × Reason)) → Elem r (collect ts) ↔ Flagged r ts
unfolding collect
collect-Flagged r [] = (λ h. h, λ h. h)
collect-Flagged r ((true, s) ∷ ts) = ground (arith, collect-Flagged r ts)
collect-Flagged r ((false, s) ∷ ts) = ground (arith, collect-Flagged r ts)

is_empty-collect :
    (ts : List (Bool × Reason)) → (is_empty (collect ts) ≡ true) ↔ ((r : Reason) → ¬ (Flagged r ts))
unfolding collect
is_empty-collect [] = (λ _ _ h. h, λ _. refl)
is_empty-collect ((true, s) ∷ ts) = (λ h. cc, λ h. absurd (h s (inl (refl, refl))))
is_empty-collect ((false, s) ∷ ts) = (
  λ h r f. elim f [ inl x ↦ cc x.0 | inr g ↦ (is_empty-collect ts).0 h r g ],
  λ h. (is_empty-collect ts).1 (λ r g. h r (inr g)),
)

module _ (p : Policy) (c : CandidateAct) (now : ℤ) where
  Flagged-iff : (r : Reason) → Flagged r (policy_tests p c now) ↔ Violates p c now r
  unfolding policy_tests ActStatus-discrete
  Flagged-iff Reason.candidate_not_non_effective = ground arith
  Flagged-iff Reason.purpose_not_allowed = ground (arith, contains_iff p.allowed_purposes c.purpose)
  Flagged-iff Reason.jurisdiction_not_allowed =
      ground (arith, contains_iff p.allowed_jurisdictions c.jurisdiction)
  Flagged-iff Reason.sink_not_allowed = ground (arith, contains_iff p.allowed_sinks c.sink_id)
  Flagged-iff Reason.boundary_not_allowed =
      ground (arith, contains_iff p.allowed_boundaries c.boundary_id)
  Flagged-iff Reason.effect_class_not_allowed =
      ground (arith, contains_iff p.allowed_effect_classes c.effect_class)
  Flagged-iff Reason.scope_not_allowed = ground (arith, is_subset_iff c.scope p.allowed_scopes)
  Flagged-iff Reason.duplicate_scope = ground (arith, length-to_set_iff c.scope)
  Flagged-iff Reason.source_revoked = ground (arith, contains_iff p.revoked_sources c.source)
  Flagged-iff _ = ground arith

  -- `Policy.validate` reports a reason exactly if the act violates what the reason names.
  pub validate-reasons : (r : Reason) → Elem r (validate p c now).1 ↔ Violates p c now r
  unfolding validate
  validate-reasons r = (
    λ h. (Flagged-iff r).0 ((collect-Flagged r (policy_tests p c now)).0 h),
    λ h. (collect-Flagged r (policy_tests p c now)).1 ((Flagged-iff r).1 h),
  )

  -- `Policy.validate` allows an act exactly if it violates nothing.
  pub validate-allowed_iff : ((validate p c now).0 ≡ true) ↔ ((r : Reason) → ¬ (Violates p c now r))
  unfolding validate
  validate-allowed_iff = (
    λ h r v. (is_empty-collect (policy_tests p c now)).0 h r ((Flagged-iff r).1 v),
    λ h. (is_empty-collect (policy_tests p c now)).1 (λ r f. h r ((Flagged-iff r).0 f)),
  )
