-- ===== src/Sink.antt =====
-- src/finality_ref/sink.py: `FinalitySink`, which verifies a capability once more with its own
-- identity and claims it before the effect. `now` is `now_ns`, or the reading of the clock.
pub mod Accepts
pub mod Receipt
pub mod Effectuate
pub mod Outcomes
pub mod Failures
use execution_finality_for_a.Prelude.{
  Str, str, ℤ, ◌+ℤ◌, ◌-ℤ◌, ltb_ℤ, abs, str_eq, strs_eq, int_eq, ◌==◌, is_subset, not, ◌||◌, Bool,
  true, Option, none, some, if◌then◌else◌,
}
use execution_finality_for_a.Errors.{Error, Check, Result, ok, err, ◌>>=◌, ◌>>◌, fail_if}
use execution_finality_for_a.Platform.{Platform}
use execution_finality_for_a.Canonical.{Value, Entries}
use execution_finality_for_a.Models.{
  CandidateAct, Capability, SinkContext, ValidationEvidence, unsigned_capability, build_hcad,
  hcad_digest, candidate_digest,
}
use execution_finality_for_a.Crypto.{Authenticator}
use execution_finality_for_a.Evidence.{get, evidence_signed, is_allow}
use execution_finality_for_a.Policy.{is_non_effective}
use execution_finality_for_a.State.{verify_transition}
use execution_finality_for_a.Pop.{PresentationProof, Registry, registry_verify}
use execution_finality_for_a.Authority.{Vault}

pub record FinalitySink : Type 0 where
  pub context : SinkContext
  pub authenticator : Authenticator
  pub max_clock_skew_ns : ℤ
  pub receipt_authenticator : Authenticator
  pub presenter_verifier : Option Registry
  pub require_presentation_proof : Bool
  pub presentation_freshness_ns : ℤ

abbrev pub or_authority : Option Authenticator → Authenticator → Authenticator
or_authority (some a) b = a
or_authority none b = b

-- `if c: self._fail(message)`
abbrev pub reject_if : Bool → Check → Result (Unit {0})
reject_if c e = fail_if c (Error.verification_failed e)

abbrev pub fail : {A : Type 0} → Check → Result A
fail e = err (Error.verification_failed e)

-- The checks up to the signature: identity, epoch, scope, nonce and times.
unfoldable pub check_bindings : FinalitySink → CandidateAct → Capability → ℤ → Result (Unit {0})
unfolding is_non_effective
check_bindings s c token now = do
  reject_if (not (is_non_effective c)) Check.candidate_not_non_effective
  reject_if (not (c.effect_class == s.context.effect_class)) Check.effect_class_mismatch
  reject_if (not (c.sink_id == s.context.sink_id) || not (token.sink_id == s.context.sink_id))
      Check.sink_binding_mismatch
  reject_if
      (not (c.boundary_id == s.context.boundary_id)
        || not (token.boundary_id == s.context.boundary_id))
      Check.boundary_binding_mismatch
  reject_if
      (not (c.policy_epoch == s.context.policy_epoch)
        || not (token.policy_epoch == s.context.policy_epoch))
      Check.policy_epoch_mismatch
  reject_if (not (c.scope == token.scope)) Check.scope_binding_mismatch
  reject_if (not (is_subset token.scope s.context.supported_scopes))
      Check.scope_not_supported_by_sink
  reject_if (not (token.nonce == c.nonce)) Check.nonce_binding_mismatch
  reject_if (ltb_ℤ now (token.issued_at_ns -ℤ s.max_clock_skew_ns)) Check.capability_from_future
  reject_if (ltb_ℤ token.expires_at_ns now) Check.capability_expired
  reject_if (ltb_ℤ (c.issued_at_ns +ℤ c.freshness_ns) token.expires_at_ns)
      Check.capability_outlives_candidate

-- `candidate.authority_context.get(key)`
unfoldable pub context_get : Str → Entries → Option Value
context_get k Entries.end = none
context_get k (Entries.entry (Value.text j) v es) = if j == k then some v else context_get k es
context_get k (Entries.entry _ v es) = context_get k es

-- `not isinstance(expected_key, str) or proof.presenter_key_id != expected_key`
abbrev pub not_presenter : Option Value → Str → Bool
not_presenter (some (Value.text k)) presenter = not (presenter == k)
not_presenter _ presenter = true

-- The checks on the evidence record that the capability names.
unfoldable pub check_evidence : FinalitySink → Capability → ValidationEvidence → Result (Unit {0})
check_evidence s token e = do
  signed ← evidence_signed s.authenticator e
  reject_if (not signed) Check.validation_evidence_signature_invalid
  reject_if (not (is_allow e)) Check.validation_evidence_not_allow
  reject_if (not (e.authority_id == token.authority_id)) Check.authority_binding_mismatch
  reject_if (not (e.candidate_digest == token.candidate_digest)) Check.evidence_candidate_mismatch
  reject_if (not (e.descriptor_digest == token.descriptor_digest))
      Check.evidence_descriptor_mismatch
  reject_if (not (e.transition_id == token.transition_id)) Check.evidence_transition_mismatch
  reject_if (not (e.policy_epoch == token.policy_epoch)) Check.evidence_epoch_mismatch

abbrev pub found_evidence : Option ValidationEvidence → Result ValidationEvidence
found_evidence none = fail Check.validation_evidence_missing
found_evidence (some e) = ok e

module _ ⦃p : Platform⦄ (s : FinalitySink) (c : CandidateAct) (token : Capability) (now : ℤ) where
  -- The checks on a proof that is there, with a registry to verify it.
  unfoldable pub check_proof : PresentationProof → Registry → Result (Unit {0})
  check_proof q r = do
    reject_if
        (not_presenter (context_get (str "presenter_key_id") c.authority_context)
          q.presenter_key_id)
        Check.presenter_binding_mismatch
    reject_if (not (q.capability_id == token.capability_id)) Check.presentation_capability_mismatch
    digest ← candidate_digest c
    reject_if (not (q.candidate_digest == digest)) Check.presentation_candidate_mismatch
    reject_if (not (q.sink_id == s.context.sink_id) || not (q.boundary_id == s.context.boundary_id))
        Check.presentation_sink_boundary_mismatch
    reject_if (not (q.nonce == c.nonce)) Check.presentation_nonce_mismatch
    reject_if (ltb_ℤ s.presentation_freshness_ns (abs (now -ℤ q.presented_at_ns)))
        Check.presentation_stale
    valid ← registry_verify r q
    reject_if (not valid) Check.presentation_signature_invalid

  -- `if presentation_proof is None or self.presenter_verifier is None`
  abbrev pub check_given : Option PresentationProof → Option Registry → Result (Unit {0})
  check_given (some q) (some r) = check_proof q r
  check_given _ _ = fail Check.presentation_proof_required

  -- `if self.require_presentation_proof:`
  unfoldable pub check_presentation : Option PresentationProof → Result (Unit {0})
  check_presentation proof =
      if s.require_presentation_proof then check_given proof s.presenter_verifier else ok tt

  -- `verify`: the digest of the sink's own descriptor of the act.
  unfoldable pub verify : Option PresentationProof → Vault → Result Str
  verify proof v = do
    check_bindings s c token now
    signed ← s.authenticator.verify (unsigned_capability token) token.signature token.key_id
    reject_if (not signed) Check.capability_signature_invalid
    check_presentation proof
    digest ← candidate_digest c
    reject_if (not (token.candidate_digest == digest)) Check.candidate_digest_mismatch
    local_descriptor ← build_hcad c (some s.context.sink_id) (some s.context.boundary_id)
    descriptor ← hcad_digest local_descriptor
    reject_if (not (token.descriptor_digest == descriptor)) Check.descriptor_digest_mismatch
    evidence ← found_evidence (get token.evidence_id v.evidence)
    check_evidence s token evidence
    reject_if (not (verify_transition token.transition_id c v.state))
        Check.protected_state_transition_invalid
    ok descriptor
