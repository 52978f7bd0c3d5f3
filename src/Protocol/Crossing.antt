-- ===== src/Protocol/Crossing.antt =====
-- What an authority issues, a sink with the same key, identity and epoch verifies.
use execution_finality_for_a.Prelude.{
  Str, str_eq, ℤ, ◌+ℤ◌, ◌-ℤ◌, ◌≤ℤ◌, ◌<ℤ◌, int_laws, pos, min_ℤ, Subset, true, Option, some, ◌≡◌,
  ◌∙◌, arith, ◌⊎◌,
}
use execution_finality_for_a.Errors.{Reason, ok}
use execution_finality_for_a.Platform.{Platform}
use execution_finality_for_a.Models.{
  CandidateAct, ActStatus, ActStatus-discrete, Hcad, Capability, StateTransition,
  ValidationEvidence, unsigned_capability, build_hcad-local,
}
use execution_finality_for_a.Crypto.Laws.{Verifies}
use execution_finality_for_a.Evidence.{get}
use execution_finality_for_a.Evidence.Laws.{commit-ok, get-commit}
use execution_finality_for_a.Policy.{validate}
use execution_finality_for_a.Policy.Admissible.{validate-allowed_iff}
use execution_finality_for_a.State.{verify_transition}
use execution_finality_for_a.State.Laws.{verify-transition}
use execution_finality_for_a.Pop.{PresentationProof}
use execution_finality_for_a.Authority.{
  ProtectedAuthority, Vault, authorize, new_capability, new_evidence, expiry,
}
use execution_finality_for_a.Authority.Outcome.{Issued, authorize-Issued}
use execution_finality_for_a.Sink.{FinalitySink, verify}
use execution_finality_for_a.Sink.Accepts.{Binds, Presents, Vouches, Accepts, verify_complete}

-- The sink has the identity and the epoch that the act names, and supports its scopes.
pub record IsLocalTo (s : FinalitySink) (c : CandidateAct) : Type 0 where
  pub effect_class : c.effect_class ≡ s.context.effect_class
  pub sink_id : c.sink_id ≡ s.context.sink_id
  pub boundary_id : c.boundary_id ≡ s.context.boundary_id
  pub policy_epoch : c.policy_epoch ≡ s.context.policy_epoch
  pub scope : Subset c.scope s.context.supported_scopes

-- Authority, evidence store and sink hold one key.
pub record SharesKey (a : ProtectedAuthority) (s : FinalitySink) : Type 0 where
  pub store : a.evidence_authenticator ≡ a.authenticator
  pub sink : s.authenticator ≡ a.authenticator
  pub verifies : Verifies a.authenticator

module _ ⦃p : Platform⦄ (a : ProtectedAuthority) (c : CandidateAct) (now cost : ℤ) (v : Vault) where
  expiry-le : expiry a c now ≤ℤ c.issued_at_ns +ℤ c.freshness_ns
  unfolding expiry min_ℤ
  expiry-le = ground arith

  now-le-later : pos 0 ≤ℤ a.capability_ttl_ns → now ≤ℤ now +ℤ a.capability_ttl_ns
  now-le-later h = omega int_laws

  now-le-expiry :
      ¬ (c.issued_at_ns +ℤ c.freshness_ns <ℤ now)
      → pos 0 ≤ℤ a.capability_ttl_ns
      → now ≤ℤ expiry a c now
  unfolding expiry min_ℤ
  now-le-expiry fresh h = ground (arith, now-le-later h)

  -- An act that the policy let through is non-effective.
  status-allowed : (validate a.policy c now).0 ≡ true → c.status ≡ ActStatus.non_effective
  status-allowed h = elim (ActStatus-discrete c.status ActStatus.non_effective) [
    | yes e ↦ e
    | no n ↦ absurd ((validate-allowed_iff a.policy c now).0 h Reason.candidate_not_non_effective n)
  ]

  module _ (s : FinalitySink) (token : Capability) (h : Hcad) (t : StateTransition) (d cd : Str)
      (e : ValidationEvidence) (w : Vault) (i : Issued a c now cost v w token h t d cd e) where
    Issued-Binds :
        (at : ℤ)
        → IsLocalTo s c
        → now -ℤ s.max_clock_skew_ns ≤ℤ at
        → at ≤ℤ token.expires_at_ns
        → Binds s c token at
    unfolding new_capability
    Issued-Binds at l early late =
        ground (arith, i.capable.shape, expiry-le, status-allowed i.allowed)

    Issued-Vouches : SharesKey a s → Vouches s token e
    unfolding new_capability new_evidence
    Issued-Vouches k = ground (
      arith,
      i.capable.shape,
      i.evidenced.shape,
      commit-ok a.evidence_authenticator e v.evidence i.evidenced.committed,
    )

    Issued-evidence : get token.evidence_id w.evidence ≡ some e
    unfolding new_capability
    Issued-evidence = ground (
      arith,
      i.capable.shape,
      i.evidenced.after,
      get-commit a.evidence_authenticator e v.evidence e.evidence_id i.evidenced.committed,
    )

    Issued-transition : verify_transition token.transition_id c w.state ≡ true
    unfolding new_capability
    Issued-transition =
        ground
          (arith, i.capable.shape, i.evidenced.after, verify-transition c cost v.state i.advanced)

    Issued-Accepts :
        (at : ℤ) (proof : Option PresentationProof)
        → SharesKey a s
        → IsLocalTo s c
        → now -ℤ s.max_clock_skew_ns ≤ℤ at
        → at ≤ℤ token.expires_at_ns
        → Presents s c token at s.require_presentation_proof proof s.presenter_verifier
        → Accepts s c token at proof w h e
    unfolding new_capability
    Issued-Accepts at proof k l early late shown = record {
      binds = Issued-Binds at l early late;
      signed = ground (
        arith,
        k.sink,
        i.capable.shape,
        k.verifies.sign-verify (unsigned_capability token) token.signature i.capable.signed,
      );
      presents = shown;
      candidate = ground (arith, i.candidate, i.capable.shape);
      built =
          build_hcad-local c s.context.sink_id s.context.boundary_id l.sink_id l.boundary_id
          ∙ i.built;
      descriptor = ground (arith, i.descriptor, i.capable.shape);
      evidence = Issued-evidence;
      vouches = Issued-Vouches k;
      transition = Issued-transition;
    }

  -- A capability that `authorize` returned is verified by every sink that shares the key of the
  -- authority and its evidence store and is local to the act, from the issue (less the clock skew)
  -- to the expiry, if the proof of possession that the sink requires is shown, over the vault that
  -- the call left.
  pub authorize-verify :
      (s : FinalitySink) (token : Capability) (at : ℤ) (proof : Option PresentationProof)
      → SharesKey a s
      → IsLocalTo s c
      → (authorize a c now cost v).0 ≡ ok token
      → now -ℤ s.max_clock_skew_ns ≤ℤ at
      → at ≤ℤ token.expires_at_ns
      → Presents s c token at s.require_presentation_proof proof s.presenter_verifier
      → verify s c token at proof (authorize a c now cost v).1 ≡ ok token.descriptor_digest
  authorize-verify s token at proof k l r early late shown =
      let (h, t, d, cd, e, i) = authorize-Issued a c now cost v token r in
      verify_complete s c token at proof (authorize a c now cost v).1 h e (
        Issued-Accepts s token h t d cd e (authorize a c now cost v).1 i at proof k l early late
          shown)

  -- A capability that `authorize` returned carries the time of the call, expires exactly with
  -- the act or the authority's time to live, whichever is first, and with a time to live that is not negative
  -- has not expired when it is issued.
  pub authorize-expiry :
      (token : Capability)
      → (authorize a c now cost v).0 ≡ ok token
      → (token.issued_at_ns ≡ now)
        × (token.expires_at_ns ≤ℤ c.issued_at_ns +ℤ c.freshness_ns)
        × (token.expires_at_ns ≤ℤ now +ℤ a.capability_ttl_ns)
        × ((token.expires_at_ns ≡ c.issued_at_ns +ℤ c.freshness_ns)
            ⊎ (token.expires_at_ns ≡ now +ℤ a.capability_ttl_ns))
        × (pos 0 ≤ℤ a.capability_ttl_ns → now ≤ℤ token.expires_at_ns)
  unfolding new_capability expiry min_ℤ
  authorize-expiry token r =
      let (h, t, d, cd, e, i) = authorize-Issued a c now cost v token r in
      let fresh = (validate-allowed_iff a.policy c now).0 i.allowed Reason.candidate_stale in
      (
        ground (arith, i.capable.shape),
        ground (arith, i.capable.shape),
        ground (arith, i.capable.shape),
        ground (arith, i.capable.shape),
        λ h. ground (arith, i.capable.shape, now-le-expiry fresh h),
      )
