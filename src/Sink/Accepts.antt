-- ===== src/Sink/Accepts.antt =====
-- What a sink accepts, said without its checks, and the proof that `verify` decides it.
use execution_finality_for_a.Prelude.{
  Str, str, str_eq, strs_eq, int_eq, ℤ, ◌+ℤ◌, ◌-ℤ◌, ◌≤ℤ◌, abs, Subset, is_subset_iff, Bool, true,
  false, Option, none, some, ◌≡◌, refl, sym, arith, if◌then◌else◌,
}
use execution_finality_for_a.Errors.{ok, value_of}
use execution_finality_for_a.Platform.{Platform}
use execution_finality_for_a.Canonical.{Value}
use execution_finality_for_a.Models.{
  CandidateAct, Hcad, Capability, ActStatus, ActStatus-discrete, Decision, Decision-discrete,
  ValidationEvidence, unsigned_capability, build_hcad, hcad_digest, candidate_digest,
}
use execution_finality_for_a.Evidence.{get, evidence_signed, is_allow}
use execution_finality_for_a.State.{verify_transition}
use execution_finality_for_a.Pop.{PresentationProof, Registry, registry_verify}
use execution_finality_for_a.Authority.{Vault}
use execution_finality_for_a.Sink.{
  FinalitySink, check_bindings, context_get, not_presenter, check_proof, check_given,
  check_presentation, check_evidence, found_evidence, verify,
}

-- The capability fits the act and the sink's own identity, at this time.
pub record Binds (s : FinalitySink) (c : CandidateAct) (token : Capability) (now : ℤ) : Type 0 where
  pub status : c.status ≡ ActStatus.non_effective
  pub effect_class : c.effect_class ≡ s.context.effect_class
  pub sink : (c.sink_id ≡ s.context.sink_id) × (token.sink_id ≡ s.context.sink_id)
  pub boundary :
      (c.boundary_id ≡ s.context.boundary_id) × (token.boundary_id ≡ s.context.boundary_id)
  pub epoch :
      (c.policy_epoch ≡ s.context.policy_epoch) × (token.policy_epoch ≡ s.context.policy_epoch)
  pub scope : c.scope ≡ token.scope
  pub supported : Subset token.scope s.context.supported_scopes
  pub nonce : token.nonce ≡ c.nonce
  pub not_from_future : token.issued_at_ns -ℤ s.max_clock_skew_ns ≤ℤ now
  pub not_expired : now ≤ℤ token.expires_at_ns
  pub not_outliving : token.expires_at_ns ≤ℤ c.issued_at_ns +ℤ c.freshness_ns

module _ (s : FinalitySink) (c : CandidateAct) (token : Capability) (now : ℤ) where
  check_bindings_sound : check_bindings s c token now ≡ ok tt → Binds s c token now
  unfolding check_bindings ActStatus-discrete
  check_bindings_sound h = ground (arith, is_subset_iff token.scope s.context.supported_scopes)

  check_bindings_complete : Binds s c token now → check_bindings s c token now ≡ ok tt
  unfolding check_bindings ActStatus-discrete
  check_bindings_complete b = ground (arith, is_subset_iff token.scope s.context.supported_scopes)

-- The proof of possession names this presentation, is fresh, and verifies.
pub record Proves ⦃p : Platform⦄ (s : FinalitySink) (c : CandidateAct) (token : Capability)
    (now : ℤ) (q : PresentationProof) (r : Registry) : Type 0 where
  pub presenter :
      context_get (str "presenter_key_id") c.authority_context
      ≡ some (Value.text q.presenter_key_id)
  pub capability : q.capability_id ≡ token.capability_id
  pub candidate : candidate_digest c ≡ ok q.candidate_digest
  pub place : (q.sink_id ≡ s.context.sink_id) × (q.boundary_id ≡ s.context.boundary_id)
  pub nonce : q.nonce ≡ c.nonce
  pub fresh : abs (now -ℤ q.presented_at_ns) ≤ℤ s.presentation_freshness_ns
  pub valid : registry_verify r q ≡ ok true

module _ ⦃p : Platform⦄ (s : FinalitySink) (c : CandidateAct) (token : Capability) (now : ℤ) where
  -- Where a proof is required, one is given, and a registry to verify it.
  abbrev pub Presents : Bool → Option PresentationProof → Option Registry → Type 0
  Presents false proof registry = Unit
  Presents true (some q) (some r) = Proves s c token now q r
  Presents true _ _ = ⊥

  presenter_sound :
      (o : Option Value) (k : Str) → not_presenter o k ≡ false → o ≡ some (Value.text k)
  presenter_sound none k h = cc
  presenter_sound (some (Value.text j)) k h = ground arith
  presenter_sound (some _) k h = cc

  check_proof_sound :
      (q : PresentationProof) (r : Registry)
      → check_proof s c token now q r ≡ ok tt
      → Proves s c token now q r
  unfolding check_proof
  check_proof_sound q r h = ground (
    arith,
    presenter_sound (context_get (str "presenter_key_id") c.authority_context) q.presenter_key_id,
  )

  check_proof_complete :
      (q : PresentationProof) (r : Registry)
      → Proves s c token now q r
      → check_proof s c token now q r ≡ ok tt
  unfolding check_proof
  check_proof_complete q r w = ground arith

  check_presentation_sound :
      (proof : Option PresentationProof)
      → check_presentation s c token now proof ≡ ok tt
      → Presents s.require_presentation_proof proof s.presenter_verifier
  unfolding check_presentation
  check_presentation_sound proof h = split s.require_presentation_proof proof s.presenter_verifier h
    where
      split :
          (b : Bool) (proof : Option PresentationProof) (r : Option Registry)
          → (if b then check_given s c token now proof r else ok tt) ≡ ok tt
          → Presents b proof r
      split false proof r h = tt
      split true (some q) (some r) h = check_proof_sound q r h
      split true _ _ h = cc

  check_presentation_complete :
      (proof : Option PresentationProof)
      → Presents s.require_presentation_proof proof s.presenter_verifier
      → check_presentation s c token now proof ≡ ok tt
  unfolding check_presentation
  check_presentation_complete proof h =
      split s.require_presentation_proof proof s.presenter_verifier h
    where
      split :
          (b : Bool) (proof : Option PresentationProof) (r : Option Registry)
          → Presents b proof r
          → (if b then check_given s c token now proof r else ok tt) ≡ ok tt
      split false proof r h = refl
      split true (some q) (some r) h = check_proof_complete q r h
      split true none r h = absurd h
      split true (some q) none h = absurd h

-- The evidence record is a signed allow that names the capability's authority and digests.
pub record Vouches (s : FinalitySink) (token : Capability) (e : ValidationEvidence) : Type 0 where
  pub signed : evidence_signed s.authenticator e ≡ ok true
  pub allowed : e.decision ≡ Decision.allow
  pub authority : e.authority_id ≡ token.authority_id
  pub candidate : e.candidate_digest ≡ token.candidate_digest
  pub descriptor : e.descriptor_digest ≡ token.descriptor_digest
  pub transition : e.transition_id ≡ token.transition_id
  pub epoch : e.policy_epoch ≡ token.policy_epoch

module _ (s : FinalitySink) (token : Capability) (e : ValidationEvidence) where
  check_evidence_sound : check_evidence s token e ≡ ok tt → Vouches s token e
  unfolding check_evidence is_allow Decision-discrete
  check_evidence_sound h = ground arith

  check_evidence_complete : Vouches s token e → check_evidence s token e ≡ ok tt
  unfolding check_evidence is_allow Decision-discrete
  check_evidence_complete w = ground arith

-- A sink accepts: every binding holds, the capability and its evidence are signed, the proof of
-- possession is there where it is required, both digests are those of the act at hand under the
-- sink's own identity, and the protected state has the transition.
pub record Accepts ⦃p : Platform⦄ (s : FinalitySink) (c : CandidateAct) (token : Capability)
    (now : ℤ) (proof : Option PresentationProof) (v : Vault) (h : Hcad) (e : ValidationEvidence)
    : Type 0 where
  pub binds : Binds s c token now
  pub signed :
      s.authenticator.verify (unsigned_capability token) token.signature token.key_id ≡ ok true
  pub presents : Presents s c token now s.require_presentation_proof proof s.presenter_verifier
  pub candidate : candidate_digest c ≡ ok token.candidate_digest
  pub built : build_hcad c (some s.context.sink_id) (some s.context.boundary_id) ≡ ok h
  pub descriptor : hcad_digest h ≡ ok token.descriptor_digest
  pub evidence : get token.evidence_id v.evidence ≡ some e
  pub vouches : Vouches s token e
  pub transition : verify_transition token.transition_id c v.state ≡ true

module _ ⦃p : Platform⦄ (s : FinalitySink) (c : CandidateAct) (token : Capability) (now : ℤ)
    (proof : Option PresentationProof) (v : Vault) where
  -- Whatever passes all the acceptance conditions is verified, and the result is the digest of the
  -- descriptor.
  pub verify_complete :
      (h : Hcad) (e : ValidationEvidence)
      → Accepts s c token now proof v h e
      → verify s c token now proof v ≡ ok token.descriptor_digest
  unfolding verify
  verify_complete h e w = rw (check_bindings_complete s c token now w.binds) (
      rw (check_presentation_complete s c token now proof w.presents) (
        rw (w.signed, w.candidate, w.built)
          (ground (arith, check_evidence_complete s token e w.vouches))))

  first_checks :
      (d : Str)
      → verify s c token now proof v ≡ ok d
      → (check_bindings s c token now ≡ ok tt)
        × (s.authenticator.verify (unsigned_capability token) token.signature token.key_id
            ≡ ok true)
        × (check_presentation s c token now proof ≡ ok tt)
        × (candidate_digest c ≡ ok token.candidate_digest)
  unfolding verify
  first_checks d r = ground arith

  last_checks :
      (d : Str)
      → verify s c token now proof v ≡ ok d
      → (h : Hcad) × (e : ValidationEvidence) × (build_hcad c
            (some s.context.sink_id)
            (some s.context.boundary_id)
          ≡ ok h)
        × (hcad_digest h ≡ ok d)
        × (token.descriptor_digest ≡ d)
        × (get token.evidence_id v.evidence ≡ some e)
        × (check_evidence s token e ≡ ok tt)
        × (verify_transition token.transition_id c v.state ≡ true)
  unfolding verify
  last_checks d r =
      let (h, eh) =
        value_of (build_hcad c (some s.context.sink_id) (some s.context.boundary_id))
          (ground arith) in
      let (e, ee) = value_of (found_evidence (get token.evidence_id v.evidence)) (ground arith) in
      (h, e, eh, ground arith, ground arith, ground arith, ground arith, ground arith)

  -- A verification that returns has met all the acceptance conditions.
  pub verify_sound :
      (d : Str)
      → verify s c token now proof v ≡ ok d
      → (h : Hcad) × (e : ValidationEvidence) × Accepts s c token now proof v h e
        × (d ≡ token.descriptor_digest)
  verify_sound d r =
      let (eb, es, ep, ec) = first_checks d r in
      let (h, e, eh, ed, same, ee, ev, et) = last_checks d r in
      (
        h,
        e,
        record {
          binds = check_bindings_sound s c token now eb;
          signed = es;
          presents = check_presentation_sound s c token now proof ep;
          candidate = ec;
          built = eh;
          descriptor = rw same ed;
          evidence = ee;
          vouches = check_evidence_sound s token e ev;
          transition = et;
        },
        sym same,
      )
