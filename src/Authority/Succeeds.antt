-- ===== src/Authority/Succeeds.antt =====
-- The calls of `authorize` that return: what is asked of the act, the policy, the state and the stores
-- is enough.
use execution_finality_for_a.Prelude.{
  Str, str, str_eq, ℤ, pos, ◌≤ℤ◌, lookup, true, false, none, List, ◌∷◌, ◌≡◌, refl, arith,
}
use execution_finality_for_a.Errors.{ok, value_of}
use execution_finality_for_a.Platform.{Platform}
use execution_finality_for_a.Canonical.{Value, fields, sha256_hex}
use execution_finality_for_a.Canonical.Clean.{Clean}
use execution_finality_for_a.Models.{
  CandidateAct, Hcad, Capability, StateTransition, build_hcad, hcad_digest, candidate_digest,
  ValidationEvidence, unsigned_evidence,
}
use execution_finality_for_a.Crypto.Laws.{Verifies}
use execution_finality_for_a.Crypto.Documented.{IsDocumented, Signs, digest_returns}
use execution_finality_for_a.Evidence.{get, evidence_signed}
use execution_finality_for_a.Evidence.Laws.{commit_returns}
use execution_finality_for_a.Policy.{validate}
use execution_finality_for_a.State.{
  ProtectedState, transition_for_authorization, get_source, new_transition,
}
use execution_finality_for_a.State.Laws.{entry}
use execution_finality_for_a.Authority.{
  ProtectedAuthority, Vault, evidence_core, new_evidence, capability_core, new_capability,
  commit_evidence, issue_capability, certify, authorize,
}
use execution_finality_for_a.Authority.Encodable.{
  IsEncodable, candidate_digest_returns, build_hcad_returns, transition_digest_returns,
  evidence_core-Encodable, signed_evidence-Encodable, capability_core-Encodable,
  signed_capability-Encodable,
}

-- What the policy, the protected state and the evidence store ask of a call.
pub record Grants ⦃p : Platform⦄ (a : ProtectedAuthority) (c : CandidateAct) (now cost : ℤ)
    (v : Vault) : Type 0 where
  pub allowed : (validate a.policy c now).0 ≡ true
  pub positive : pos 1 ≤ℤ cost
  pub fresh : lookup c.nonce v.state.nonces ≡ none
  pub has_quota : pos 1 ≤ℤ (entry c.source v.state).quota
  pub has_budget : cost ≤ℤ (entry c.source v.state).budget
  pub open_store : v.evidence.fail_commits ≡ false
  -- the evidence id that the call computes is not taken
  pub new_id :
      (h : Hcad) (d cd : Str) (t : StateTransition) (i : Str)
      → build_hcad c none none ≡ ok h
      → hcad_digest h ≡ ok d
      → candidate_digest c ≡ ok cd
      → (transition_for_authorization c cost v.state).0 ≡ ok t
      → sha256_hex (Value.dict (fields (evidence_core a c now d cd t.transition_id))) ≡ ok i
      → get i v.evidence ≡ none

-- The authority and its evidence store hold one signer, which signs and verifies, and the names that
-- it signs are without surrogates.
pub record IsReady ⦃p : Platform⦄ (a : ProtectedAuthority) : Type 0 where
  pub authority_id : Clean a.authority_id
  pub key_id : Clean a.authenticator.key_id
  pub signs : Signs a.authenticator
  pub verifies : Verifies a.authenticator
  pub store : a.evidence_authenticator ≡ a.authenticator

module _ ⦃p : Platform⦄ (a : ProtectedAuthority) (c : CandidateAct) (now : ℤ) (d cd tid : Str)
    (w : Vault) where
  evidence_committed :
      (i s : Str)
      → sha256_hex (Value.dict (fields (evidence_core a c now d cd tid))) ≡ ok i
      → a.authenticator.sign
          (Value.dict (fields ((str "evidence_id", Value.text i) ∷ evidence_core a c now d cd tid)))
        ≡ ok s
      → evidence_signed a.evidence_authenticator (new_evidence a c now d cd tid i s) ≡ ok true
      → w.evidence.fail_commits ≡ false
      → get i w.evidence ≡ none
      → (commit_evidence a c now d cd tid w).0 ≡ ok (new_evidence a c now d cd tid i s)
  unfolding commit_evidence new_evidence
  evidence_committed i s ei es signed open_store new = ground (
    arith,
    commit_returns a.evidence_authenticator (new_evidence a c now d cd tid i s) w.evidence,
  )

  capability_issued :
      (eid i s : Str)
      → sha256_hex (Value.dict (fields (capability_core a c now d cd tid eid))) ≡ ok i
      → a.authenticator.sign (
          Value.dict
            (fields ((str "capability_id", Value.text i) ∷ capability_core a c now d cd tid eid)))
        ≡ ok s
      → (issue_capability a c now d cd tid eid w).0 ≡ ok (new_capability a c now d cd tid eid i s)
  unfolding issue_capability
  capability_issued eid i s ei es = ground arith

-- The protected state grants a positive cost for a free nonce where quota and budget suffice.
pub transition_granted :
    ⦃p : Platform⦄ (doc : IsDocumented p) (c : CandidateAct) (enc : IsEncodable c) (cost : ℤ)
    (s : ProtectedState)
    → pos 1 ≤ℤ cost
    → lookup c.nonce s.nonces ≡ none
    → pos 1 ≤ℤ (entry c.source s).quota
    → cost ≤ℤ (entry c.source s).budget
    → (t : StateTransition) × ((transition_for_authorization c cost s).0 ≡ ok t)
      × Clean t.transition_id
unfolding transition_for_authorization get_source new_transition
transition_granted doc c enc cost s positive fresh quota budget =
    let (cd, ec, hc) = candidate_digest_returns doc c enc in
    let (i, ei, hi) = transition_digest_returns doc c enc cost (entry c.source s) cd hc in
    (new_transition c cost (entry c.source s) i, ground arith, hi)

module _ ⦃p : Platform⦄ (doc : IsDocumented p) (a : ProtectedAuthority) (c : CandidateAct)
    (now cost : ℤ) (v : Vault) (ready : IsReady a) (enc : IsEncodable c)
    (g : Grants a c now cost v) where
  pub transition_returns :
      (t : StateTransition) × ((transition_for_authorization c cost v.state).0 ≡ ok t)
      × Clean t.transition_id
  transition_returns =
      transition_granted doc c enc cost v.state g.positive g.fresh g.has_quota g.has_budget

  module _ (d cd tid : Str) (hd : Clean d) (hc : Clean cd) (ht : Clean tid) where
    commit_evidence_returns :
        (w : Vault)
        → w.evidence ≡ v.evidence
        → ((i : Str)
            → sha256_hex (Value.dict (fields (evidence_core a c now d cd tid))) ≡ ok i
            → get i v.evidence ≡ none)
        → (e : ValidationEvidence) × ((commit_evidence a c now d cd tid w).0 ≡ ok e)
          × Clean e.evidence_id
    unfolding commit_evidence
    commit_evidence_returns w kept new =
        let (i, ei, hi) =
          digest_returns doc (Value.dict (fields (evidence_core a c now d cd tid))) (
            evidence_core-Encodable doc c enc a now d cd tid ready.authority_id ready.key_id hd hc
              ht) in
        let core = (str "evidence_id", Value.text i) ∷ evidence_core a c now d cd tid in
        let (s, es) = value_of (a.authenticator.sign (Value.dict (fields core))) (
          ready.signs (Value.dict (fields core)) (
            signed_evidence-Encodable doc c enc a now d cd tid ready.authority_id ready.key_id hd hc
              ht i hi)) in
        let signed : evidence_signed a.evidence_authenticator (new_evidence a c now d cd tid i s)
            ≡ ok true =
          unfold evidence_signed new_evidence unsigned_evidence evidence_core in
          ground (arith, ready.store, ready.verifies.sign-verify (Value.dict (fields core)) s es) in
        (
          new_evidence a c now d cd tid i s,
          evidence_committed a c now d cd tid w i s ei es signed
              (ground (arith, kept, g.open_store)) (rw kept (new i ei)),
          unfold new_evidence in hi,
        )

    capability_returns :
        (w : Vault) (eid : Str)
        → Clean eid
        → (token : Capability) × ((issue_capability a c now d cd tid eid w).0 ≡ ok token)
    capability_returns w eid he =
        let (i, ei, hi) =
          digest_returns doc (Value.dict (fields (capability_core a c now d cd tid eid))) (
            capability_core-Encodable doc c enc a now d cd tid ready.authority_id ready.key_id hd hc
              ht eid he) in
        let core : List (Str × Value) =
          (str "capability_id", Value.text i) ∷ capability_core a c now d cd tid eid in
        let (s, es) = value_of (a.authenticator.sign (Value.dict (fields core))) (
          ready.signs (Value.dict (fields core)) (
            signed_capability-Encodable doc c enc a now d cd tid ready.authority_id ready.key_id hd
              hc ht eid he i hi)) in
        (
          new_capability a c now d cd tid eid i s,
          capability_issued a c now d cd tid w eid i s ei es,
        )

  -- Over a platform that does what the standard library documents, an authority whose signer signs
  -- and verifies returns a capability for every encodable act that its policy allows, if the nonce is
  -- free, quota and budget suffice, and the evidence store takes the record.
  pub authorize_returns : (token : Capability) × ((authorize a c now cost v).0 ≡ ok token)
  unfolding authorize certify
  authorize_returns =
      let (h, d, eh, ed, hd) = build_hcad_returns doc c enc in
      let (cd, ec, hc) = candidate_digest_returns doc c enc in
      let (t, et, ht) = transition_returns in
      let w : Vault = record v { state = (transition_for_authorization c cost v.state).1 } in
      let (e, ee, he) =
        commit_evidence_returns d cd t.transition_id hd hc ht w refl
          (λ i. g.new_id h d cd t i eh ed ec et) in
      let (token, es) =
        capability_returns d cd t.transition_id hd hc ht
          (commit_evidence a c now d cd t.transition_id w).1 e.evidence_id he in
      (token, ground (arith, eh, ed, ec, et, ee, es, g.allowed))
