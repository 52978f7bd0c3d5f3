-- ===== src/Authority/Encodable.antt =====
-- The acts that can be digested, and that every record which the authority digests or signs for them
-- is encodable.
use execution_finality_for_a.Prelude.{
  Str, str, str_eq, Str-discrete, ℕ_discrete, ℤ, [], ◌∷◌, none, ◌≡◌, refl, arith,
}
use execution_finality_for_a.Errors.{ok, value_of}
use execution_finality_for_a.Platform.{Platform}
use execution_finality_for_a.Canonical.{Value, fields, has_surrogate, sha256_hex}
use execution_finality_for_a.Canonical.Clean.{Clean}
use execution_finality_for_a.Canonical.Encodable.{Encodable}
use execution_finality_for_a.Models.{
  CandidateAct, ActStatus, Hcad, candidate_fields, candidate_value, hcad_value, hcad_fields,
  status_value, decision_value, payload_digest, candidate_digest, hcad_digest, build_hcad,
}
use execution_finality_for_a.Crypto.{is_ascii}
use execution_finality_for_a.Crypto.Documented.{
  IsDocumented, names_fit, AllClean, AllEncodable, texts-ItemsEncodable, fields-EntriesEncodable,
  fields-Encodable, digest_returns,
}
use execution_finality_for_a.State.{SourceState, transition_core}
use execution_finality_for_a.Authority.{ProtectedAuthority, evidence_core, capability_core}

-- No text of the act has a surrogate, and payload and context are encodable.
pub record IsEncodable ⦃p : Platform⦄ (c : CandidateAct) : Type 0 where
  pub act_id : Clean c.act_id
  pub act_class : Clean c.act_class
  pub effect_class : Clean c.effect_class
  pub source : Clean c.source
  pub destination : Clean c.destination
  pub purpose : Clean c.purpose
  pub jurisdiction : Clean c.jurisdiction
  pub nonce : Clean c.nonce
  pub sink_id : Clean c.sink_id
  pub boundary_id : Clean c.boundary_id
  pub scope : AllClean c.scope
  pub payload : Encodable c.payload
  pub runtime_evidence_digest : Clean c.runtime_evidence_digest
  pub authority_context : Encodable (Value.dict c.authority_context)

Clean-status : (s : ActStatus) → Clean (status_value s)
unfolding status_value has_surrogate
Clean-status ActStatus.non_effective = refl
Clean-status ActStatus.effective = refl

module _ ⦃p : Platform⦄ (doc : IsDocumented p) (c : CandidateAct) (enc : IsEncodable c) where
  pub candidate_digest_returns : (d : Str) × (candidate_digest c ≡ ok d) × Clean d
  unfolding candidate_digest candidate_value candidate_fields names_fit is_ascii Str-discrete
      ℕ_discrete Encodable
  candidate_digest_returns = digest_returns doc (candidate_value c) (
      fields-EntriesEncodable doc [] (candidate_fields c) refl
        (ground (arith, texts-ItemsEncodable c.scope enc.scope, Clean-status c.status)))

  pub build_hcad_returns :
      (h : Hcad) × (d : Str) × (build_hcad c none none ≡ ok h) × (hcad_digest h ≡ ok d) × Clean d
  unfolding build_hcad payload_digest hcad_digest hcad_value hcad_fields names_fit is_ascii
      Str-discrete ℕ_discrete Encodable has_surrogate
  build_hcad_returns =
      let (pd, ep, hp) = digest_returns doc c.payload enc.payload in
      let (h, eh) = value_of (build_hcad c none none) (ground arith) in
      let (d, ed, hd) = digest_returns doc (hcad_value h) (
        fields-EntriesEncodable doc [] (hcad_fields h) refl
          (ground (arith, texts-ItemsEncodable c.scope enc.scope))) in
      (h, d, ground arith, ed, hd)

  pub transition_digest_returns :
      (cost : ℤ) (st : SourceState) (d : Str)
      → Clean d
      → (i : Str) × (sha256_hex (Value.dict (fields (transition_core c cost st d))) ≡ ok i)
        × Clean i
  unfolding transition_core names_fit is_ascii Str-discrete ℕ_discrete Encodable
  transition_digest_returns cost st d hd =
      digest_returns doc (Value.dict (fields (transition_core c cost st d)))
        (fields-Encodable doc (transition_core c cost st d) refl (ground arith))

  module _ (a : ProtectedAuthority) (now : ℤ) (d cd tid : Str) (ha : Clean a.authority_id)
      (hk : Clean a.authenticator.key_id) (hd : Clean d) (hc : Clean cd) (ht : Clean tid) where
    evidence_core-AllEncodable : AllEncodable (evidence_core a c now d cd tid)
    unfolding evidence_core Encodable decision_value has_surrogate
    evidence_core-AllEncodable = ground arith

    pub evidence_core-Encodable : Encodable (Value.dict (fields (evidence_core a c now d cd tid)))
    unfolding evidence_core names_fit is_ascii Str-discrete ℕ_discrete
    evidence_core-Encodable =
        fields-Encodable doc (evidence_core a c now d cd tid) refl evidence_core-AllEncodable

    pub signed_evidence-Encodable :
        (i : Str)
        → Clean i
        → Encodable (
            Value.dict
              (fields ((str "evidence_id", Value.text i) ∷ evidence_core a c now d cd tid)))
    unfolding evidence_core names_fit is_ascii Str-discrete ℕ_discrete Encodable
    signed_evidence-Encodable i hi =
        fields-Encodable doc ((str "evidence_id", Value.text i) ∷ evidence_core a c now d cd tid)
          refl (hi, evidence_core-AllEncodable)

    module _ (eid : Str) (he : Clean eid) where
      capability_core-AllEncodable : AllEncodable (capability_core a c now d cd tid eid)
      unfolding capability_core Encodable
      capability_core-AllEncodable = ground (arith, texts-ItemsEncodable c.scope enc.scope)

      pub capability_core-Encodable :
          Encodable (Value.dict (fields (capability_core a c now d cd tid eid)))
      unfolding capability_core names_fit is_ascii Str-discrete ℕ_discrete
      capability_core-Encodable =
          fields-Encodable doc (capability_core a c now d cd tid eid) refl
            capability_core-AllEncodable

      pub signed_capability-Encodable :
          (i : Str)
          → Clean i
          → Encodable (
              Value.dict (
                fields
                  ((str "capability_id", Value.text i) ∷ capability_core a c now d cd tid eid)))
      unfolding capability_core names_fit is_ascii Str-discrete ℕ_discrete Encodable
      signed_capability-Encodable i hi =
          fields-Encodable doc
            ((str "capability_id", Value.text i) ∷ capability_core a c now d cd tid eid) refl
            (hi, capability_core-AllEncodable)
