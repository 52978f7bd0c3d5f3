-- ===== src/Protocol/Agreement.antt =====
-- What two acts with the same canonical bytes have in common: every field, up to the normal form of
-- text.
use execution_finality_for_a.Prelude.{
  Str, str, str_eq, ℤ, lookup, Str-discrete, ℕ_discrete, List, [], ◌∷◌, map, Option, some, true,
  false, ◌&&◌, Bool, ◌≡◌, ◌⊎◌, inl, inr, refl, arith,
}
use execution_finality_for_a.Errors.{ok, value_of}
use execution_finality_for_a.Platform.{Platform}
use execution_finality_for_a.Canonical.{
  Value, Json, normalize, canonical_bytes, sha256_hex, normalize_int,
}
use execution_finality_for_a.Canonical.Injective.{canonical_bytes_injective}
use execution_finality_for_a.Canonical.Fields.{NamesNormal, field_agrees, text_agrees, tuple_agrees}
use execution_finality_for_a.Models.{
  CandidateAct, ActStatus, Capability, candidate_fields, candidate_value, candidate_digest,
  status_value,
}
use execution_finality_for_a.Crypto.{is_ascii}
use execution_finality_for_a.Crypto.Laws.{NfcFixesAscii}
use execution_finality_for_a.Pop.{PresentationProof}
use execution_finality_for_a.Authority.{ProtectedAuthority, Vault, authorize}
use execution_finality_for_a.Sink.{FinalitySink, verify}
use execution_finality_for_a.Sink.Accepts.{verify_sound}
use execution_finality_for_a.Protocol.Binding.{SameAct, Collision, verify-binds}

-- Two texts with one NFC form.
abbrev pub SameText : ⦃p : Platform⦄ → Str → Str → Type 0
SameText ⦃p⦄ s t = p.nfc s ≡ p.nfc t

-- Two values that `_normalize` takes to one value.
abbrev pub SameValue : ⦃p : Platform⦄ → Value → Value → Type 0
SameValue v w = normalize false v ≡ normalize false w

-- Two acts agree in every field.
pub record Agree ⦃p : Platform⦄ (b c : CandidateAct) : Type 0 where
  pub act_id : SameText b.act_id c.act_id
  pub act_class : SameText b.act_class c.act_class
  pub effect_class : SameText b.effect_class c.effect_class
  pub source : SameText b.source c.source
  pub destination : SameText b.destination c.destination
  pub purpose : SameText b.purpose c.purpose
  pub jurisdiction : SameText b.jurisdiction c.jurisdiction
  pub policy_epoch : b.policy_epoch ≡ c.policy_epoch
  pub nonce : SameText b.nonce c.nonce
  pub issued_at_ns : b.issued_at_ns ≡ c.issued_at_ns
  pub freshness_ns : b.freshness_ns ≡ c.freshness_ns
  pub sink_id : SameText b.sink_id c.sink_id
  pub boundary_id : SameText b.boundary_id c.boundary_id
  pub scope : map p.nfc b.scope ≡ map p.nfc c.scope
  pub payload : SameValue b.payload c.payload
  pub runtime_evidence_digest : SameText b.runtime_evidence_digest c.runtime_evidence_digest
  pub authority_context :
      SameValue (Value.dict b.authority_context) (Value.dict c.authority_context)
  pub status : b.status ≡ c.status

-- The names of the fields are ASCII.
unfoldable pub all_ascii : List (Str × Value) → Bool
all_ascii [] = true
all_ascii ((k, _) ∷ es) = is_ascii k && all_ascii es

module _ ⦃p : Platform⦄ (fixes : NfcFixesAscii p) where
  pub NamesNormal-ascii : (es : List (Str × Value)) → all_ascii es ≡ true → NamesNormal es
  unfolding all_ascii
  NamesNormal-ascii [] h = tt
  NamesNormal-ascii ((k, v) ∷ es) h = ground (arith, fixes k, NamesNormal-ascii es)

  candidate_fields-NamesNormal : (c : CandidateAct) → NamesNormal (candidate_fields c)
  unfolding candidate_fields all_ascii is_ascii
  candidate_fields-NamesNormal c = NamesNormal-ascii (candidate_fields c) refl

  status_agrees : (a b : ActStatus) → p.nfc (status_value a) ≡ p.nfc (status_value b) → a ≡ b
  unfolding status_value is_ascii
  status_agrees ActStatus.non_effective ActStatus.non_effective h = refl
  status_agrees ActStatus.effective ActStatus.effective h = refl
  status_agrees ActStatus.non_effective ActStatus.effective h =
      ground (arith, fixes (str "NON_EFFECTIVE") refl, fixes (str "EFFECTIVE") refl)
  status_agrees ActStatus.effective ActStatus.non_effective h =
      ground (arith, fixes (str "NON_EFFECTIVE") refl, fixes (str "EFFECTIVE") refl)

  module _ (b c : CandidateAct) (j : Json) (hb : normalize false (candidate_value b) ≡ ok j)
      (hc : normalize false (candidate_value c) ≡ ok j) where
    value_at :
        (k : Str) (v w : Value)
        → lookup k (candidate_fields b) ≡ some v
        → lookup k (candidate_fields c) ≡ some w
        → (i : Json) × (normalize false v ≡ ok i) × (normalize false w ≡ ok i)
    unfolding candidate_value
    value_at k v w fb fc =
        field_agrees (candidate_fields b) (candidate_fields c) k v w j
          (candidate_fields-NamesNormal b) (candidate_fields-NamesNormal c) hb hc fb fc

    text_at :
        (k s t : Str)
        → lookup k (candidate_fields b) ≡ some (Value.text s)
        → lookup k (candidate_fields c) ≡ some (Value.text t)
        → SameText s t
    text_at k s t fb fc =
        let (i, es, et) = value_at k (Value.text s) (Value.text t) fb fc in text_agrees s t i es et

    int_at :
        (k : Str) (m n : ℤ)
        → lookup k (candidate_fields b) ≡ some (Value.int m)
        → lookup k (candidate_fields c) ≡ some (Value.int n)
        → m ≡ n
    unfolding normalize normalize_int
    int_at k m n fb fc =
        let (i, em, en) = value_at k (Value.int m) (Value.int n) fb fc in ground arith

    same_at :
        (k : Str) (v w : Value)
        → lookup k (candidate_fields b) ≡ some v
        → lookup k (candidate_fields c) ≡ some w
        → SameValue v w
    same_at k v w fb fc = let (i, ev, ew) = value_at k v w fb fc in ground arith

    normal-Agree : Agree b c
    unfolding candidate_fields lookup Str-discrete ℕ_discrete
    normal-Agree = record {
      act_id = text_at (str "act_id") b.act_id c.act_id refl refl;
      act_class = text_at (str "act_class") b.act_class c.act_class refl refl;
      effect_class = text_at (str "effect_class") b.effect_class c.effect_class refl refl;
      source = text_at (str "source") b.source c.source refl refl;
      destination = text_at (str "destination") b.destination c.destination refl refl;
      purpose = text_at (str "purpose") b.purpose c.purpose refl refl;
      jurisdiction = text_at (str "jurisdiction") b.jurisdiction c.jurisdiction refl refl;
      policy_epoch = int_at (str "policy_epoch") b.policy_epoch c.policy_epoch refl refl;
      nonce = text_at (str "nonce") b.nonce c.nonce refl refl;
      issued_at_ns = int_at (str "issued_at_ns") b.issued_at_ns c.issued_at_ns refl refl;
      freshness_ns = int_at (str "freshness_ns") b.freshness_ns c.freshness_ns refl refl;
      sink_id = text_at (str "sink_id") b.sink_id c.sink_id refl refl;
      boundary_id = text_at (str "boundary_id") b.boundary_id c.boundary_id refl refl;
      scope =
          let (i, eb, ec) = value_at (str "scope") _ _ refl refl in
          tuple_agrees b.scope c.scope i eb ec;
      payload = same_at (str "payload") b.payload c.payload refl refl;
      runtime_evidence_digest =
          text_at (str "runtime_evidence_digest") b.runtime_evidence_digest
            c.runtime_evidence_digest refl refl;
      authority_context =
          same_at (str "authority_context") (Value.dict b.authority_context)
            (Value.dict c.authority_context) refl refl;
      status =
          status_agrees b.status c.status
            (text_at (str "status") (status_value b.status) (status_value c.status) refl refl);
    }

  pub SameAct-Agree :
      (b c : CandidateAct) (d : Str) → candidate_digest b ≡ ok d → SameAct b c → Agree b c
  unfolding candidate_digest sha256_hex
  SameAct-Agree b c d digested same =
      let (bs, eb) = value_of (canonical_bytes (candidate_value b)) (ground arith) in
      let (j, hb, hc) =
        canonical_bytes_injective (candidate_value b) (candidate_value c) bs eb (ground arith) in
      normal-Agree b c j hb hc

  -- Where NFC leaves ASCII text as it is: a capability that was issued for an act is verified, by any
  -- sink, at any time and over any vault, only for an act that agrees with it in every field (texts up
  -- to their NFC form, payload and context up to their normal form), unless the two acts' different
  -- canonical bytes have one SHA-256 digest.
  pub verify-agrees :
      (a : ProtectedAuthority) (c b : CandidateAct) (now cost at : ℤ) (v u : Vault)
      (s : FinalitySink) (token : Capability) (proof : Option PresentationProof) (d : Str)
      → (authorize a c now cost v).0 ≡ ok token
      → verify s b token at proof u ≡ ok d
      → Agree b c ⊎ Collision b c
  verify-agrees a c b now cost at v u s token proof d issued verified =
      let (h, e, acc, _) = verify_sound s b token at proof u d verified in
      elim (verify-binds a c b now cost at v u s token proof d issued verified) [
        | inl same ↦ inl (SameAct-Agree b c token.candidate_digest acc.candidate same)
        | inr collision ↦ inr collision
      ]
