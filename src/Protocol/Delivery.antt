-- ===== src/Protocol/Delivery.antt =====
-- An admissible act gets through: the authority issues, the sink accepts, the effect is made once, and
-- a receipt comes back.
use execution_finality_for_a.Prelude.{
  ℕ, Str, str, str_eq, Str-discrete, ℕ_discrete, ℤ, ◌-ℤ◌, ◌≤ℤ◌, false, Option, some, List, [], ◌∷◌,
  ◌++◌, length, ◌≡◌, refl, arith, ◌∙◌,
}
use execution_finality_for_a.Errors.{Result, ok, value_of}
use execution_finality_for_a.Pop.{PresentationProof}
use execution_finality_for_a.Platform.{Platform}
use execution_finality_for_a.Canonical.{Value, fields, has_surrogate}
use execution_finality_for_a.Canonical.Clean.{Clean}
use execution_finality_for_a.Canonical.Encodable.{Encodable}
use execution_finality_for_a.Models.{CandidateAct, Capability, SinkReceipt}
use execution_finality_for_a.Crypto.{is_ascii}
use execution_finality_for_a.Crypto.Documented.{
  IsDocumented, Signs, AllEncodable, names_fit, texts-ItemsEncodable, fields-Encodable,
  digest_returns, digest-Clean,
}
use execution_finality_for_a.Effectors.{
  EffectRecord, GuardedEffector, guarded_commit, bound_handle, reference_core,
}
use execution_finality_for_a.Authority.Encodable.{IsEncodable, candidate_digest_returns}
use execution_finality_for_a.Consumption.{ConsumptionStore, IsSingleUse}
use execution_finality_for_a.Effectors.Laws.{commit-ok}
use execution_finality_for_a.Sink.Effectuate.{World, claim_of, claim_and_effect, effectuate}
use execution_finality_for_a.Sink.{FinalitySink, verify}
use execution_finality_for_a.Sink.Receipt.{receipt_core, new_receipt, issue_receipt}
use execution_finality_for_a.Models.{hcad_digest, hcad_value}
use execution_finality_for_a.Authority.{
  ProtectedAuthority, Vault, authorize, new_capability, expiry,
}
use execution_finality_for_a.Authority.Outcome.{authorize-Issued}
use execution_finality_for_a.Authority.Succeeds.{
  Grants, IsReady, transition_returns, authorize_returns,
}
use execution_finality_for_a.Sink.Accepts.{Presents}
use execution_finality_for_a.Protocol.Crossing.{SharesKey, IsLocalTo, authorize-verify}

module _ ⦃p : Platform⦄ (doc : IsDocumented p) (c : CandidateAct) (enc : IsEncodable c) where
  -- A guarded effector that is reached through its own handle, and in which no failure is injected,
  -- makes the effect.
  guarded_commit_returns :
      (m : ℕ) (e : GuardedEffector)
      → m ≡ e.marker
      → e.fail_next ≡ false
      → Clean e.channel
      → (r : EffectRecord) × ((guarded_commit c m e).0 ≡ ok r) × Clean r.effect_reference
  unfolding guarded_commit reference_core names_fit is_ascii Str-discrete ℕ_discrete Encodable
  guarded_commit_returns m e own quiet channel =
      let (cd, ec, hc) = candidate_digest_returns doc c enc in
      let (i, ei, hi) =
        digest_returns doc (Value.dict (fields (reference_core e.channel cd (length e.records)))) (
          fields-Encodable doc (reference_core e.channel cd (length e.records)) refl
            (channel, (hc, (tt, tt)))) in
      (
        record {
          channel = e.channel;
          candidate_digest = cd;
          effect_reference = i;
          payload = c.payload;
        },
        ground (arith, own, quiet, ec, ei),
        hi,
      )

  receipt_core-AllEncodable :
      (s : FinalitySink) (token : Capability) (now : ℤ) (cd d r : Str)
      → Clean cd
      → Clean d
      → Clean r
      → Clean token.capability_id
      → Clean token.transition_id
      → token.scope ≡ c.scope
      → Clean s.context.sink_id
      → Clean s.context.boundary_id
      → Clean s.receipt_authenticator.key_id
      → AllEncodable (receipt_core s token now cd d (some r))
  unfolding receipt_core Encodable has_surrogate
  receipt_core-AllEncodable s token now cd d r hc hd hr hi ht same hs hb hk =
      ground (arith, texts-ItemsEncodable c.scope enc.scope)

  receipt_returns :
      (s : FinalitySink) (token : Capability) (now : ℤ) (d r : Str)
      → Signs s.receipt_authenticator
      → ((cd : Str) → Clean cd → AllEncodable (receipt_core s token now cd d (some r)))
      → (receipt : SinkReceipt) × (issue_receipt s c token now d (some r) ≡ ok receipt)
  unfolding issue_receipt receipt_core names_fit is_ascii Str-discrete ℕ_discrete Encodable
  receipt_returns s token now d r signs all =
      let (cd, ec, hc) = candidate_digest_returns doc c enc in
      let core : List (Str × Value) = receipt_core s token now cd d (some r) in
      let (i, ei, hi) =
        digest_returns doc (Value.dict (fields core))
          (fields-Encodable doc core refl (all cd hc)) in
      let signed : List (Str × Value) = (str "receipt_id", Value.text i) ∷ core in
      let (g, eg) =
        value_of (s.receipt_authenticator.sign (Value.dict (fields signed)))
          (signs (Value.dict (fields signed)) (fields-Encodable doc signed refl (hi, all cd hc))) in
      (new_receipt s token now cd d (some r) i g, ground (arith, ec, ei, eg))

-- The sink is local to the act, holds the authority's key, and signs receipts under a name without
-- surrogates.
pub record IsWay ⦃p : Platform⦄ (s : FinalitySink) (a : ProtectedAuthority) (c : CandidateAct)
    : Type 0 where
  pub shares : SharesKey a s
  pub place : IsLocalTo s c
  pub signs : Signs s.receipt_authenticator
  pub key_id : Clean s.receipt_authenticator.key_id

module _ ⦃p : Platform⦄ (doc : IsDocumented p) (a : ProtectedAuthority) (c : CandidateAct)
    (now cost : ℤ) (v : Vault) (ready : IsReady a) (enc : IsEncodable c)
    (g : Grants a c now cost v) where
  -- The texts of an issued capability that go into a receipt are without surrogates.
  pub token-Clean :
      (token : Capability)
      → (authorize a c now cost v).0 ≡ ok token
      → Clean token.capability_id
        × Clean token.transition_id
        × Clean token.descriptor_digest
        × (token.scope ≡ c.scope)
        × (token.expires_at_ns ≡ expiry a c now)
  unfolding new_capability hcad_digest
  token-Clean token r =
      let (h, t, d, cd, e, i) = authorize-Issued a c now cost v token r in
      let (t', et, ht) = transition_returns doc a c now cost v ready enc g in
      (
        digest-Clean doc _ token.capability_id i.capable.id,
        ground (arith, i.capable.shape, i.advanced, et, ht),
        ground (arith, i.capable.shape, digest-Clean doc (hcad_value h) d i.descriptor),
        ground (arith, i.capable.shape),
        ground (arith, i.capable.shape),
      )

  module _ (s : FinalitySink) (way : IsWay s a c) (at : ℤ)
      (proof : Capability → Option PresentationProof) {S : Type 0} (store : ConsumptionStore S)
      (single : IsSingleUse store) (used : S) (e : GuardedEffector) where
    -- What a sink finds after the call of the authority.
    abbrev pub issued_world : World S GuardedEffector
    issued_world = record { vault = (authorize a c now cost v).1; consumed = used; effector = e }

    -- A presentation of the capability at a later time.
    abbrev pub presented : Capability → Result SinkReceipt × World S GuardedEffector
    presented token =
        effectuate s c token at store (bound_handle e.marker) (proof token) issued_world

    effectuate_returns :
        (token : Capability) (d : Str) (r : EffectRecord) (receipt : SinkReceipt)
        → store.is_claimed token.capability_id used ≡ false
        → verify s c token at (proof token) issued_world.vault ≡ ok d
        → (guarded_commit c e.marker e).0 ≡ ok r
        → issue_receipt s c token at d (some r.effect_reference) ≡ ok receipt
        → ((presented token).0 ≡ ok receipt)
          × ((presented token).1.effector ≡ (guarded_commit c e.marker e).1)
    unfolding effectuate claim_and_effect bound_handle
    effectuate_returns token d r receipt free ev er ei =
        let result = single.claim-result token.capability_id (claim_of s token at) used in
        (ground (arith, result), ground (arith, result))

    -- Over a platform that does what the standard library documents, with signers that sign and verify,
    -- and with names without surrogates: for an encodable act that the policy allows, with a free
    -- nonce, quota, a budget for the positive cost and an evidence store that takes the record (its id
    -- is not taken), `authorize` returns a capability. A sink that is local to the act and holds the
    -- key takes it, from the issue (less the clock skew) to the expiry and with the proof of possession
    -- that it asks for, to a receipt and to one more effect, with the act's payload, where the store
    -- keeps the contract of single use and does not hold the capability, and the effector, called through its own
    -- handle, is not made to fail.
    pub delivered :
        ((token : Capability)
          → (authorize a c now cost v).0 ≡ ok token
          → Presents s c token at s.require_presentation_proof (proof token) s.presenter_verifier)
        → ((token : Capability)
            → (authorize a c now cost v).0 ≡ ok token
            → store.is_claimed token.capability_id used ≡ false)
        → e.fail_next ≡ false
        → Clean e.channel
        → now -ℤ s.max_clock_skew_ns ≤ℤ at
        → at ≤ℤ expiry a c now
        → (token : Capability) × (receipt : SinkReceipt) × (r : EffectRecord) × ((authorize a c now
              cost v).0
            ≡ ok token)
          × ((presented token).0 ≡ ok receipt)
          × ((presented token).1.effector ≡ record e { records = e.records ++ r ∷ [] })
          × (r.payload ≡ c.payload)
    delivered shown unused quiet channel early late =
        let (token, et) = authorize_returns doc a c now cost v ready enc g in
        let (hi, ht, hd, scope, expires) = token-Clean token et in
        let ev =
          authorize-verify a c now cost v s token at (proof token) way.shares way.place et early
            (rw expires late) (shown token et) in
        let (r, er, hr) = guarded_commit_returns doc c enc e.marker e refl quiet channel in
        let (receipt, ei) =
          receipt_returns doc c enc s token at token.descriptor_digest r.effect_reference way.signs
            (λ cd hc.
              receipt_core-AllEncodable doc c enc s token at cd token.descriptor_digest
                r.effect_reference hc hd hr hi ht scope (rw (← way.place.sink_id) enc.sink_id)
                (rw (← way.place.boundary_id) enc.boundary_id) way.key_id) in
        let (done, effect) =
          effectuate_returns token token.descriptor_digest r receipt (unused token et) ev er ei in
        let (after, _, _, _, _, _, payload) = commit-ok c e.marker e er in
        (token, receipt, r, et, done, effect ∙ after, payload)
