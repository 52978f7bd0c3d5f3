-- ===== src/Protocol/Possession.antt =====
-- A sink that asks for a proof of possession acts only for the presenter that the act names.
use execution_finality_for_a.Prelude.{
  Str, str, str_eq, ℤ, abs, ◌-ℤ◌, ◌≤ℤ◌, lookup, Bool, true, false, Option, some, none, ◌≡◌, ◌≢◌,
  refl, arith,
}
use execution_finality_for_a.Errors.{ok}
use execution_finality_for_a.Platform.{Platform}
use execution_finality_for_a.Canonical.{Value}
use execution_finality_for_a.Models.{CandidateAct, Capability, candidate_digest}
use execution_finality_for_a.Crypto.{HmacAuthenticator, hmac_authenticator, hmac_sign}
use execution_finality_for_a.Crypto.Laws.{hmac_verify_sound}
use execution_finality_for_a.Pop.{PresentationProof, Registry, unsigned_proof, registry_verify}
use execution_finality_for_a.Consumption.{ConsumptionStore, IsSingleUse}
use execution_finality_for_a.Effectors.{EffectHandle}
use execution_finality_for_a.Sink.{FinalitySink, context_get}
use execution_finality_for_a.Sink.Accepts.{Proves, Presents, verify_sound}
use execution_finality_for_a.Sink.Effectuate.{World, effectuate}
use execution_finality_for_a.Sink.Outcomes.{effect_requires}

-- The named presenter signed, with its own key, for this capability, act, sink and time.
pub record Possesses ⦃p : Platform⦄ (s : FinalitySink) (c : CandidateAct) (token : Capability)
    (now : ℤ) (k : HmacAuthenticator) (q : PresentationProof) : Type 0 where
  pub signed : hmac_sign k (unsigned_proof q) ≡ ok q.signature
  pub key : q.presenter_key_id ≡ k.key_id
  pub capability : q.capability_id ≡ token.capability_id
  pub candidate : candidate_digest c ≡ ok q.candidate_digest
  pub place : (q.sink_id ≡ s.context.sink_id) × (q.boundary_id ≡ s.context.boundary_id)
  pub nonce : q.nonce ≡ c.nonce
  pub fresh : abs (now -ℤ q.presented_at_ns) ≤ℤ s.presentation_freshness_ns

module _ ⦃p : Platform⦄ (s : FinalitySink) (c : CandidateAct) (token : Capability) (now : ℤ)
    (r : Registry) (i : Str) (k : HmacAuthenticator) (strict : s.require_presentation_proof ≡ true)
    (verifier : s.presenter_verifier ≡ some r)
    (named : context_get (str "presenter_key_id") c.authority_context ≡ some (Value.text i))
    (registered : lookup i r ≡ some (hmac_authenticator k)) where
  Proves-Possesses :
      (q : PresentationProof) → Proves s c token now q r → Possesses s c token now k q
  unfolding registry_verify
  Proves-Possesses q w =
      let same : i ≡ q.presenter_key_id = cc (named, w.presenter) in
      let (key, signed) =
        hmac_verify_sound k (unsigned_proof q) q.signature q.presenter_key_id
          (ground (arith, w.valid)) in
      record {
        signed = signed;
        key = key;
        capability = w.capability;
        candidate = w.candidate;
        place = w.place;
        nonce = w.nonce;
        fresh = w.fresh;
      }

  given :
      (proof : Option PresentationProof)
      → Presents s c token now s.require_presentation_proof proof s.presenter_verifier
      → (q : PresentationProof) × (proof ≡ some q) × Proves s c token now q r
  given proof h = split s.require_presentation_proof proof s.presenter_verifier strict verifier h
    where
      split :
          (b : Bool) (proof : Option PresentationProof) (o : Option Registry)
          → b ≡ true
          → o ≡ some r
          → Presents s c token now b proof o
          → (q : PresentationProof) × (proof ≡ some q) × Proves s c token now q r
      split true (some q) (some t) hb ho h = let same : t ≡ r = cc ho in (q, refl, rw (← same) h)
      split true none o hb ho h = absurd h
      split true (some q) none hb ho h = absurd h
      split false proof o hb ho h = cc hb

  -- Over a store that keeps the contract of single use: let a sink ask for proofs of possession, an act
  -- name a presenter, and the sink's registry hold an HMAC key for that name. The effector changes
  -- only where a proof is given that the presenter's own
  -- key signed, for this capability and act, this sink and boundary, and within the freshness.
  pub effect-Possesses :
      {S E : Type 0} (store : ConsumptionStore S) (handle : EffectHandle E)
      (single : IsSingleUse store) (proof : Option PresentationProof) (w : World S E)
      → (effectuate s c token now store handle proof w).1.effector ≢ w.effector
      → (q : PresentationProof) × (proof ≡ some q) × Possesses s c token now k q
  effect-Possesses store handle single proof w changed =
      let (d, verified, _, _) = effect_requires s c token now store handle proof w single changed in
      let (h, e, acc, _) = verify_sound s c token now proof w.vault d verified in
      let (q, same, proves) = given proof acc.presents in (q, same, Proves-Possesses q proves)
