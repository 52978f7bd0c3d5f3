-- ===== src/Programs/Session.antt =====
-- What the programs do with one act: `cap = authority.authorize(c)`, a proof of possession where the
-- sink asks for one, and `sink.effectuate(c, cap, …)`.
use execution_finality_for_a.Prelude.{
  List, str_eq, ℤ, pos, ◌-ℤ◌, ◌≤ℤ◌, false, Option, none, [], ◌∷◌, ◌++◌, ◌≡◌, arith,
}
use execution_finality_for_a.Errors.{Result, ok, err}
use execution_finality_for_a.Exec.{Exec, pure, lift, ◌>>=◌}
use execution_finality_for_a.Platform.{Platform}
use execution_finality_for_a.Canonical.Clean.{Clean}
use execution_finality_for_a.Models.{CandidateAct, Capability, SinkReceipt}
use execution_finality_for_a.Pop.{PresentationProof}
use execution_finality_for_a.Crypto.Documented.{IsDocumented}
use execution_finality_for_a.Consumption.{ConsumptionStore, IsSingleUse}
use execution_finality_for_a.Effectors.{EffectRecord, EffectHandle, GuardedEffector, bound_handle}
use execution_finality_for_a.Authority.{ProtectedAuthority, Vault, authorize, expiry}
use execution_finality_for_a.Authority.Encodable.{IsEncodable}
use execution_finality_for_a.Authority.Succeeds.{Grants, IsReady}
use execution_finality_for_a.Sink.{FinalitySink}
use execution_finality_for_a.Sink.Effectuate.{World, effectuate}
use execution_finality_for_a.Sink.Accepts.{Presents}
use execution_finality_for_a.Protocol.Delivery.{IsWay, delivered}

-- What `prove` makes of a capability before it is presented.
abbrev pub Proving : Type 0
Proving = Capability → Result (Option PresentationProof)

-- `sink.effectuate(c, cap)`: no proof is made.
abbrev pub bearer : Proving
bearer token = ok none

-- The proof, where making it did not raise.
abbrev pub made : Result (Option PresentationProof) → Option PresentationProof
made (ok proof) = proof
made (err _) = none

abbrev pub on_vault : {S E A : Type 0} → Exec Vault A → Exec (World S E) A
on_vault m w = let (r, v) = m w.vault in (r, record w { vault = v })

module _ ⦃p : Platform⦄ (a : ProtectedAuthority) (s : FinalitySink) (c : CandidateAct) where
  -- The authority reads the time `now`, the sink the time `at`.
  unfoldable pub session :
      {S E : Type 0}
      → ConsumptionStore S
      → EffectHandle E
      → Proving
      → ℤ
      → ℤ
      → Exec (World S E) SinkReceipt
  session store handle prove now at = do
    token ← on_vault (authorize a c now (pos 1))
    proof ← lift (prove token)
    effectuate s c token at store handle proof

-- An act of a loop, and the readings of the clock in `authorize` and in `effectuate`.
pub record Job : Type 0 where
  pub candidate : CandidateAct
  pub now : ℤ
  pub at : ℤ

module _ ⦃p : Platform⦄ (a : ProtectedAuthority) (s : FinalitySink) where
  -- A loop over acts; an exception ends it.
  unfoldable pub sessions :
      {S E : Type 0}
      → ConsumptionStore S
      → EffectHandle E
      → List Job
      → Exec (World S E) (List SinkReceipt)
  sessions store handle [] = pure []
  sessions store handle (q ∷ qs) = do
    receipt ← session a s q.candidate store handle bearer q.now q.at
    receipts ← sessions store handle qs
    pure (receipt ∷ receipts)

-- A program has done its work: it has a receipt, and there is one more effect, with the act's payload.
pub record Delivers (c : CandidateAct) (e : GuardedEffector) {S : Type 0}
    (done : Result SinkReceipt × World S GuardedEffector) : Type 0 where
  pub receipt : SinkReceipt
  pub effect : EffectRecord
  pub returned : done.0 ≡ ok receipt
  pub effects : done.1.effector ≡ record e { records = e.records ++ effect ∷ [] }
  pub payload : effect.payload ≡ c.payload

module _ ⦃p : Platform⦄ (doc : IsDocumented p) (a : ProtectedAuthority) (s : FinalitySink)
    (c : CandidateAct) (now at : ℤ) (v : Vault) {S : Type 0} (store : ConsumptionStore S) (used : S)
    (e : GuardedEffector) where
  -- A session delivers where the authority is ready, the act is granted, the sink is the act's, and
  -- the proof, if one is asked for, is made for the capability that is issued.
  pub session-Delivers :
      (prove : Proving) (proof : Capability → Option PresentationProof)
      → IsSingleUse store
      → IsReady a
      → IsEncodable c
      → Grants a c now (pos 1) v
      → IsWay s a c
      → ((token : Capability)
          → (authorize a c now (pos 1) v).0 ≡ ok token
          → (prove token ≡ ok (proof token))
            × Presents s c token at s.require_presentation_proof (proof token) s.presenter_verifier)
      → ((token : Capability)
          → (authorize a c now (pos 1) v).0 ≡ ok token
          → store.is_claimed token.capability_id used ≡ false)
      → e.fail_next ≡ false
      → Clean e.channel
      → now -ℤ s.max_clock_skew_ns ≤ℤ at
      → at ≤ℤ expiry a c now
      → Delivers c e (
          session a s c store
            (bound_handle e.marker)
            prove
            now
            at
            (record { vault = v; consumed = used; effector = e }))
  unfolding session
  session-Delivers prove proof single ready enc g way shown unused quiet channel early late =
      let (token, receipt, r, issued, done, effects, payload) =
        delivered doc a c now (pos 1) v ready enc g s way at proof store single used e
          (λ t h. (shown t h).1) unused quiet channel early late in
      let (proved, _) = shown token issued in
      record {
        receipt = receipt;
        effect = r;
        returned = ground (arith, issued, proved, done);
        effects = ground (arith, issued, proved, effects);
        payload = payload;
      }
