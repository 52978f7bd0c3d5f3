-- ===== src/Sink/Effectuate.antt =====
-- `FinalitySink.effectuate`: verify, claim, effect, receipt. The consumption store and the effect
-- handle are the protocols that the sink is built with.
use execution_finality_for_a.Prelude.{Str, ℤ, Option, some}
use execution_finality_for_a.Errors.{Error, Denial, Result, ok, err}
use execution_finality_for_a.Exec.{Exec, lift, gets, ◌>>=◌, ◌>>◌}
use execution_finality_for_a.Platform.{Platform}
use execution_finality_for_a.Models.{CandidateAct, Capability, SinkReceipt}
use execution_finality_for_a.Pop.{PresentationProof}
use execution_finality_for_a.Consumption.{ConsumptionStore, Claim}
use execution_finality_for_a.Effectors.{EffectHandle}
use execution_finality_for_a.Authority.{Vault}
use execution_finality_for_a.Sink.{FinalitySink, verify}
use execution_finality_for_a.Sink.Receipt.{issue_receipt}

-- Every object that the protocol writes: the vault, the consumed capabilities, the effector.
pub record World (S E : Type 0) : Type 0 where
  pub vault : Vault
  pub consumed : S
  pub effector : E

-- What the claim of a capability records.
unfoldable pub claim_of : FinalitySink → Capability → ℤ → Claim
claim_of s token now = record {
  sink_id = s.context.sink_id;
  boundary_id = s.context.boundary_id;
  nonce = token.nonce;
  now_ns = now;
}

-- `except Exception as exc: raise EffectDenied(str(exc)) from exc`
abbrev pub denied : {A : Type 0} → Result A → Result A
denied (ok a) = ok a
denied (err x) = err (Error.effect_denied (Denial.downstream x))

abbrev pub on_consumed : {S E A : Type 0} → Exec S A → Exec (World S E) A
on_consumed m w = let (r, c) = m w.consumed in (r, record w { consumed = c })

abbrev pub on_effector : {S E A : Type 0} → Exec E A → Exec (World S E) A
on_effector m w = let (r, e) = m w.effector in (r, record w { effector = e })

abbrev pub catching : {S A : Type 0} → Exec S A → Exec S A
catching m s = let (r, s') = m s in (denied r, s')

module _ ⦃p : Platform⦄ (s : FinalitySink) (c : CandidateAct) (token : Capability) (now : ℤ) where
  module _ {S E : Type 0} (store : ConsumptionStore S) (handle : EffectHandle E) where
    -- The claim and the effect, after a verification that returned this descriptor digest.
    unfoldable pub claim_and_effect : Str → Exec (World S E) SinkReceipt
    claim_and_effect descriptor = do
      on_consumed (store.claim token.capability_id (claim_of s token now))
      effect ← on_effector (catching (handle.commit c))
      lift (issue_receipt s c token now descriptor (some effect.effect_reference))

    unfoldable pub effectuate : Option PresentationProof → Exec (World S E) SinkReceipt
    effectuate proof = do
      verified ← gets (λ w. verify s c token now proof w.vault)
      descriptor ← lift verified
      claim_and_effect descriptor
