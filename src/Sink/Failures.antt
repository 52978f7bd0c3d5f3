-- ===== src/Sink/Failures.antt =====
-- The four ways in which `effectuate` raises, and what each of them leaves behind.
use execution_finality_for_a.Prelude.{
  ℤ, Str, str_eq, ◌==◌, ◌||◌, true, false, Option, some, ◌≡◌, ◌⊎◌, inl, inr, arith, Bool-cases,
}
use execution_finality_for_a.Errors.{Error, Denial, Replay, ok, err, Result-cases}
use execution_finality_for_a.Platform.{Platform}
use execution_finality_for_a.Models.{CandidateAct, Capability}
use execution_finality_for_a.Pop.{PresentationProof}
use execution_finality_for_a.Consumption.{ConsumptionStore, IsSingleUse}
use execution_finality_for_a.Effectors.{EffectHandle, EffectRecord}
use execution_finality_for_a.Sink.{FinalitySink, verify}
use execution_finality_for_a.Sink.Receipt.{issue_receipt}
use execution_finality_for_a.Sink.Outcomes.{vault-effectuate, claimed-effectuate}
use execution_finality_for_a.Sink.Effectuate.{World, claim_of, claim_and_effect, effectuate}

module _ ⦃p : Platform⦄ (s : FinalitySink) (c : CandidateAct) (token : Capability) (now : ℤ)
    {S E : Type 0} (store : ConsumptionStore S) (handle : EffectHandle E)
    (proof : Option PresentationProof) (w after : World S E) (x : Error) where
  -- The verification raised, and nothing was written.
  pub record Rejected : Type 0 where
    pub verified : verify s c token now proof w.vault ≡ err x
    pub untouched : after ≡ w

  -- The capability had been claimed; the effector was not called.
  pub record Replayed : Type 0 where
    pub digest : Str
    pub verified : verify s c token now proof w.vault ≡ ok digest
    pub before : store.is_claimed token.capability_id w.consumed ≡ true
    pub raised : x ≡ Error.replay_detected Replay.capability_consumed
    pub no_effect : after.effector ≡ w.effector
    pub kept : after.vault ≡ w.vault
    pub claims : (j : Str) → store.is_claimed j after.consumed ≡ store.is_claimed j w.consumed

  -- The effector raised; the capability is used up.
  pub record Failed : Type 0 where
    pub digest : Str
    pub cause : Error
    pub verified : verify s c token now proof w.vault ≡ ok digest
    pub before : store.is_claimed token.capability_id w.consumed ≡ false
    pub claimed : store.is_claimed token.capability_id after.consumed ≡ true
    pub effect : handle.commit c w.effector ≡ (err cause, after.effector)
    pub raised : x ≡ Error.effect_denied (Denial.downstream cause)
    pub kept : after.vault ≡ w.vault
    pub claims :
        (j : Str)
        → store.is_claimed j after.consumed
          ≡ (j == token.capability_id || store.is_claimed j w.consumed)

  -- The effect was made, and the receipt could not be written.
  pub record Unreceipted : Type 0 where
    pub digest : Str
    pub record_made : EffectRecord
    pub verified : verify s c token now proof w.vault ≡ ok digest
    pub before : store.is_claimed token.capability_id w.consumed ≡ false
    pub claimed : store.is_claimed token.capability_id after.consumed ≡ true
    pub effect : handle.commit c w.effector ≡ (ok record_made, after.effector)
    pub raised : issue_receipt s c token now digest (some record_made.effect_reference) ≡ err x
    pub kept : after.vault ≡ w.vault
    pub claims :
        (j : Str)
        → store.is_claimed j after.consumed
          ≡ (j == token.capability_id || store.is_claimed j w.consumed)

module _ ⦃p : Platform⦄ (s : FinalitySink) (c : CandidateAct) (token : Capability) (now : ℤ)
    {S E : Type 0} (store : ConsumptionStore S) (handle : EffectHandle E)
    (proof : Option PresentationProof) (w : World S E) (single : IsSingleUse store) where
  -- Over a store that keeps the contract of single use, a call that raises has ended in one of four
  -- ways, each with the error that it raises and with what it leaves: the vault as it was, the claims
  -- of every capability, and the effector.
  pub effectuate-err :
      (x : Error)
      → (effectuate s c token now store handle proof w).0 ≡ err x
      → let after = (effectuate s c token now store handle proof w).1 in
        Rejected s c token now store handle proof w after x
        ⊎ Replayed s c token now store handle proof w after x
        ⊎ Failed s c token now store handle proof w after x
        ⊎ Unreceipted s c token now store handle proof w after x
  unfolding effectuate claim_and_effect
  effectuate-err x h =
      let result = single.claim-result token.capability_id (claim_of s token now) w.consumed in
      let claims =
        single.claimed-claim token.capability_id token.capability_id (claim_of s token now)
          w.consumed in
      elim (Result-cases (verify s c token now proof w.vault)) [
        | inr (y, ey) ↦ inl (record { verified = ground arith; untouched = ground arith })
        | inl (d, ed) ↦ elim (Bool-cases (store.is_claimed token.capability_id w.consumed)) [
          | inl used ↦ inr (
              inl (record {
                digest = d;
                verified = ed;
                before = used;
                raised = ground (arith, result);
                no_effect = ground (arith, result);
                kept = vault-effectuate s c token now store handle proof w;
                claims = λ j. ground (
                  arith,
                  claimed-effectuate s c token now store handle proof w single j ed,
                  used,
                );
              }))
          | inr free ↦ elim (Result-cases (handle.commit c w.effector).0) [
            | inr (y, ey) ↦ inr (
                inr (
                  inl (record {
                    digest = d;
                    cause = y;
                    verified = ed;
                    before = free;
                    claimed = ground (arith, result, claims);
                    effect = ground (arith, result);
                    raised = ground (arith, result);
                    kept = vault-effectuate s c token now store handle proof w;
                    claims = λ j. claimed-effectuate s c token now store handle proof w single j ed;
                  })))
            | inl (effect, ee) ↦ inr (
                inr (
                  inr (record {
                    digest = d;
                    record_made = effect;
                    verified = ed;
                    before = free;
                    claimed = ground (arith, result, claims);
                    effect = ground (arith, result);
                    raised = ground (arith, result);
                    kept = vault-effectuate s c token now store handle proof w;
                    claims = λ j. claimed-effectuate s c token now store handle proof w single j ed;
                  })))
          ]
        ]
      ]
