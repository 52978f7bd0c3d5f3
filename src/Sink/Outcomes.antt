-- ===== src/Sink/Outcomes.antt =====
-- How `effectuate` ends, and what it leaves, on each of its branches.
use execution_finality_for_a.Prelude.{
  ℤ, List, [], ◌∷◌, ◌≢◌, ◌∙◌, refl, Str, str_eq, ◌==◌, ℤ, ◌||◌, true, false, Option, some, ◌≡◌,
  arith,
}
use execution_finality_for_a.Errors.{Error, Denial, Replay, Result, ok, err, is_ok, value_of}
use execution_finality_for_a.Platform.{Platform}
use execution_finality_for_a.Models.{
  CandidateAct, Capability, SinkReceipt, candidate_digest, unsigned_receipt,
}
use execution_finality_for_a.Pop.{PresentationProof}
use execution_finality_for_a.Consumption.{ConsumptionStore, IsSingleUse}
use execution_finality_for_a.Effectors.{EffectHandle, EffectRecord}
use execution_finality_for_a.Sink.{FinalitySink, verify}
use execution_finality_for_a.Sink.Receipt.{issue_receipt, new_receipt, issue_receipt-ok}
use execution_finality_for_a.Sink.Effectuate.{World, claim_of, claim_and_effect, effectuate}

module _ ⦃p : Platform⦄ (s : FinalitySink) (c : CandidateAct) (token : Capability) (now : ℤ)
    {S E : Type 0} (store : ConsumptionStore S) (handle : EffectHandle E)
    (proof : Option PresentationProof) (w : World S E) where
  -- A capability that is not verified causes nothing: no claim, no effect, no write at all.
  pub effectuate_rejected :
      {x : Error}
      → verify s c token now proof w.vault ≡ err x
      → effectuate s c token now store handle proof w ≡ (err x, w)
  unfolding effectuate
  effectuate_rejected h = ground arith

  -- The vault is only read.
  pub vault-effectuate : (effectuate s c token now store handle proof w).1.vault ≡ w.vault
  unfolding effectuate claim_and_effect
  vault-effectuate = ground arith

  module _ (single : IsSingleUse store) where
    -- A capability that has been claimed is refused by every later presentation, and the effector
    -- is not called.
    pub effectuate_replayed :
        {d : Str}
        → verify s c token now proof w.vault ≡ ok d
        → store.is_claimed token.capability_id w.consumed ≡ true
        → ((effectuate s c token now store handle proof w).0
            ≡ err (Error.replay_detected Replay.capability_consumed))
          × ((effectuate s c token now store handle proof w).1.effector ≡ w.effector)
    unfolding effectuate claim_and_effect
    effectuate_replayed h claimed =
        ground (arith, single.claim-result token.capability_id (claim_of s token now) w.consumed)

    -- Whatever becomes of the effect, a verified capability is claimed afterwards, and no claim of
    -- another capability has changed.
    pub claimed-effectuate :
        (j : Str) {d : Str}
        → verify s c token now proof w.vault ≡ ok d
        → store.is_claimed j (effectuate s c token now store handle proof w).1.consumed
          ≡ (j == token.capability_id || store.is_claimed j w.consumed)
    unfolding effectuate claim_and_effect
    claimed-effectuate j h =
        ground (arith, single.claimed-claim j token.capability_id (claim_of s token now) w.consumed)

    -- An effect that fails downstream denies the call and leaves the capability claimed.
    pub effectuate_failed :
        {d : Str} {x : Error}
        → verify s c token now proof w.vault ≡ ok d
        → store.is_claimed token.capability_id w.consumed ≡ false
        → (handle.commit c w.effector).0 ≡ err x
        → ((effectuate s c token now store handle proof w).0
            ≡ err (Error.effect_denied (Denial.downstream x)))
          × (store.is_claimed token.capability_id
                (effectuate s c token now store handle proof w).1.consumed
              ≡ true)
    unfolding effectuate claim_and_effect
    effectuate_failed h fresh failed = ground (
      arith,
      single.claim-result token.capability_id (claim_of s token now) w.consumed,
      single.claimed-claim token.capability_id token.capability_id (claim_of s token now)
          w.consumed,
    )

    -- Over a store that keeps the contract of single use, a receipt is returned only for a verified
    -- capability that had not been claimed, is claimed now, and had its effect made once, by the
    -- commit that the receipt refers to.
    pub effectuate-receipt :
        (receipt : SinkReceipt)
        → (effectuate s c token now store handle proof w).0 ≡ ok receipt
        → (d : Str) × (effect : EffectRecord) × (verify s c token now proof w.vault ≡ ok d)
          × (store.is_claimed token.capability_id w.consumed ≡ false)
          × (store.is_claimed token.capability_id
                (effectuate s c token now store handle proof w).1.consumed
              ≡ true)
          × ((handle.commit c w.effector).0 ≡ ok effect)
          × ((effectuate s c token now store handle proof w).1.effector
              ≡ (handle.commit c w.effector).1)
          × (candidate_digest c ≡ ok receipt.candidate_digest)
          × (receipt
              ≡ new_receipt s token now receipt.candidate_digest d
                  (some effect.effect_reference)
                  receipt.receipt_id
                  receipt.signature)
          × (s.receipt_authenticator.sign (unsigned_receipt receipt) ≡ ok receipt.signature)
    unfolding effectuate claim_and_effect
    effectuate-receipt receipt h =
        let (d, ed) = value_of (verify s c token now proof w.vault) (ground arith) in
        let result = single.claim-result token.capability_id (claim_of s token now) w.consumed in
        let after =
          single.claimed-claim token.capability_id token.capability_id (claim_of s token now)
            w.consumed in
        let (effect, ee) = value_of (handle.commit c w.effector).0 (ground arith) in
        let issued : issue_receipt s c token now d (some effect.effect_reference) ≡ ok receipt =
          ground arith in
        let (same, shape, signed) =
          issue_receipt-ok s c token now d (some effect.effect_reference) receipt issued in
        (
          d,
          effect,
          ed,
          ground (arith, result),
          ground (arith, result, after),
          ee,
          ground arith,
          same,
          shape,
          signed,
        )

    -- Over a store that keeps the contract of single use, the effector changes only by a verified
    -- capability that had not been claimed, and that is claimed now: on every other branch there is
    -- no effect.
    pub effect_requires :
        (effectuate s c token now store handle proof w).1.effector ≢ w.effector
        → (d : Str) × (verify s c token now proof w.vault ≡ ok d)
          × (store.is_claimed token.capability_id w.consumed ≡ false)
          × (store.is_claimed token.capability_id
                (effectuate s c token now store handle proof w).1.consumed
              ≡ true)
    unfolding effectuate claim_and_effect
    effect_requires changed =
        let result = single.claim-result token.capability_id (claim_of s token now) w.consumed in
        let after =
          single.claimed-claim token.capability_id token.capability_id (claim_of s token now)
            w.consumed in
        let (d, ed) = value_of (verify s c token now proof w.vault) (ground arith) in
        (d, ed, ground (arith, result), ground (arith, result, after))

    -- A presentation of a claimed capability ends in an error without an effect, and leaves every
    -- claim in place.
    pub effectuate_claimed :
        store.is_claimed token.capability_id w.consumed ≡ true
        → (is_ok (effectuate s c token now store handle proof w).0 ≡ false)
          × ((effectuate s c token now store handle proof w).1.effector ≡ w.effector)
          × ((j : Str)
              → store.is_claimed j w.consumed ≡ true
              → store.is_claimed j (effectuate s c token now store handle proof w).1.consumed
                ≡ true)
    unfolding effectuate claim_and_effect
    effectuate_claimed claimed =
        let result = single.claim-result token.capability_id (claim_of s token now) w.consumed in
        (
          ground (arith, result),
          ground (arith, result),
          λ j h.
              ground (
                arith,
                single.claimed-claim j token.capability_id (claim_of s token now) w.consumed,
              ),
        )

-- A presentation to some sink that shares the store.
pub record Presentation : Type 0 where
  pub sink : FinalitySink
  pub candidate : CandidateAct
  pub token : Capability
  pub now : ℤ
  pub proof : Option PresentationProof

module _ ⦃p : Platform⦄ {S E : Type 0} (store : ConsumptionStore S) (handle : EffectHandle E) where
  abbrev pub present : Presentation → World S E → Result SinkReceipt × World S E
  present q w = effectuate q.sink q.candidate q.token q.now store handle q.proof w

  -- Presentations of one capability, one after the other.
  unfoldable pub present_all : Str → List Presentation → World S E → World S E
  present_all j [] w = w
  present_all j (q ∷ qs) w =
      present_all j qs (present (record q { token = record q.token { capability_id = j } }) w).1

  module _ (single : IsSingleUse store) where
    retries :
        (j : Str) (qs : List Presentation) (w : World S E)
        → store.is_claimed j w.consumed ≡ true
        → (present_all j qs w).effector ≡ w.effector
    unfolding present_all
    retries j [] w h = refl
    retries j (q ∷ qs) w h =
        let token : Capability = record q.token { capability_id = j } in
        let (_, same, keeps) =
          effectuate_claimed q.sink q.candidate token q.now store handle q.proof w single h in
        retries j qs (effectuate q.sink q.candidate token q.now store handle q.proof w).1
          (keeps j h)
        ∙ same

    -- Over a store that keeps the contract of single use: once a capability has been presented and
    -- verified, however the effect ended, no number of presentations under its id, to whichever
    -- sinks, with whatever act, changes the effector again.
    pub no_second_effect :
        (q : Presentation) (qs : List Presentation) (w : World S E) (d : Str)
        → verify q.sink q.candidate q.token q.now q.proof w.vault ≡ ok d
        → (present_all q.token.capability_id qs (present q w).1).effector ≡ (present q w).1.effector
    no_second_effect q qs w d h = retries q.token.capability_id qs (present q w).1 (
        ground (
          arith,
          claimed-effectuate q.sink q.candidate q.token q.now store handle q.proof w single
              q.token.capability_id h,
        ))
