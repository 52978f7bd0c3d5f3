-- ===== src/Race.antt =====
-- Threads that present capabilities at once (sink.py, `effectuate`, lines 140 to 158, between the
-- locks of state.py and effectors.py). A verification only reads, so a thread starts here with its
-- verification behind it. A claim and an effect are one locked step each, and the threads' steps
-- come in any order.
pub mod Winners
pub mod Effects
pub mod Progress
use execution_finality_for_a.Prelude.{ℤ, ℕ, zero, suc, List, [], ◌∷◌}
use execution_finality_for_a.Errors.{Error, Result, ok, err}
use execution_finality_for_a.Models.{CandidateAct, Capability}
use execution_finality_for_a.Consumption.{ConsumptionStore}
use execution_finality_for_a.Effectors.{EffectHandle, EffectRecord}
use execution_finality_for_a.Sink.{FinalitySink}
use execution_finality_for_a.Sink.Effectuate.{claim_of, denied}

-- How far a thread has come in `effectuate`.
pub data Phase : Type 0 where
  verified claimed : Phase
  refused : Error → Phase
  effective : EffectRecord → Phase
  failed : Error → Phase

pub record Contender : Type 0 where
  pub sink : FinalitySink
  pub candidate : CandidateAct
  pub token : Capability
  pub now : ℤ
  pub phase : Phase

abbrev pub after_claim : Result (Unit {0}) → Phase
after_claim (ok _) = Phase.claimed
after_claim (err x) = Phase.refused x

abbrev pub after_effect : Result EffectRecord → Phase
after_effect (ok effect) = Phase.effective effect
after_effect (err x) = Phase.failed x

module _ {S E : Type 0} (store : ConsumptionStore S) (handle : EffectHandle E) where
  -- The next phase of a thread, with the store and the effector that its step leaves.
  abbrev pub next_phase : Phase → Contender → S → E → Phase × S × E
  next_phase Phase.verified k s e =
      let (r, s') = store.claim k.token.capability_id (claim_of k.sink k.token k.now) s in
      (after_claim r, s', e)
  next_phase Phase.claimed k s e =
      let (r, e') = handle.commit k.candidate e in (after_effect (denied r), s, e')
  next_phase ended k s e = (ended, s, e)

  -- One thread makes its next step; one that has ended stays.
  unfoldable pub advance : Contender → S → E → Contender × S × E
  advance k s e =
      let (phase, s', e') = next_phase k.phase k s e in (record k { phase = phase }, s', e')

  -- The thread at this place makes its next step.
  unfoldable pub step_at : ℕ → List Contender → S → E → List Contender × S × E
  step_at i [] s e = ([], s, e)
  step_at zero (k ∷ ks) s e = let (k', s', e') = advance k s e in (k' ∷ ks, s', e')
  step_at (suc i) (k ∷ ks) s e = let (ks', s', e') = step_at i ks s e in (k ∷ ks', s', e')

  -- A schedule: which thread steps, time after time.
  unfoldable pub run : List ℕ → List Contender → S → E → List Contender × S × E
  run [] ks s e = (ks, s, e)
  run (i ∷ is) ks s e = let (ks', s', e') = step_at i ks s e in run is ks' s' e'
