-- ===== src/Examples/Witnesses.antt =====
-- Each of the main theorems at the inputs of Runs, where its hypotheses hold.
use execution_finality_for_a.Prelude.{
  length, Str, str, str_eq, strs_eq, int_eq, pos, [], none, some, true, false, ◌+◌, ◌≤◌, Elem,
  Distinct, ◌≡◌, ◌⊎◌, List, ◌∷◌, ◌++◌, refl,
}
use execution_finality_for_a.Prelude.{◌≤ℤ◌, ◌+ℤ◌}
use execution_finality_for_a.Errors.{ok}
use execution_finality_for_a.Models.{
  Hcad, StateTransition, ValidationEvidence, candidate_digest, unsigned_receipt,
}
use execution_finality_for_a.Consumption.Memory.{memory_store, memory-IsSingleUse}
use execution_finality_for_a.Effectors.{EffectRecord, new_effector, bound_handle}
use execution_finality_for_a.Authority.Outcome.{Issued, authorize-Issued}
use execution_finality_for_a.Authority.Replays.{
  call, run_calls, token_nonces, run_calls-Distinct, run_calls_burned,
}
use execution_finality_for_a.Sink.{verify}
use execution_finality_for_a.Sink.Accepts.{Accepts, verify_sound, verify_complete}
use execution_finality_for_a.Sink.Receipt.{new_receipt}
use execution_finality_for_a.Sink.Outcomes.{
  effectuate-receipt, effect_requires, present_all, no_second_effect,
}
use execution_finality_for_a.Race.{run}
use execution_finality_for_a.Race.Winners.{winners, one_if, race_exactly_one}
use execution_finality_for_a.Race.Effects.{AllPresent, race_one_effect}
use execution_finality_for_a.Protocol.Crossing.{authorize-verify, authorize-expiry}
use execution_finality_for_a.Examples.Setup.{toy_platform, authority, authn, sink, vault, noon}
use execution_finality_for_a.Examples.PartRuns.{token_early, token_late}
use execution_finality_for_a.Examples.Runs.{
  act_0, token, later, token_issued, token_verified, call_0, world, presentation, contender,
  accepted, token_shared, act_local, presented, presented_changes, none_asked, one_asked,
  none_claimed, receipt, receipt_returned,
}

verify_sound_example :
    (h : Hcad) × (e : ValidationEvidence) × Accepts sink act_0 token noon none later h e
    × (token.descriptor_digest ≡ token.descriptor_digest)
verify_sound_example =
    verify_sound sink act_0 token noon none later token.descriptor_digest token_verified

verify_complete_example : verify sink act_0 token noon none later ≡ ok token.descriptor_digest
verify_complete_example =
    verify_complete sink act_0 token noon none later accepted.0 accepted.1 accepted.2

authorize-verify_example : verify sink act_0 token noon none later ≡ ok token.descriptor_digest
authorize-verify_example =
    authorize-verify authority act_0 noon (pos 1) vault sink token noon none token_shared act_local
      token_issued token_early token_late tt

both_present : AllPresent token.capability_id (contender ∷ contender ∷ [])
both_present = (refl, (refl, tt))

race_one_effect_example :
    let after =
      (run memory_store
        (bound_handle 5)
        (0 ∷ 1 ∷ 0 ∷ 1 ∷ [])
        (contender ∷ contender ∷ [])
        []
        (new_effector (str "network") 5)).2 in
    (made : List EffectRecord) × (after.records ≡ (new_effector (str "network") 5).records ++ made)
    × (length made + one_if (memory_store.is_claimed token.capability_id []) ≤ 1)
race_one_effect_example =
    race_one_effect memory_store 5 memory-IsSingleUse token.capability_id (0 ∷ 1 ∷ 0 ∷ 1 ∷ [])
      (contender ∷ contender ∷ []) [] (new_effector (str "network") 5) both_present none_asked

race_exactly_one_example :
    winners token.capability_id
      (run memory_store
        (bound_handle 5)
        (0 ∷ 1 ∷ 0 ∷ 1 ∷ [])
        (contender ∷ contender ∷ [])
        []
        (new_effector (str "network") 5)).0
    ≡ 1
race_exactly_one_example =
    race_exactly_one memory_store (bound_handle 5) memory-IsSingleUse token.capability_id
      (0 ∷ 1 ∷ 0 ∷ 1 ∷ []) (contender ∷ contender ∷ []) [] (new_effector (str "network") 5)
      none_asked none_claimed one_asked

run_calls-Distinct_example : Distinct (token_nonces (run_calls (call_0 ∷ call_0 ∷ []) vault).0)
run_calls-Distinct_example = run_calls-Distinct (call_0 ∷ call_0 ∷ []) vault

effectuate-receipt_example :
    (d : Str) × (effect : EffectRecord) × (verify sink act_0 token noon none world.vault ≡ ok d)
    × (memory_store.is_claimed token.capability_id world.consumed ≡ false)
    × (memory_store.is_claimed token.capability_id presented.1.consumed ≡ true)
    × (((bound_handle 5).commit act_0 world.effector).0 ≡ ok effect)
    × (presented.1.effector ≡ ((bound_handle 5).commit act_0 world.effector).1)
    × (candidate_digest act_0 ≡ ok receipt.candidate_digest)
    × (receipt
        ≡ new_receipt sink token noon receipt.candidate_digest d
            (some effect.effect_reference)
            receipt.receipt_id
            receipt.signature)
    × (authn.sign (unsigned_receipt receipt) ≡ ok receipt.signature)
effectuate-receipt_example =
    effectuate-receipt sink act_0 token noon memory_store (bound_handle 5) none world
      memory-IsSingleUse receipt receipt_returned

effect_requires_example :
    (d : Str) × (verify sink act_0 token noon none world.vault ≡ ok d)
    × (memory_store.is_claimed token.capability_id world.consumed ≡ false)
    × (memory_store.is_claimed token.capability_id presented.1.consumed ≡ true)
effect_requires_example =
    effect_requires sink act_0 token noon memory_store (bound_handle 5) none world
      memory-IsSingleUse presented_changes

no_second_effect_example :
    (present_all memory_store
      (bound_handle 5)
      token.capability_id
      (presentation ∷ presentation ∷ [])
      presented.1).effector
    ≡ presented.1.effector
no_second_effect_example =
    no_second_effect memory_store (bound_handle 5) memory-IsSingleUse presentation
      (presentation ∷ presentation ∷ []) world token.descriptor_digest token_verified

issue :
    (h : Hcad) × (t : StateTransition) × (d : Str) × (cd : Str) × (e : ValidationEvidence) × Issued
      authority act_0 noon
      (pos 1)
      vault
      later
      token
      h
      t
      d
      cd
      e
issue = authorize-Issued authority act_0 noon (pos 1) vault token token_issued

run_calls_burned_example :
    ¬ (Elem (str "nonce-0") (token_nonces (run_calls (call_0 ∷ []) (call call_0 vault).1).0))
run_calls_burned_example =
    run_calls_burned call_0 (call_0 ∷ []) vault issue.0 issue.1 issue.5.built issue.5.allowed
      issue.5.advanced

authorize-Issued_example :
    (h : Hcad) × (t : StateTransition) × (d : Str) × (cd : Str) × (e : ValidationEvidence) × Issued
      authority act_0 noon
      (pos 1)
      vault
      later
      token
      h
      t
      d
      cd
      e
authorize-Issued_example = authorize-Issued authority act_0 noon (pos 1) vault token token_issued

authorize-expiry_example :
    (token.issued_at_ns ≡ noon)
    × (token.expires_at_ns ≤ℤ act_0.issued_at_ns +ℤ act_0.freshness_ns)
    × (token.expires_at_ns ≤ℤ noon +ℤ authority.capability_ttl_ns)
    × ((token.expires_at_ns ≡ act_0.issued_at_ns +ℤ act_0.freshness_ns)
        ⊎ (token.expires_at_ns ≡ noon +ℤ authority.capability_ttl_ns))
    × (pos 0 ≤ℤ authority.capability_ttl_ns → noon ≤ℤ token.expires_at_ns)
authorize-expiry_example = authorize-expiry authority act_0 noon (pos 1) vault token token_issued
