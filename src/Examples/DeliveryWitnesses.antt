-- ===== src/Examples/DeliveryWitnesses.antt =====
-- The theorems about the whole way of an act, each at concrete input where its hypotheses hold.
use execution_finality_for_a.Prelude.{
  ℕ, zero, suc, ◌<◌, ◌≤◌, str, str_eq, strs_eq, int_eq, pos, [], ◌∷◌, ◌++◌, none, true, false, ◌≡◌,
  ◌⊎◌, ◌↔◌, refl, arith,
}
use execution_finality_for_a.Errors.{Error, Replay, ok, err, is_ok}
use execution_finality_for_a.Canonical.{Value, Json, fields, normalize, canonical_bytes}
use execution_finality_for_a.Canonical.Injective.{canonical_bytes_injective}
use execution_finality_for_a.Models.{Capability, SinkReceipt}
use execution_finality_for_a.Consumption.Memory.{memory_store, memory-IsSingleUse}
use execution_finality_for_a.Effectors.{EffectRecord, new_effector, bound_handle}
use execution_finality_for_a.Authority.{authorize}
use execution_finality_for_a.Authority.Succeeds.{Grants}
use execution_finality_for_a.Authority.Exactly.{authorize_iff}
use execution_finality_for_a.Sink.Effectuate.{effectuate}
use execution_finality_for_a.Sink.Failures.{Rejected, Replayed, Failed, Unreceipted, effectuate-err}
use execution_finality_for_a.Race.{run}
use execution_finality_for_a.Race.Winners.{winners}
use execution_finality_for_a.Race.Progress.{total_left, turns, presented, fair_run}
use execution_finality_for_a.Protocol.Agreement.{Agree, verify-agrees}
use execution_finality_for_a.Protocol.Binding.{Collision}
use execution_finality_for_a.Protocol.Provenance.{Allowed, accepted-Allowed}
use execution_finality_for_a.Protocol.Delivery.{delivered}
use execution_finality_for_a.Examples.Evaluation.{evaluation}
use execution_finality_for_a.Examples.Setup.{toy_platform, authority, sink, vault, noon}
use execution_finality_for_a.Examples.PartRuns.{order, token_early, token_late}
use execution_finality_for_a.Examples.Ready.{
  toy-IsDocumented, act-IsEncodable, act-Grants, authority-IsReady, sink-IsWay,
}
use execution_finality_for_a.Examples.Runs
use execution_finality_for_a.Examples.Runs.{
  act_0, token, later, token_issued, token_verified, call_0, world, contender, none_asked,
  none_claimed, called_verified,
}

delivered_example :
    (t : Capability) × (receipt : SinkReceipt) × (r : EffectRecord) × ((authorize authority act_0
        noon
        (pos 1)
        vault).0
      ≡ ok t)
    × ((effectuate sink act_0 t noon memory_store (bound_handle 5) none world).0 ≡ ok receipt)
    × ((effectuate sink act_0 t noon memory_store (bound_handle 5) none world).1.effector
        ≡ record (new_effector (str "network") 5) { records = [] ++ r ∷ [] })
    × (r.payload ≡ act_0.payload)
unfolding new_effector evaluation
delivered_example =
    delivered toy-IsDocumented authority act_0 noon (pos 1) vault authority-IsReady act-IsEncodable
      act-Grants sink sink-IsWay noon (λ t. none) memory_store memory-IsSingleUse []
      (new_effector (str "network") 5) (λ t h. tt) (λ t h. refl) refl refl token_early token_late

accepted-Allowed_example : Allowed (call_0 ∷ []) act_0
accepted-Allowed_example =
    accepted-Allowed toy-IsDocumented.fixes (call_0 ∷ []) vault sink act_0 token noon none
      token.descriptor_digest refl called_verified

verify-agrees_example : Agree act_0 act_0 ⊎ Collision act_0 act_0
verify-agrees_example =
    verify-agrees toy-IsDocumented.fixes authority act_0 act_0 noon (pos 1) noon vault later sink
      token none token.descriptor_digest token_issued token_verified

-- The same two fields the other way round.
abbrev reordered : Value
reordered =
    Value.dict (fields ((str "a", Value.text (str "x")) ∷ (str "b", Value.int (pos 12)) ∷ []))

order_bytes : canonical_bytes order ≡ ok (str "{\"a\":\"x\",\"b\":12}")
unfolding evaluation
order_bytes = refl

reordered_bytes : canonical_bytes reordered ≡ ok (str "{\"a\":\"x\",\"b\":12}")
unfolding evaluation
reordered_bytes = refl

canonical_bytes_injective_example :
    (j : Json) × (normalize false order ≡ ok j) × (normalize false reordered ≡ ok j)
canonical_bytes_injective_example =
    canonical_bytes_injective order reordered (str "{\"a\":\"x\",\"b\":12}") order_bytes
      reordered_bytes

replayed :
    (effectuate sink act_0 token noon memory_store (bound_handle 5) none Runs.presented.1).0
    ≡ err (Error.replay_detected Replay.capability_consumed)
unfolding evaluation
replayed = refl

effectuate-err_example :
    let x = Error.replay_detected Replay.capability_consumed in
    let before = Runs.presented.1 in
    let after = (effectuate sink act_0 token noon memory_store (bound_handle 5) none before).1 in
    Rejected sink act_0 token noon memory_store (bound_handle 5) none before after x
    ⊎ Replayed sink act_0 token noon memory_store (bound_handle 5) none before after x
    ⊎ Failed sink act_0 token noon memory_store (bound_handle 5) none before after x
    ⊎ Unreceipted sink act_0 token noon memory_store (bound_handle 5) none before after x
effectuate-err_example =
    effectuate-err sink act_0 token noon memory_store (bound_handle 5) none Runs.presented.1
      memory-IsSingleUse (Error.replay_detected Replay.capability_consumed) replayed

-- Each of two threads has two steps in the schedule 0, 1, 0, 1.
two_turns : (i : ℕ) → i < 2 → 2 ≤ turns i (0 ∷ 1 ∷ 0 ∷ 1 ∷ [])
two_turns zero l = ground arith
two_turns (suc zero) l = ground arith
two_turns (suc (suc i)) l = absurd (omega (arith, l))

token_presented : presented token.capability_id (contender ∷ contender ∷ []) ≡ true
unfolding evaluation
token_presented = refl

fair_run_example :
    let ks =
      (run memory_store
        (bound_handle 5)
        (0 ∷ 1 ∷ 0 ∷ 1 ∷ [])
        (contender ∷ contender ∷ [])
        []
        (new_effector (str "network") 5)).0 in
    (total_left ks ≡ 0) × (winners token.capability_id ks ≡ 1)
fair_run_example =
    fair_run memory_store (bound_handle 5) memory-IsSingleUse token.capability_id
      (0 ∷ 1 ∷ 0 ∷ 1 ∷ []) (contender ∷ contender ∷ []) [] (new_effector (str "network") 5)
      two_turns token_presented none_asked none_claimed

authorize_iff_example :
    (is_ok (authorize authority act_0 noon (pos 1) vault).0 ≡ true)
    ↔ Grants authority act_0 noon (pos 1) vault
authorize_iff_example =
    authorize_iff authority act_0 noon (pos 1) vault toy-IsDocumented authority-IsReady
      act-IsEncodable
