-- ===== src/Examples/Runs.antt =====
-- Runs of the protocol on concrete input, and the inputs that the witnesses share.
use execution_finality_for_a.Prelude.{
  str, str_eq, pos, [], ◌∷◌, none, true, false, length, inl, ◌≡◌, ◌≢◌, refl, arith, ap,
}
use execution_finality_for_a.Errors.{ok, Result}
use execution_finality_for_a.Canonical.{Value, fields, canonical_bytes}
use execution_finality_for_a.Models.{
  CandidateAct, Hcad, Capability, SinkReceipt, StateTransition, ValidationEvidence,
}
use execution_finality_for_a.State.{ProtectedState, transition_for_authorization}
use execution_finality_for_a.Race.Winners.{any_asked}
use execution_finality_for_a.Consumption.Memory.{Claims, memory_store}
use execution_finality_for_a.Effectors.{GuardedEffector, new_effector, bound_handle}
use execution_finality_for_a.Authority.{Vault, authorize}
use execution_finality_for_a.Authority.Replays.{Call, run_calls}
use execution_finality_for_a.Sink.{verify}
use execution_finality_for_a.Sink.Accepts.{Accepts, verify_sound}
use execution_finality_for_a.Protocol.Crossing.{IsLocalTo, SharesKey}
use execution_finality_for_a.Sink.Effectuate.{World, effectuate}
use execution_finality_for_a.Sink.Outcomes.{Presentation}
use execution_finality_for_a.Race.{Contender, Phase, run, step_at, advance}
use execution_finality_for_a.Examples.Evaluation.{evaluation}
use execution_finality_for_a.Prelude.{true}
use execution_finality_for_a.Examples.Setup.{
  toy_platform, act, authority, sink, vault, noon, authn-Verifies, value_or, blank_token,
}

sorted_bytes :
    canonical_bytes
      (Value.dict (fields ((str "b", Value.int (pos 12)) ∷ (str "a", Value.null) ∷ [])))
    ≡ ok (str "{\"a\":null,\"b\":12}")
unfolding evaluation
sorted_bytes = refl

abbrev pub act_0 : CandidateAct
act_0 = act (str "nonce-0")

abbrev pub act_1 : CandidateAct
act_1 = act (str "nonce-1")

abbrev pub token : Capability
token = value_or blank_token (authorize authority act_0 noon (pos 1) vault).0

abbrev pub later : Vault
later = (authorize authority act_0 noon (pos 1) vault).1

pub token_issued : (authorize authority act_0 noon (pos 1) vault).0 ≡ ok token
unfolding evaluation
token_issued = refl

pub token_verified : verify sink act_0 token noon none later ≡ ok token.descriptor_digest
unfolding evaluation
token_verified = refl

abbrev pub call_0 : Call
call_0 = record { authority = authority; candidate = act_0; now = noon; cost = pos 1 }

abbrev pub world : World Claims GuardedEffector
world = record { vault = later; consumed = []; effector = new_effector (str "network") 5 }

abbrev pub presentation : Presentation
presentation = record { sink = sink; candidate = act_0; token = token; now = noon; proof = none }

abbrev pub contender : Contender
contender = record {
  sink = sink;
  candidate = act_0;
  token = token;
  now = noon;
  phase = Phase.verified;
}

abbrev pub accepted :
    (h : Hcad) × (e : ValidationEvidence) × Accepts sink act_0 token noon none later h e
    × (token.descriptor_digest ≡ token.descriptor_digest)
accepted = verify_sound sink act_0 token noon none later token.descriptor_digest token_verified

pub token_shared : SharesKey authority sink
token_shared = record { store = refl; sink = refl; verifies = authn-Verifies }

pub act_local : IsLocalTo sink act_0
act_local = record {
  effect_class = refl;
  sink_id = refl;
  boundary_id = refl;
  policy_epoch = refl;
  scope = (inl refl, tt);
}

abbrev blank_transition : StateTransition
blank_transition = record {
  transition_id = [];
  nonce = [];
  source = [];
  before_version = pos 0;
  after_version = pos 0;
  quota_before = pos 0;
  quota_after = pos 0;
  budget_before = pos 0;
  budget_after = pos 0;
  policy_epoch = pos 0;
}

-- The one presentation of the token at the world above, and the number of its effects.
abbrev pub presented : Result SinkReceipt × World Claims GuardedEffector
presented = effectuate sink act_0 token noon memory_store (bound_handle 5) none world

pub presented_once : length presented.1.effector.records ≡ 1
unfolding evaluation
presented_once = refl

pub presented_changes : presented.1.effector ≢ world.effector
unfolding new_effector
presented_changes q = omega (arith, presented_once, ap (λ e. length e.records) q)

abbrev pub state : ProtectedState
state = vault.state

abbrev pub transition : StateTransition
transition = value_or blank_transition (transition_for_authorization act_0 (pos 1) state).0

pub transition_granted : (transition_for_authorization act_0 (pos 1) state).0 ≡ ok transition
unfolding evaluation
transition_granted = refl

pub returned_once :
    (run memory_store
      (bound_handle 5)
      (0 ∷ 1 ∷ 0 ∷ 1 ∷ [])
      (contender ∷ contender ∷ [])
      []
      (new_effector (str "network") 5)).2.records
    ≡ presented.1.effector.records
unfolding evaluation run step_at advance
returned_once = refl

pub none_asked : any_asked token.capability_id (contender ∷ contender ∷ []) ≡ false
unfolding evaluation
none_asked = refl

pub one_asked :
    any_asked token.capability_id
      (run memory_store
        (bound_handle 5)
        (0 ∷ 1 ∷ 0 ∷ 1 ∷ [])
        (contender ∷ contender ∷ [])
        []
        (new_effector (str "network") 5)).0
    ≡ true
unfolding evaluation run step_at advance
one_asked = refl

pub none_claimed : memory_store.is_claimed token.capability_id [] ≡ false
unfolding evaluation
none_claimed = refl

abbrev blank_receipt : SinkReceipt
blank_receipt = record {
  receipt_id = [];
  capability_id = [];
  candidate_digest = [];
  descriptor_digest = [];
  sink_id = [];
  boundary_id = [];
  transition_id = [];
  scope = [];
  effect_status = [];
  committed_at_ns = pos 0;
  effect_reference = none;
  signature = [];
  key_id = [];
}

abbrev pub receipt : SinkReceipt
receipt = value_or blank_receipt presented.0

pub receipt_returned : presented.0 ≡ ok receipt
unfolding evaluation
receipt_returned = refl

pub called_verified :
    verify sink act_0 token noon none (run_calls (call_0 ∷ []) vault).1 ≡ ok token.descriptor_digest
unfolding evaluation run_calls
called_verified = refl
