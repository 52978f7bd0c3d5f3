-- ===== src/State.antt =====
-- src/finality_ref/state.py, `ProtectedState`: versions, quotas and budgets by source, reserved
-- nonces, and the transitions. The lock is re-entrant and each method holds it to its end, so a
-- method is one action on the state. The stores of consumed capabilities are in `Consumption`.
pub mod Laws
pub mod Invariant
pub mod Nonces
use execution_finality_for_a.Prelude.{
  Str, str, ℤ, pos, ◌+ℤ◌, ◌-ℤ◌, ltb_ℤ, leb_ℤ, str_eq, int_eq, ◌==◌, Dict, lookup, insert, has_key,
  Bool, true, false, ◌&&◌, List, [], ◌∷◌, Option, none, some,
}
use execution_finality_for_a.Errors.{Error, Reason, Replay, Result}
use execution_finality_for_a.Exec.{Exec, pure, lift, gets, raise_if, modify, ◌>>=◌, ◌>>◌}
use execution_finality_for_a.Platform.{Platform}
use execution_finality_for_a.Canonical.{Value, fields, sha256_hex}
use execution_finality_for_a.Models.{CandidateAct, StateTransition, candidate_digest}

pub record SourceState : Type 0 where
  pub version : ℤ
  pub quota : ℤ
  pub budget : ℤ

pub record ProtectedState : Type 0 where
  pub default_quota : ℤ
  pub default_budget : ℤ
  pub sources : Dict SourceState
  pub nonces : Dict Str
  pub transitions : Dict StateTransition

-- `ProtectedState(default_quota=…, default_budget=…)`
unfoldable pub new_state : ℤ → ℤ → ProtectedState
new_state quota budget = record {
  default_quota = quota;
  default_budget = budget;
  sources = [];
  nonces = [];
  transitions = [];
}

unfoldable pub configure_source : Str → ℤ → ℤ → ProtectedState → ProtectedState
configure_source source quota budget s = record s {
  sources = insert source (record { version = pos 0; quota = quota; budget = budget }) s.sources;
}

-- The second argument of `setdefault`, where the source is not there.
abbrev pub source_or_default : Option SourceState → ProtectedState → SourceState
source_or_default (some st) s = st
source_or_default none s = record {
  version = pos 0;
  quota = s.default_quota;
  budget = s.default_budget;
}

abbrev set_default : Option SourceState → Str → ProtectedState → ProtectedState
set_default (some st) source s = s
set_default none source s = record s {
  sources = insert source (source_or_default none s) s.sources;
}

-- `_get_source`: `setdefault` returns the entry, and makes it where it is missing.
unfoldable pub get_source : Str → Exec ProtectedState SourceState
get_source source s =
    let found = lookup source s.sources in
    (Result.ok (source_or_default found s), set_default found source s)

-- The dict that a transition id is the digest of.
unfoldable pub transition_core : CandidateAct → ℤ → SourceState → Str → List (Str × Value)
transition_core c cost st digest =
    (str "nonce", Value.text c.nonce)
    ∷ (str "source", Value.text c.source)
    ∷ (str "before_version", Value.int st.version)
    ∷ (str "after_version", Value.int (st.version +ℤ pos 1))
    ∷ (str "quota_before", Value.int st.quota)
    ∷ (str "quota_after", Value.int (st.quota -ℤ pos 1))
    ∷ (str "budget_before", Value.int st.budget)
    ∷ (str "budget_after", Value.int (st.budget -ℤ cost))
    ∷ (str "policy_epoch", Value.int c.policy_epoch)
    ∷ (str "candidate_digest", Value.text digest)
    ∷ []

unfoldable pub new_transition : CandidateAct → ℤ → SourceState → Str → StateTransition
new_transition c cost st transition_id = record {
  transition_id = transition_id;
  nonce = c.nonce;
  source = c.source;
  before_version = st.version;
  after_version = st.version +ℤ pos 1;
  quota_before = st.quota;
  quota_after = st.quota -ℤ pos 1;
  budget_before = st.budget;
  budget_after = st.budget -ℤ cost;
  policy_epoch = c.policy_epoch;
}

-- The three writes at the end of `transition_for_authorization`. `state` is the entry of the
-- source, so an assignment to its fields is a write of the entry.
unfoldable pub record_transition : StateTransition → ProtectedState → ProtectedState
record_transition t s = record s {
  sources =
      insert t.source
        (record { version = t.after_version; quota = t.quota_after; budget = t.budget_after })
        s.sources;
  nonces = insert t.nonce t.transition_id s.nonces;
  transitions = insert t.transition_id t s.transitions;
}

module _ ⦃p : Platform⦄ where
  unfoldable pub transition_for_authorization :
      CandidateAct → ℤ → Exec ProtectedState StateTransition
  transition_for_authorization c cost = do
    raise_if (leb_ℤ cost (pos 0)) Error.value_error
    reserved ← gets (λ s. has_key c.nonce s.nonces)
    raise_if reserved (Error.replay_detected Replay.nonce_reserved_or_consumed)
    state ← get_source c.source
    raise_if (ltb_ℤ state.quota (pos 1)) (Error.validation_denied (Reason.quota_exhausted ∷ []))
    raise_if (ltb_ℤ state.budget cost) (Error.validation_denied (Reason.budget_exhausted ∷ []))
    digest ← lift (candidate_digest c)
    transition_id ← lift (sha256_hex (Value.dict (fields (transition_core c cost state digest))))
    let transition = new_transition c cost state transition_id
    modify (record_transition transition)
    pure transition

abbrev same_id : Option Str → Str → Bool
same_id none t = false
same_id (some u) t = u == t

abbrev verify_found : Option StateTransition → Str → CandidateAct → ProtectedState → Bool
verify_found none transition_id c s = false
verify_found (some t) transition_id c s =
    t.nonce == c.nonce
    && (t.source == c.source
        && (t.policy_epoch == c.policy_epoch
            && (t.after_version == t.before_version +ℤ pos 1
                && (t.quota_after == t.quota_before -ℤ pos 1
                    && (ltb_ℤ t.budget_after t.budget_before
                        && same_id (lookup c.nonce s.nonces) transition_id)))))

unfoldable pub verify_transition : Str → CandidateAct → ProtectedState → Bool
verify_transition transition_id c s =
    verify_found (lookup transition_id s.transitions) transition_id c s

-- `snapshot` goes through `_get_source`, so it makes a missing entry too.
unfoldable pub snapshot : Str → Exec ProtectedState SourceState
snapshot source = get_source source

unfoldable pub get_transition : Str → ProtectedState → Option StateTransition
get_transition transition_id s = lookup transition_id s.transitions
