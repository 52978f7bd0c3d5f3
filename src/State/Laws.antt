-- ===== src/State/Laws.antt =====
-- How `transition_for_authorization` moves the protected state: what it asks, what it writes, and
-- what a refusal leaves.
use execution_finality_for_a.Prelude.{
  Str, str_eq, int_eq, ◌==◌, ℤ, pos, ◌+ℤ◌, ◌-ℤ◌, ◌≤ℤ◌, lookup, insert, lookup-insert, if◌then◌else◌,
  true, none, some, ◌≡◌, ◌≢◌, refl, arith, -ℤ_parts,
}
use execution_finality_for_a.Errors.{Error, Replay, Result, ok, err}
use execution_finality_for_a.Platform.{Platform}
use execution_finality_for_a.Models.{CandidateAct, StateTransition}
use execution_finality_for_a.State.{
  SourceState, ProtectedState, source_or_default, get_source, new_transition, record_transition,
  transition_for_authorization, verify_transition,
}

-- What a source has, whether its entry has been made or not.
abbrev pub entry : Str → ProtectedState → SourceState
entry k s = source_or_default (lookup k s.sources) s

-- The entry after an authorisation at this cost.
abbrev pub charged : SourceState → ℤ → SourceState
charged st cost = record {
  version = st.version +ℤ pos 1;
  quota = st.quota -ℤ pos 1;
  budget = st.budget -ℤ cost;
}

-- What a returned transition says of the call that made it.
pub record Charges (c : CandidateAct) (cost : ℤ) (s : ProtectedState) (t : StateTransition)
    : Type 0 where
  pub positive : pos 1 ≤ℤ cost
  pub fresh : lookup c.nonce s.nonces ≡ none
  pub has_quota : pos 1 ≤ℤ (entry c.source s).quota
  pub has_budget : cost ≤ℤ (entry c.source s).budget
  pub shape : t ≡ new_transition c cost (entry c.source s) t.transition_id

module _ ⦃p : Platform⦄ (c : CandidateAct) (cost : ℤ) (s : ProtectedState) where
  pub transition-Charges :
      {t : StateTransition} → (transition_for_authorization c cost s).0 ≡ ok t → Charges c cost s t
  unfolding transition_for_authorization get_source new_transition
  transition-Charges h = ground arith

  pub entry-transition :
      (k : Str) {t : StateTransition}
      → (transition_for_authorization c cost s).0 ≡ ok t
      → entry k (transition_for_authorization c cost s).1
        ≡ (if k == c.source then charged (entry c.source s) cost else entry k s)
  unfolding transition_for_authorization get_source new_transition record_transition
  entry-transition k h = ground (
    arith,
    lookup-insert k c.source (charged (entry c.source s) cost) s.sources,
    lookup-insert k c.source (entry c.source s) s.sources,
    lookup-insert k c.source (charged (entry c.source s) cost)
        (insert c.source (entry c.source s) s.sources),
  )

  -- The nonce is reserved with the transition's id, and no other nonce is touched.
  pub nonces-transition :
      (k : Str) {t : StateTransition}
      → (transition_for_authorization c cost s).0 ≡ ok t
      → lookup k (transition_for_authorization c cost s).1.nonces
        ≡ (if k == c.nonce then some t.transition_id else lookup k s.nonces)
  unfolding transition_for_authorization get_source new_transition record_transition
  nonces-transition k {t} h = ground (arith, lookup-insert k c.nonce t.transition_id s.nonces)

  pub transitions-transition :
      (k : Str) {t : StateTransition}
      → (transition_for_authorization c cost s).0 ≡ ok t
      → lookup k (transition_for_authorization c cost s).1.transitions
        ≡ (if k == t.transition_id then some t else lookup k s.transitions)
  unfolding transition_for_authorization get_source new_transition record_transition
  transitions-transition k {t} h = ground (arith, lookup-insert k t.transition_id t s.transitions)

  -- A call that raises reserves no nonce, records no transition, and leaves every source what it
  -- had.
  pub transition-err :
      (k : Str) {x : Error}
      → (transition_for_authorization c cost s).0 ≡ err x
      → ((transition_for_authorization c cost s).1.nonces ≡ s.nonces)
        × ((transition_for_authorization c cost s).1.transitions ≡ s.transitions)
        × (entry k (transition_for_authorization c cost s).1 ≡ entry k s)
  unfolding transition_for_authorization get_source
  transition-err k h = ground (arith, lookup-insert k c.source (entry c.source s) s.sources)

  -- A nonce that is reserved is refused, and nothing is written.
  pub transition_replayed :
      {u : Str}
      → pos 1 ≤ℤ cost
      → lookup c.nonce s.nonces ≡ some u
      → transition_for_authorization c cost s
        ≡ (err (Error.replay_detected Replay.nonce_reserved_or_consumed), s)
  unfolding transition_for_authorization
  transition_replayed positive h = ground arith

  -- The transition that a call returns is valid for its candidate.
  pub verify-transition :
      {t : StateTransition}
      → (transition_for_authorization c cost s).0 ≡ ok t
      → verify_transition t.transition_id c (transition_for_authorization c cost s).1 ≡ true
  unfolding verify_transition new_transition
  verify-transition {t} h = ground (
    arith,
    (transition-Charges h).shape,
    (transition-Charges h).positive,
    nonces-transition c.nonce h,
    transitions-transition t.transition_id h,
    -ℤ_parts (entry c.source s).budget cost,
  )

  -- A valid transition stays valid through any further call that raises, or that returns another
  -- transition id.
  pub verify-transition_stays :
      (i : Str) (d : CandidateAct)
      → verify_transition i d s ≡ true
      → ((t : StateTransition)
          → (transition_for_authorization c cost s).0 ≡ ok t
          → t.transition_id ≢ i)
      → verify_transition i d (transition_for_authorization c cost s).1 ≡ true
  unfolding verify_transition
  verify-transition_stays i d h apart = stays (transition_for_authorization c cost s).0 refl
    where
      stays :
          (r : Result StateTransition)
          → (transition_for_authorization c cost s).0 ≡ r
          → verify_transition i d (transition_for_authorization c cost s).1 ≡ true
      stays (ok t) e = ground (
        arith,
        apart t e,
        (transition-Charges e).fresh,
        nonces-transition d.nonce e,
        transitions-transition i e,
      )
      stays (err x) e = ground (arith, transition-err c.source e)
