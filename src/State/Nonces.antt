-- ===== src/State/Nonces.antt =====
-- A nonce authorises at most once, over any sequence of authorisation requests.
use execution_finality_for_a.Prelude.{
  Str, str_eq, ℤ, pos, lookup, none, some, List, [], ◌∷◌, Elem, Distinct, ◌≡◌, refl, arith, inl,
  inr, leb_ℤ, true, Bool-cases, if◌then◌else◌,
}
use execution_finality_for_a.Errors.{Error, Replay, Result, ok, err}
use execution_finality_for_a.Platform.{Platform}
use execution_finality_for_a.Models.{CandidateAct, StateTransition}
use execution_finality_for_a.State.{ProtectedState, new_transition, transition_for_authorization}
use execution_finality_for_a.State.Laws.{
  transition-Charges, nonces-transition, transition-err, transition_replayed,
}
use execution_finality_for_a.State.Invariant.{Request, granted, serve}

abbrev pub nonces_of : List StateTransition → List Str
nonces_of [] = []
nonces_of (t ∷ ts) = t.nonce ∷ nonces_of ts

module _ ⦃p : Platform⦄ where
  module _ (c : CandidateAct) (cost : ℤ) (s : ProtectedState) where
    -- A reserved nonce keeps its transition id through a further call.
    pub reserved-transition :
        (n u : Str)
        → lookup n s.nonces ≡ some u
        → lookup n (transition_for_authorization c cost s).1.nonces ≡ some u
    reserved-transition n u h = keep (transition_for_authorization c cost s).0 refl
      where
        keep :
            (r : Result StateTransition)
            → (transition_for_authorization c cost s).0 ≡ r
            → lookup n (transition_for_authorization c cost s).1.nonces ≡ some u
        keep (ok t) e =
            ground (arith, nonces-transition c cost s n e, (transition-Charges c cost s e).fresh)
        keep (err x) e = ground (arith, transition-err c cost s n e)

  pub reserved-serve :
      (reqs : List Request) (s : ProtectedState) (n u : Str)
      → lookup n s.nonces ≡ some u
      → lookup n (serve reqs s).1.nonces ≡ some u
  unfolding serve
  reserved-serve [] s n u h = h
  reserved-serve ((c, cost) ∷ reqs) s n u h =
      reserved-serve reqs (transition_for_authorization c cost s).1 n u
        (reserved-transition c cost s n u h)

  -- The nonce of a granted transition was free before.
  pub fresh-serve :
      (reqs : List Request) (s : ProtectedState) (n : Str)
      → Elem n (nonces_of (serve reqs s).0)
      → lookup n s.nonces ≡ none
  unfolding serve new_transition
  fresh-serve [] s n h = absurd h
  fresh-serve ((c, cost) ∷ reqs) s n h =
      fresh (transition_for_authorization c cost s).0 refl
        (fresh-serve reqs (transition_for_authorization c cost s).1 n) h
    where
      fresh :
          (r : Result StateTransition)
          → (transition_for_authorization c cost s).0 ≡ r
          → (Elem n (nonces_of (serve reqs (transition_for_authorization c cost s).1).0)
              → lookup n (transition_for_authorization c cost s).1.nonces ≡ none)
          → Elem n (nonces_of (granted r (serve reqs (transition_for_authorization c cost s).1).0))
          → lookup n s.nonces ≡ none
      fresh (ok t) e ih (inl x) =
          ground
            (arith, (transition-Charges c cost s e).fresh, (transition-Charges c cost s e).shape)
      fresh (ok t) e ih (inr x) = ground (arith, ih x, nonces-transition c cost s n e)
      fresh (err x) e ih y = ground (arith, transition-err c cost s n e, ih y)

  -- No two granted transitions carry the same nonce.
  pub serve-Distinct :
      (reqs : List Request) (s : ProtectedState) → Distinct (nonces_of (serve reqs s).0)
  unfolding serve new_transition
  serve-Distinct [] s = tt
  serve-Distinct ((c, cost) ∷ reqs) s =
      distinct (transition_for_authorization c cost s).0 refl
        (serve-Distinct reqs (transition_for_authorization c cost s).1)
    where
      distinct :
          (r : Result StateTransition)
          → (transition_for_authorization c cost s).0 ≡ r
          → Distinct (nonces_of (serve reqs (transition_for_authorization c cost s).1).0)
          → Distinct
              (nonces_of (granted r (serve reqs (transition_for_authorization c cost s).1).0))
      distinct (ok t) e d = (
        λ x.
            let free = fresh-serve reqs (transition_for_authorization c cost s).1 t.nonce x in
            ground (
              arith,
              free,
              nonces-transition c cost s t.nonce e,
              (transition-Charges c cost s e).shape,
            ),
        d,
      )
      distinct (err x) e d = d

  transition_unpaid :
      (d : CandidateAct) (cost : ℤ) (s : ProtectedState)
      → leb_ℤ cost (pos 0) ≡ true
      → transition_for_authorization d cost s ≡ (err Error.value_error, s)
  unfolding transition_for_authorization
  transition_unpaid d cost s free = rw free refl

  -- A nonce that was ever granted is refused for good: after any further requests, a call for any
  -- act with that nonce writes nothing, and raises `ReplayDetected`, or `ValueError` where its cost
  -- is not positive.
  pub replay-serve :
      (c d : CandidateAct) (cost cost' : ℤ) (reqs : List Request) (s : ProtectedState)
      (t : StateTransition)
      → (transition_for_authorization c cost s).0 ≡ ok t
      → d.nonce ≡ c.nonce
      → let later = (serve reqs (transition_for_authorization c cost s).1).1 in
        transition_for_authorization d cost' later ≡ (
          err (
              if leb_ℤ cost' (pos 0)
              then Error.value_error
              else Error.replay_detected Replay.nonce_reserved_or_consumed),
          later,
        )
  replay-serve c d cost cost' reqs s t e same =
      let later = (serve reqs (transition_for_authorization c cost s).1).1 in
      elim (Bool-cases (leb_ℤ cost' (pos 0))) [
        | inl free ↦ rw free (transition_unpaid d cost' later free)
        | inr positive ↦ rw positive (
            transition_replayed d cost' later {u = t.transition_id} (ground (arith, positive)) (
              rw same (
                reserved-serve reqs (transition_for_authorization c cost s).1 c.nonce
                  t.transition_id (ground (arith, nonces-transition c cost s c.nonce e)))))
      ]
