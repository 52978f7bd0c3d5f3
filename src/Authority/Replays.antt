-- ===== src/Authority/Replays.antt =====
-- What a call of `authorize` leaves in the protected state, however it ends.
use execution_finality_for_a.Prelude.{
  Str, str_eq, ℤ, lookup, true, false, none, some, List, [], ◌∷◌, Elem, Distinct, ◌≡◌, ◌⊎◌, inl,
  inr, refl, arith,
}
use execution_finality_for_a.Errors.{Error, Result, ok, err}
use execution_finality_for_a.Platform.{Platform}
use execution_finality_for_a.Models.{CandidateAct, Hcad, Capability, StateTransition, build_hcad}
use execution_finality_for_a.Policy.{validate}
use execution_finality_for_a.State.{transition_for_authorization}
use execution_finality_for_a.State.Laws.{transition-Charges, nonces-transition}
use execution_finality_for_a.State.Nonces.{reserved-transition}
use execution_finality_for_a.Authority.{
  ProtectedAuthority, Vault, new_capability, commit_evidence, issue_capability, certify, authorize,
}
use execution_finality_for_a.Authority.Outcome.{authorize-Issued}

module _ ⦃p : Platform⦄ (a : ProtectedAuthority) (c : CandidateAct) (now : ℤ) where
  state-commit_evidence :
      (d cd tid : Str) (v : Vault) → (commit_evidence a c now d cd tid v).1.state ≡ v.state
  unfolding commit_evidence
  state-commit_evidence d cd tid v = ground arith

  state-issue_capability :
      (d cd tid eid : Str) (v : Vault) → (issue_capability a c now d cd tid eid v).1.state ≡ v.state
  unfolding issue_capability
  state-issue_capability d cd tid eid v = ground arith

  state-certify :
      (h : Hcad) (t : StateTransition) (v : Vault) → (certify a c now h t v).1.state ≡ v.state
  unfolding certify
  state-certify h t v = grind (arith, state-commit_evidence, state-issue_capability)

module _ ⦃p : Platform⦄ (a : ProtectedAuthority) (c : CandidateAct) (now cost : ℤ) (v : Vault) where
  -- An act that the policy refuses is denied with the policy's reasons, and nothing is written.
  pub authorize_denied :
      {h : Hcad}
      → build_hcad c none none ≡ ok h
      → (validate a.policy c now).0 ≡ false
      → authorize a c now cost v ≡ (err (Error.validation_denied (validate a.policy c now).1), v)
  unfolding authorize
  authorize_denied eh denied = ground arith

  -- Where the protected state refuses the act, the call raises the same error, and no evidence is
  -- committed.
  pub authorize_refused :
      {h : Hcad} {x : Error}
      → build_hcad c none none ≡ ok h
      → (validate a.policy c now).0 ≡ true
      → (transition_for_authorization c cost v.state).0 ≡ err x
      → authorize a c now cost v
        ≡ (err x, record v { state = (transition_for_authorization c cost v.state).1 })
  unfolding authorize
  authorize_refused eh allowed refused = ground arith

  -- Once the state has been advanced, it stays advanced however the rest of the call ends.
  pub state-authorize :
      {h : Hcad}
      → build_hcad c none none ≡ ok h
      → (validate a.policy c now).0 ≡ true
      → (authorize a c now cost v).1.state ≡ (transition_for_authorization c cost v.state).1
  unfolding authorize
  state-authorize {h} eh allowed = grind (arith, state-certify)

  -- A call leaves the protected state as it was, or as the transition left it.
  state_cases :
      ((authorize a c now cost v).1.state ≡ v.state)
      ⊎ ((authorize a c now cost v).1.state ≡ (transition_for_authorization c cost v.state).1)
  unfolding authorize
  state_cases = grind (arith, state-certify)

  -- A reserved nonce stays reserved for its transition through any call.
  pub reserved-authorize :
      (n u : Str)
      → lookup n v.state.nonces ≡ some u
      → lookup n (authorize a c now cost v).1.state.nonces ≡ some u
  reserved-authorize n u h = elim state_cases [
    | inl e ↦ rw e h
    | inr e ↦ rw e (reserved-transition c cost v.state n u h)
  ]

  -- A capability is issued for a nonce that was free, and reserves it.
  pub authorize-nonce :
      (token : Capability)
      → (authorize a c now cost v).0 ≡ ok token
      → (token.nonce ≡ c.nonce)
        × (lookup c.nonce v.state.nonces ≡ none)
        × (lookup c.nonce (authorize a c now cost v).1.state.nonces ≡ some token.transition_id)
  unfolding new_capability
  authorize-nonce token r =
      let (h, t, d, cd, e, i) = authorize-Issued a c now cost v token r in
      (
        ground (arith, i.capable.shape),
        (transition-Charges c cost v.state i.advanced).fresh,
        rw (state-authorize i.built i.allowed)
            (ground (arith, nonces-transition c cost v.state c.nonce i.advanced, i.capable.shape)),
      )

-- A call of some authority over the vault.
pub record Call : Type 0 where
  pub authority : ProtectedAuthority
  pub candidate : CandidateAct
  pub now : ℤ
  pub cost : ℤ

abbrev pub issued : Result Capability → List Capability → List Capability
issued (ok token) tokens = token ∷ tokens
issued (err _) tokens = tokens

abbrev pub token_nonces : List Capability → List Str
token_nonces [] = []
token_nonces (token ∷ tokens) = token.nonce ∷ token_nonces tokens

Elem-issued :
    (n : Str) (r : Result Capability) (tokens : List Capability)
    → Elem n (token_nonces (issued r tokens))
    → ((token : Capability) × (r ≡ ok token) × (n ≡ token.nonce)) ⊎ Elem n (token_nonces tokens)
Elem-issued n (ok token) tokens (inl e) = inl (token, refl, e)
Elem-issued n (ok token) tokens (inr x) = inr x
Elem-issued n (err e) tokens x = inr x

Distinct-issued :
    (r : Result Capability) (tokens : List Capability)
    → ((token : Capability) → r ≡ ok token → ¬ (Elem token.nonce (token_nonces tokens)))
    → Distinct (token_nonces tokens)
    → Distinct (token_nonces (issued r tokens))
Distinct-issued (ok token) tokens apart d = (apart token refl, d)
Distinct-issued (err e) tokens apart d = d

module _ ⦃p : Platform⦄ where
  abbrev pub call : Call → Vault → Result Capability × Vault
  call q v = authorize q.authority q.candidate q.now q.cost v

  -- Calls one after the other; a caller that gets an error goes on.
  unfoldable pub run_calls : List Call → Vault → List Capability × Vault
  run_calls [] v = ([], v)
  run_calls (q ∷ qs) v =
      let (r, v') = call q v in let (tokens, v'') = run_calls qs v' in (issued r tokens, v'')

  reserved-run_calls :
      (qs : List Call) (v : Vault) (n u : Str)
      → lookup n v.state.nonces ≡ some u
      → lookup n (run_calls qs v).1.state.nonces ≡ some u
  unfolding run_calls
  reserved-run_calls [] v n u h = h
  reserved-run_calls (q ∷ qs) v n u h =
      reserved-run_calls qs (call q v).1 n u
        (reserved-authorize q.authority q.candidate q.now q.cost v n u h)

  -- While a nonce is reserved, no capability for it is issued.
  none_for_reserved :
      (qs : List Call) (v : Vault) (n u : Str)
      → lookup n v.state.nonces ≡ some u
      → ¬ (Elem n (token_nonces (run_calls qs v).0))
  unfolding run_calls
  none_for_reserved [] v n u h x = x
  none_for_reserved (q ∷ qs) v n u h x =
      elim (Elem-issued n (call q v).0 (run_calls qs (call q v).1).0 x) [
        | inl (token, r, e) ↦
            let (same, free, _) = authorize-nonce q.authority q.candidate q.now q.cost v token r in
            let known : lookup q.candidate.nonce v.state.nonces ≡ some u = rw (← same, ← e) h in
            cc (known, free)
        | inr y ↦
            none_for_reserved qs (call q v).1 n u
              (reserved-authorize q.authority q.candidate q.now q.cost v n u h) y
      ]

  -- Over any calls of any authorities on one vault, no two capabilities that are issued carry the
  -- same nonce.
  pub run_calls-Distinct : (qs : List Call) (v : Vault) → Distinct (token_nonces (run_calls qs v).0)
  unfolding run_calls
  run_calls-Distinct [] v = tt
  run_calls-Distinct (q ∷ qs) v =
      Distinct-issued (call q v).0 (run_calls qs (call q v).1).0
        (λ token r.
          let (same, _, reserved) =
            authorize-nonce q.authority q.candidate q.now q.cost v token r in
          rw same
            (none_for_reserved qs (call q v).1 q.candidate.nonce token.transition_id reserved))
        (run_calls-Distinct qs (call q v).1)

  -- A call that advanced the state burns its nonce, also where it raised after that: whatever is
  -- called later, no capability for that nonce is issued.
  pub run_calls_burned :
      (q : Call) (qs : List Call) (v : Vault) (h : Hcad) (t : StateTransition)
      → build_hcad q.candidate none none ≡ ok h
      → (validate q.authority.policy q.candidate q.now).0 ≡ true
      → (transition_for_authorization q.candidate q.cost v.state).0 ≡ ok t
      → ¬ (Elem q.candidate.nonce (token_nonces (run_calls qs (call q v).1).0))
  run_calls_burned q qs v h t built allowed advanced =
      none_for_reserved qs (call q v).1 q.candidate.nonce t.transition_id (
        rw (state-authorize q.authority q.candidate q.now q.cost v built allowed)
          (ground (arith, nonces-transition q.candidate q.cost v.state q.candidate.nonce advanced)))
