-- ===== src/Programs/Trail/Served.antt =====
-- The next act of a loop, and what its service adds to the trail.
use execution_finality_for_a.Prelude.{
  ℕ, suc, Str, str_eq, ◌==◌, Str-discrete, ℤ, pos, -ℤ_parts, lookup, true, false, ◌||◌, none, some,
  List, ◌∷◌, Bool-cases, Option-cases, ◌≡◌, ◌⊎◌, inl, inr, refl, arith, ap, sym, ◌∙◌,
}
use execution_finality_for_a.Errors.{ok}
use execution_finality_for_a.Platform.{Platform}
use execution_finality_for_a.Canonical.{Value, fields}
use execution_finality_for_a.Models.{
  CandidateAct, Hcad, Capability, StateTransition, ValidationEvidence,
}
use execution_finality_for_a.Crypto.Documented.{IsDocumented, digest_returns}
use execution_finality_for_a.Evidence.{get, commit}
use execution_finality_for_a.Evidence.Laws.{get-commit, fail_commits-commit}
use execution_finality_for_a.Policy.{validate}
use execution_finality_for_a.State.{transition_for_authorization}
use execution_finality_for_a.State.Laws.{entry, entry-transition, nonces-transition}
use execution_finality_for_a.Consumption.{ConsumptionStore}
use execution_finality_for_a.Authority.{ProtectedAuthority, Vault, authorize, evidence_core}
use execution_finality_for_a.Authority.Outcome.{Issued, authorize-Issued}
use execution_finality_for_a.Authority.Encodable.{
  IsEncodable, candidate_digest_returns, build_hcad_returns, evidence_core-Encodable,
}
use execution_finality_for_a.Authority.Succeeds.{
  Grants, IsReady, transition_granted, authorize_returns,
}
use execution_finality_for_a.Protocol.Clash.{Call, Parts, Clash}
use execution_finality_for_a.Programs.Trail.{
  candidates, Apart, Trail, no_evidence, no_capability, no_nonce,
}

module _ ⦃p : Platform⦄ (doc : IsDocumented p) (a : ProtectedAuthority) (c : CandidateAct) (now : ℤ)
    (v : Vault) (ready : IsReady a) (enc : IsEncodable c)
    (allowed : (validate a.policy c now).0 ≡ true) (done : List Call) (room : ℕ) {S : Type 0}
    (store : ConsumptionStore S) (used : S) (trail : Trail a done (suc room) store v used)
    (apart : Apart c (candidates done)) where
  fresh_nonce : lookup c.nonce v.state.nonces ≡ none
  fresh_nonce = elim (Option-cases (lookup c.nonce v.state.nonces)) [
    | inl free ↦ free
    | inr (u, taken) ↦ absurd (no_nonce c done apart (trail.reserved c.nonce u taken))
  ]

  -- The call for the act.
  abbrev this_call : Call
  this_call = record { candidate = c; now = now; vault = v }

  abbrev parts_issued :
      {h : Hcad} {t : StateTransition} {d cd : Str} {e : ValidationEvidence} {token : Capability}
      → Issued a c now (pos 1) v (authorize a c now (pos 1) v).1 token h t d cd e
      → Parts a this_call
  parts_issued {h} {t} {d} {cd} {e} iss = record {
    hcad = h;
    descriptor = d;
    digest = cd;
    transition = t;
    evidence_id = e.evidence_id;
    built = iss.built;
    described = iss.descriptor;
    digested = iss.candidate;
    advanced = iss.advanced;
    evidenced = iss.evidenced.id;
  }

  pub granted : Grants a c now (pos 1) v ⊎ Clash a (this_call ∷ done)
  granted =
      let (h, d, eh, ed, hd) = build_hcad_returns doc c enc in
      let (cd, ec, hc) = candidate_digest_returns doc c enc in
      let room_left = trail.quota c.source in
      let money_left = trail.budget c.source in
      let (t, et, ht) =
        transition_granted doc c enc (pos 1) v.state (omega arith) fresh_nonce (omega arith)
          (omega arith) in
      let (i, ei, hi) =
        digest_returns doc (Value.dict (fields (evidence_core a c now d cd t.transition_id))) (
          evidence_core-Encodable doc c enc a now d cd t.transition_id ready.authority_id
            ready.key_id hd hc ht) in
      elim (Option-cases (get i v.evidence)) [
        | inl free ↦ inl (record {
          allowed = allowed;
          positive = omega arith;
          fresh = fresh_nonce;
          has_quota = omega arith;
          has_budget = omega arith;
          open_store = trail.open_store;
          new_id = λ h' d' cd' t' i' eh' ed' ec' et' ei'.
              cc (eh, eh', ed, ed', ec, ec', et, et', ei, ei', free);
        })
        | inr (e, taken) ↦ inr (
            no_evidence doc a this_call i done apart
              (
                record {
                  hcad = h;
                  descriptor = d;
                  digest = cd;
                  transition = t;
                  evidence_id = i;
                  built = eh;
                  described = ed;
                  digested = ec;
                  advanced = et;
                  evidenced = ei;
                },
                refl,
              )
              (trail.recorded i e taken))
      ]

  module _ (g : Grants a c now (pos 1) v) where
    pub unclaimed :
        ((token : Capability)
          → (authorize a c now (pos 1) v).0 ≡ ok token
          → store.is_claimed token.capability_id used ≡ false)
        ⊎ Clash a (this_call ∷ done)
    unclaimed =
        let (token, et) = authorize_returns doc a c now (pos 1) v ready enc g in
        let (h, t, d, cd, e, iss) = authorize-Issued a c now (pos 1) v token et in
        elim (Bool-cases (store.is_claimed token.capability_id used)) [
          | inl taken ↦ inr (
              no_capability doc a this_call token.capability_id done apart
                (parts_issued iss, iss.capable.id) (trail.claimed token.capability_id taken))
          | inr free ↦ inl (λ other eo. ground (arith, et, eo, free))
        ]

  -- What is left after the call and the claim of its capability.
  pub Trail-served :
      (token : Capability) (after : S)
      → (authorize a c now (pos 1) v).0 ≡ ok token
      → ((j : Str)
          → store.is_claimed j after ≡ true
          → (j == token.capability_id || store.is_claimed j used) ≡ true)
      → Trail a (this_call ∷ done) room store (authorize a c now (pos 1) v).1 after
  Trail-served token after issued claims =
      let (h, t, d, cd, e, iss) = authorize-Issued a c now (pos 1) v token issued in
      let w : Vault = (authorize a c now (pos 1) v).1 in
      record {
        recorded = λ i f found.
            let kept : get i (commit a.evidence_authenticator e v.evidence).1 ≡ some f =
              ap (λ (u : Vault). get i u.evidence) (sym iss.evidenced.after) ∙ found in
            let read = get-commit a.evidence_authenticator e v.evidence i iss.evidenced.committed in
            elim (Str-discrete i e.evidence_id) [
              | yes same ↦ inl (parts_issued iss, sym same)
              | no other ↦ inr (trail.recorded i f (ground (arith, kept, read)))
            ];
        claimed = λ i taken. elim (Str-discrete i token.capability_id) [
          | yes same ↦ inl (parts_issued iss, rw same iss.capable.id)
          | no other ↦ inr (trail.claimed i (ground (arith, claims i taken)))
        ];
        reserved = λ n u taken.
            let kept : lookup n (transition_for_authorization c (pos 1) v.state).1.nonces ≡ some u =
              ap (λ (u : Vault). lookup n u.state.nonces) (sym iss.evidenced.after) ∙ taken in
            let read = nonces-transition c (pos 1) v.state n iss.advanced in
            elim (Str-discrete n c.nonce) [
              | yes same ↦ inl (sym same)
              | no other ↦ inr (trail.reserved n u (ground (arith, kept, read)))
            ];
        quota = λ k.
            let same = ap (λ (u : Vault). entry k u.state) iss.evidenced.after in
            let read = entry-transition c (pos 1) v.state k iss.advanced in
            ground (
              arith,
              same,
              read,
              trail.quota k,
              trail.quota c.source,
              -ℤ_parts (entry c.source v.state).quota (pos 1),
            );
        budget = λ k.
            let same = ap (λ (u : Vault). entry k u.state) iss.evidenced.after in
            let read = entry-transition c (pos 1) v.state k iss.advanced in
            ground (
              arith,
              same,
              read,
              trail.budget k,
              trail.budget c.source,
              -ℤ_parts (entry c.source v.state).budget (pos 1),
            );
        open_store =
            ap (λ (u : Vault). u.evidence.fail_commits) iss.evidenced.after
            ∙ fail_commits-commit a.evidence_authenticator e v.evidence
            ∙ trail.open_store;
      }
