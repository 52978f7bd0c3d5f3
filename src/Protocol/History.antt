-- ===== src/Protocol/History.antt =====
-- Where accepted evidence comes from: over a vault that only authorities write, whatever a sink
-- accepts was allowed by a policy before.
use execution_finality_for_a.Prelude.{
  Str, str, str_eq, ℤ, lookup, lookup-nil, true, Option, none, some, List, [], ◌∷◌, ◌≡◌, ◌⊎◌, inl,
  inr, arith, ap,
}
use execution_finality_for_a.Errors.{Result, ok, Result-cases}
use execution_finality_for_a.Platform.{Platform}
use execution_finality_for_a.Canonical.{Value, fields, sha256_hex}
use execution_finality_for_a.Models.{
  CandidateAct, Hcad, Capability, StateTransition, ValidationEvidence, candidate_digest,
  hcad_digest, build_hcad,
}
use execution_finality_for_a.Evidence.{get}
use execution_finality_for_a.Evidence.Laws.{get-commit_cases}
use execution_finality_for_a.Policy.{validate}
use execution_finality_for_a.State.{transition_for_authorization}
use execution_finality_for_a.Pop.{PresentationProof}
use execution_finality_for_a.Authority.{
  ProtectedAuthority, Vault, evidence_core, new_evidence, commit_evidence, issue_capability,
  certify, authorize,
}
use execution_finality_for_a.Authority.Replays.{Call, call, run_calls}
use execution_finality_for_a.Sink.{FinalitySink, verify}
use execution_finality_for_a.Sink.Accepts.{verify_sound}
use execution_finality_for_a.Protocol.Binding.{Collision, SameAct, candidate_digest-binds}

-- The record is the evidence of this call.
pub record Records ⦃p : Platform⦄ (a : ProtectedAuthority) (c : CandidateAct) (now : ℤ)
    (e : ValidationEvidence) : Type 0 where
  pub authority : e.authority_id ≡ a.authority_id
  pub candidate : candidate_digest c ≡ ok e.candidate_digest
  pub epoch : e.policy_epoch ≡ c.policy_epoch
  pub time : e.committed_at_ns ≡ now

module _ ⦃p : Platform⦄ (a : ProtectedAuthority) (c : CandidateAct) (now : ℤ) (j : Str)
    (e : ValidationEvidence) where
  evidence-commit_evidence :
      (d cd tid : Str) (v : Vault)
      → get j (commit_evidence a c now d cd tid v).1.evidence ≡ some e
      → (get j v.evidence ≡ some e) ⊎ (e ≡ new_evidence a c now d cd tid e.evidence_id e.signature)
  unfolding commit_evidence new_evidence
  evidence-commit_evidence d cd tid v h =
      elim (Result-cases (sha256_hex (Value.dict (fields (evidence_core a c now d cd tid))))) [
        | inl (i, ei) ↦ elim (Result-cases (sign i)) [
          | inl (g, eg) ↦ ground (
            arith,
            get-commit_cases a.evidence_authenticator (new_evidence a c now d cd tid i g) e
                v.evidence j,
          )
          | inr (x, ex) ↦ ground arith
        ]
        | inr (x, ex) ↦ ground arith
      ]
    where
      sign : Str → Result Str
      sign i =
          a.authenticator.sign (
            Value.dict
              (fields ((str "evidence_id", Value.text i) ∷ evidence_core a c now d cd tid)))

  evidence-issue_capability :
      (d cd tid eid : Str) (v : Vault)
      → (issue_capability a c now d cd tid eid v).1.evidence ≡ v.evidence
  unfolding issue_capability
  evidence-issue_capability d cd tid eid v = ground arith

  evidence_of_certify :
      (h : Hcad) (t : StateTransition) (v : Vault) (d cd : Str)
      → hcad_digest h ≡ ok d
      → candidate_digest c ≡ ok cd
      → (certify a c now h t v).1.evidence
        ≡ (commit_evidence a c now d cd t.transition_id v).1.evidence
  unfolding certify
  evidence_of_certify h t v d cd ed ec = grind (arith, evidence-issue_capability)

  evidence-certify :
      (h : Hcad) (t : StateTransition) (v : Vault)
      → get j (certify a c now h t v).1.evidence ≡ some e
      → (get j v.evidence ≡ some e) ⊎ Records a c now e
  unfolding certify new_evidence
  evidence-certify h t v g = elim (Result-cases (hcad_digest h)) [
    | inl (d, ed) ↦ elim (Result-cases (candidate_digest c)) [
      | inl (cd, ec) ↦
          let kept = rw (evidence_of_certify h t v d cd ed ec) at g in
          elim (evidence-commit_evidence d cd t.transition_id v kept) [
            | inl old ↦ inl old
            | inr new ↦ inr (record {
              authority = ground arith;
              candidate = ground arith;
              epoch = ground arith;
              time = ground arith;
            })
          ]
      | inr (x, ex) ↦ inl (ground arith)
    ]
    | inr (x, ex) ↦ inl (ground arith)
  ]

  evidence-authorize :
      (cost : ℤ) (v : Vault)
      → get j (authorize a c now cost v).1.evidence ≡ some e
      → (get j v.evidence ≡ some e) ⊎ (((validate a.policy c now).0 ≡ true) × Records a c now e)
  unfolding authorize
  evidence-authorize cost v g = elim (Result-cases (build_hcad c none none)) [
    | inl (h, eh) ↦ elim (Result-cases (transition_for_authorization c cost v.state).0) [
      | inl (t, et) ↦ ground (
        arith,
        evidence-certify h t (record v { state = (transition_for_authorization c cost v.state).1 }),
      )
      | inr (x, ex) ↦ inl (ground arith)
    ]
    | inr (x, ex) ↦ inl (ground arith)
  ]

-- Some call of the list was allowed by its policy, and made this record.
abbrev pub Origin : ⦃p : Platform⦄ → List Call → ValidationEvidence → Type 0
Origin [] e = ⊥
Origin (q ∷ qs) e =
    (((validate q.authority.policy q.candidate q.now).0 ≡ true)
      × Records q.authority q.candidate q.now e)
    ⊎ Origin qs e

module _ ⦃p : Platform⦄ where
  evidence-run_calls :
      (qs : List Call) (v : Vault) (j : Str) (e : ValidationEvidence)
      → get j (run_calls qs v).1.evidence ≡ some e
      → (get j v.evidence ≡ some e) ⊎ Origin qs e
  unfolding run_calls
  evidence-run_calls [] v j e h = inl h
  evidence-run_calls (q ∷ qs) v j e h = elim (evidence-run_calls qs (call q v).1 j e h) [
    | inl earlier ↦ elim (evidence-authorize q.authority q.candidate q.now j e q.cost v earlier) [
      | inl before ↦ inl before
      | inr made ↦ inr (inl made)
    ]
    | inr later ↦ inr (inr later)
  ]

  -- Some call whose policy allowed it was for the same act, or for one whose bytes collide with it.
  abbrev pub Sanctioned : List Call → CandidateAct → Type 0
  Sanctioned [] b = ⊥
  Sanctioned (q ∷ qs) b =
      (((validate q.authority.policy q.candidate q.now).0 ≡ true)
        × (SameAct b q.candidate ⊎ Collision b q.candidate))
      ⊎ Sanctioned qs b

  Origin-Sanctioned :
      (qs : List Call) (b : CandidateAct) (e : ValidationEvidence)
      → Origin qs e
      → candidate_digest b ≡ ok e.candidate_digest
      → Sanctioned qs b
  Origin-Sanctioned [] b e o h = absurd o
  Origin-Sanctioned (q ∷ qs) b e (inl (allowed, made)) h =
      inl (allowed, candidate_digest-binds b q.candidate e.candidate_digest h made.candidate)
  Origin-Sanctioned (q ∷ qs) b e (inr o) h = inr (Origin-Sanctioned qs b e o h)

  -- Start with an empty evidence store and let authorities make any calls. Whatever capability a
  -- sink then accepts with whatever act, also one that no authority issued, some call's policy
  -- allowed that act at that call's time: an act with the same canonical bytes, or one whose
  -- different bytes have the same SHA-256 digest.
  pub accepted-Sanctioned :
      (qs : List Call) (v : Vault) (s : FinalitySink) (b : CandidateAct) (token : Capability)
      (at : ℤ) (proof : Option PresentationProof) (d : Str)
      → v.evidence.records ≡ []
      → verify s b token at proof (run_calls qs v).1 ≡ ok d
      → Sanctioned qs b
  unfolding get
  accepted-Sanctioned qs v s b token at proof d fresh verified =
      let (h, e, acc, same) = verify_sound s b token at proof (run_calls qs v).1 d verified in
      elim (evidence-run_calls qs v token.evidence_id e acc.evidence) [
        | inl old ↦ cc (
          ap (lookup token.evidence_id) fresh,
          lookup-nil {V = ValidationEvidence} token.evidence_id,
          old,
        )
        | inr o ↦ Origin-Sanctioned qs b e o (ground (arith, acc.candidate, acc.vouches.candidate))
      ]
