-- ===== src/Authority/Outcome.antt =====
-- What a call of `authorize` that returned has done, stage by stage.
use execution_finality_for_a.Prelude.{Str, str_eq, ℤ, true, none, ◌≡◌, arith}
use execution_finality_for_a.Errors.{ok, value_of}
use execution_finality_for_a.Platform.{Platform}
use execution_finality_for_a.Canonical.{Value, fields, sha256_hex}
use execution_finality_for_a.Models.{
  CandidateAct, Hcad, ValidationEvidence, unsigned_evidence, Capability, unsigned_capability,
  StateTransition, build_hcad, hcad_digest, candidate_digest,
}
use execution_finality_for_a.Evidence.{commit}
use execution_finality_for_a.Policy.{validate}
use execution_finality_for_a.State.{transition_for_authorization}
use execution_finality_for_a.Authority.{
  ProtectedAuthority, Vault, evidence_core, new_evidence, capability_core, new_capability,
  commit_evidence, issue_capability, certify, authorize,
}

-- The evidence that is committed is the one that was signed, under its content's digest.
pub record Evidences ⦃p : Platform⦄ (a : ProtectedAuthority) (c : CandidateAct) (now : ℤ)
    (d cd tid : Str) (v w : Vault) (e : ValidationEvidence) : Type 0 where
  pub shape : e ≡ new_evidence a c now d cd tid e.evidence_id e.signature
  pub id : sha256_hex (Value.dict (fields (evidence_core a c now d cd tid))) ≡ ok e.evidence_id
  pub signed : a.authenticator.sign (unsigned_evidence e) ≡ ok e.signature
  pub committed : (commit a.evidence_authenticator e v.evidence).0 ≡ ok tt
  pub after : w ≡ record v { evidence = (commit a.evidence_authenticator e v.evidence).1 }

pub record Capable ⦃p : Platform⦄ (a : ProtectedAuthority) (c : CandidateAct) (now : ℤ)
    (d cd tid eid : Str) (token : Capability) : Type 0 where
  pub shape : token ≡ new_capability a c now d cd tid eid token.capability_id token.signature
  pub id :
      sha256_hex (Value.dict (fields (capability_core a c now d cd tid eid)))
      ≡ ok token.capability_id
  pub signed : a.authenticator.sign (unsigned_capability token) ≡ ok token.signature

module _ ⦃p : Platform⦄ (a : ProtectedAuthority) (c : CandidateAct) (now : ℤ) (d cd tid : Str)
    (v : Vault) where
  pub commit_evidence-ok :
      (e : ValidationEvidence)
      → (commit_evidence a c now d cd tid v).0 ≡ ok e
      → Evidences a c now d cd tid v (commit_evidence a c now d cd tid v).1 e
  unfolding commit_evidence new_evidence evidence_core unsigned_evidence
  commit_evidence-ok e h = ground arith

  pub issue_capability-ok :
      (eid : Str) (token : Capability)
      → (issue_capability a c now d cd tid eid v).0 ≡ ok token
      → Capable a c now d cd tid eid token
  unfolding issue_capability new_capability capability_core unsigned_capability
  issue_capability-ok eid token h = ground arith

-- The stages of a call that returned: the policy allowed the act, the protected state was advanced,
-- the evidence was committed, and then the capability was signed.
pub record Issued ⦃p : Platform⦄ (a : ProtectedAuthority) (c : CandidateAct) (now cost : ℤ)
    (v w : Vault) (token : Capability) (h : Hcad) (t : StateTransition) (d cd : Str)
    (e : ValidationEvidence) : Type 0 where
  pub built : build_hcad c none none ≡ ok h
  pub allowed : (validate a.policy c now).0 ≡ true
  pub advanced : (transition_for_authorization c cost v.state).0 ≡ ok t
  pub descriptor : hcad_digest h ≡ ok d
  pub candidate : candidate_digest c ≡ ok cd
  pub evidenced :
      Evidences a c now d cd t.transition_id
        (record v { state = (transition_for_authorization c cost v.state).1 })
        w
        e
  pub capable : Capable a c now d cd t.transition_id e.evidence_id token

module _ ⦃p : Platform⦄ (a : ProtectedAuthority) (c : CandidateAct) (now cost : ℤ) (v : Vault) where
  vault-issue : (d cd tid eid : Str) (u : Vault) → (issue_capability a c now d cd tid eid u).1 ≡ u
  unfolding issue_capability
  vault-issue d cd tid eid u = ground arith

  -- The state once it has been advanced.
  abbrev pub advance : Vault
  advance = record v { state = (transition_for_authorization c cost v.state).1 }

  pub authorize_stages :
      (token : Capability)
      → (authorize a c now cost v).0 ≡ ok token
      → (h : Hcad) × (t : StateTransition) × (build_hcad c none none ≡ ok h)
        × ((validate a.policy c now).0 ≡ true)
        × ((transition_for_authorization c cost v.state).0 ≡ ok t)
        × (authorize a c now cost v ≡ certify a c now h t advance)
  unfolding authorize
  authorize_stages token r =
      let (h, eh) = value_of (build_hcad c none none) (ground arith) in
      let (t, et) = value_of (transition_for_authorization c cost v.state).0 (ground arith) in
      (h, t, eh, ground arith, et, ground arith)

module _ ⦃p : Platform⦄ (a : ProtectedAuthority) (c : CandidateAct) (now : ℤ) (h : Hcad)
    (t : StateTransition) (v : Vault) where
  certify_stages :
      (token : Capability)
      → (certify a c now h t v).0 ≡ ok token
      → (d : Str) × (cd : Str) × (e : ValidationEvidence) × (hcad_digest h ≡ ok d)
        × (candidate_digest c ≡ ok cd)
        × ((commit_evidence a c now d cd t.transition_id v).0 ≡ ok e)
        × (certify a c now h t v
            ≡ issue_capability a c now d cd t.transition_id e.evidence_id
                (commit_evidence a c now d cd t.transition_id v).1)
  unfolding certify
  certify_stages token r =
      let (d, ed) = value_of (hcad_digest h) (ground arith) in
      let (cd, ec) = value_of (candidate_digest c) (ground arith) in
      let (e, ee) = value_of (commit_evidence a c now d cd t.transition_id v).0 (ground arith) in
      (d, cd, e, ed, ec, ee, ground arith)

module _ ⦃p : Platform⦄ (a : ProtectedAuthority) (c : CandidateAct) (now cost : ℤ) (v : Vault) where
  -- A call that returned a capability has gone through every stage: the descriptor was built, the
  -- policy allowed the act, the state was advanced, the evidence was signed under its content's
  -- digest and committed, and the capability was signed under its own content's digest.
  pub authorize-Issued :
      (token : Capability)
      → (authorize a c now cost v).0 ≡ ok token
      → (h : Hcad) × (t : StateTransition) × (d : Str) × (cd : Str) × (e : ValidationEvidence)
        × Issued a c now cost v (authorize a c now cost v).1 token h t d cd e
  authorize-Issued token r =
      let (h, t, eh, ea, et, q) = authorize_stages a c now cost v token r in
      let w : Vault = advance a c now cost v in
      let r₁ : (certify a c now h t w).0 ≡ ok token = rw q at r in
      let (d, cd, e, ed, ec, ee, q₁) = certify_stages a c now h t w token r₁ in
      let w' : Vault = (commit_evidence a c now d cd t.transition_id w).1 in
      let r₂ : (issue_capability a c now d cd t.transition_id e.evidence_id w').0 ≡ ok token =
        rw q₁ at r₁ in
      let same : (authorize a c now cost v).1 ≡ w' =
        rw q (rw q₁ (vault-issue a c now cost v d cd t.transition_id e.evidence_id w')) in
      (
        h,
        t,
        d,
        cd,
        e,
        record {
          built = eh;
          allowed = ea;
          advanced = et;
          descriptor = ed;
          candidate = ec;
          evidenced = rw same (commit_evidence-ok a c now d cd t.transition_id w e ee);
          capable = issue_capability-ok a c now d cd t.transition_id w' e.evidence_id token r₂;
        },
      )
