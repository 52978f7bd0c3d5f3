-- ===== src/Authority.antt =====
-- src/finality_ref/authority.py: `ProtectedAuthority.authorize`, step by step. `now` is `now_ns`,
-- or the reading of the clock where that is None.
pub mod Outcome
pub mod Encodable
pub mod Succeeds
pub mod Exactly
pub mod Replays
use execution_finality_for_a.Prelude.{Str, str, ℤ, ◌+ℤ◌, min_ℤ, not, Bool, List, [], ◌∷◌, none}
use execution_finality_for_a.Errors.{Error}
use execution_finality_for_a.Exec.{Exec, pure, lift, raise_if, ◌>>=◌, ◌>>◌}
use execution_finality_for_a.Platform.{Platform}
use execution_finality_for_a.Canonical.{Value, Items, fields, texts, sha256_hex}
use execution_finality_for_a.Models.{
  CandidateAct, Hcad, Decision, decision_value, ValidationEvidence, Capability, StateTransition,
  build_hcad, hcad_digest, candidate_digest,
}
use execution_finality_for_a.Crypto.{Authenticator}
use execution_finality_for_a.Evidence.{EvidenceStore, commit}
use execution_finality_for_a.Policy.{Policy, validate}
use execution_finality_for_a.State.{ProtectedState, transition_for_authorization}

-- The two objects that the authority writes, and that the sinks read.
pub record Vault : Type 0 where
  pub state : ProtectedState
  pub evidence : EvidenceStore

abbrev pub on_state : {A : Type 0} → Exec ProtectedState A → Exec Vault A
on_state m v = let (r, s) = m v.state in (r, record v { state = s })

abbrev pub on_evidence : {A : Type 0} → Exec EvidenceStore A → Exec Vault A
on_evidence m v = let (r, s) = m v.evidence in (r, record v { evidence = s })

-- `evidence_authenticator` is the one that the evidence store was built with.
pub record ProtectedAuthority : Type 0 where
  pub authority_id : Str
  pub policy : Policy
  pub authenticator : Authenticator
  pub evidence_authenticator : Authenticator
  pub capability_ttl_ns : ℤ

-- `evidence_core`
unfoldable pub evidence_core :
    ProtectedAuthority → CandidateAct → ℤ → Str → Str → Str → List (Str × Value)
evidence_core a c now descriptor candidate transition_id =
    (str "authority_id", Value.text a.authority_id)
    ∷ (str "descriptor_digest", Value.text descriptor)
    ∷ (str "candidate_digest", Value.text candidate)
    ∷ (str "transition_id", Value.text transition_id)
    ∷ (str "policy_epoch", Value.int c.policy_epoch)
    ∷ (str "decision", Value.text (decision_value Decision.allow))
    ∷ (str "reasons", Value.list Items.nil)
    ∷ (str "committed_at_ns", Value.int now)
    ∷ (str "key_id", Value.text a.authenticator.key_id)
    ∷ []

unfoldable pub new_evidence :
    ProtectedAuthority → CandidateAct → ℤ → Str → Str → Str → Str → Str → ValidationEvidence
new_evidence a c now descriptor candidate transition_id evidence_id signature = record {
  evidence_id = evidence_id;
  authority_id = a.authority_id;
  descriptor_digest = descriptor;
  candidate_digest = candidate;
  transition_id = transition_id;
  policy_epoch = c.policy_epoch;
  decision = Decision.allow;
  reasons = [];
  committed_at_ns = now;
  signature = signature;
  key_id = a.authenticator.key_id;
}

-- `min(candidate.issued_at_ns + candidate.freshness_ns, now + self.capability_ttl_ns)`
unfoldable pub expiry : ProtectedAuthority → CandidateAct → ℤ → ℤ
expiry a c now = min_ℤ (c.issued_at_ns +ℤ c.freshness_ns) (now +ℤ a.capability_ttl_ns)

-- `cap_core`
unfoldable pub capability_core :
    ProtectedAuthority → CandidateAct → ℤ → Str → Str → Str → Str → List (Str × Value)
capability_core a c now descriptor candidate transition_id evidence_id =
    (str "authority_id", Value.text a.authority_id)
    ∷ (str "candidate_digest", Value.text candidate)
    ∷ (str "descriptor_digest", Value.text descriptor)
    ∷ (str "sink_id", Value.text c.sink_id)
    ∷ (str "boundary_id", Value.text c.boundary_id)
    ∷ (str "nonce", Value.text c.nonce)
    ∷ (str "scope", Value.list (texts c.scope))
    ∷ (str "policy_epoch", Value.int c.policy_epoch)
    ∷ (str "evidence_id", Value.text evidence_id)
    ∷ (str "transition_id", Value.text transition_id)
    ∷ (str "issued_at_ns", Value.int now)
    ∷ (str "expires_at_ns", Value.int (expiry a c now))
    ∷ (str "key_id", Value.text a.authenticator.key_id)
    ∷ []

unfoldable pub new_capability :
    ProtectedAuthority → CandidateAct → ℤ → Str → Str → Str → Str → Str → Str → Capability
new_capability a c now descriptor candidate transition_id evidence_id capability_id signature =
    record {
      capability_id = capability_id;
      authority_id = a.authority_id;
      candidate_digest = candidate;
      descriptor_digest = descriptor;
      sink_id = c.sink_id;
      boundary_id = c.boundary_id;
      nonce = c.nonce;
      scope = c.scope;
      policy_epoch = c.policy_epoch;
      evidence_id = evidence_id;
      transition_id = transition_id;
      issued_at_ns = now;
      expires_at_ns = expiry a c now;
      key_id = a.authenticator.key_id;
      signature = signature;
    }

module _ ⦃p : Platform⦄ (a : ProtectedAuthority) (c : CandidateAct) (now : ℤ) where
  -- The evidence is signed and committed, and returned for the capability to name.
  unfoldable pub commit_evidence : Str → Str → Str → Exec Vault ValidationEvidence
  commit_evidence descriptor candidate transition_id = do
    let core = evidence_core a c now descriptor candidate transition_id
    evidence_id ← lift (sha256_hex (Value.dict (fields core)))
    signature ← lift (
        a.authenticator.sign
          (Value.dict (fields ((str "evidence_id", Value.text evidence_id) ∷ core))))
    let evidence = new_evidence a c now descriptor candidate transition_id evidence_id signature
    on_evidence (commit a.evidence_authenticator evidence)
    pure evidence

  -- The capability is signed.
  unfoldable pub issue_capability : Str → Str → Str → Str → Exec Vault Capability
  issue_capability descriptor candidate transition_id evidence_id = do
    let core = capability_core a c now descriptor candidate transition_id evidence_id
    capability_id ← lift (sha256_hex (Value.dict (fields core)))
    signature ← lift (
        a.authenticator.sign
          (Value.dict (fields ((str "capability_id", Value.text capability_id) ∷ core))))
    pure (
        new_capability a c now descriptor candidate transition_id evidence_id capability_id
          signature)

  -- Everything after the state transition: evidence first, then the capability.
  unfoldable pub certify : Hcad → StateTransition → Exec Vault Capability
  certify hcad transition = do
    descriptor ← lift (hcad_digest hcad)
    candidate ← lift (candidate_digest c)
    evidence ← commit_evidence descriptor candidate transition.transition_id
    issue_capability descriptor candidate transition.transition_id evidence.evidence_id

  -- `authorize(candidate, cost=…, now_ns=…)`
  unfoldable pub authorize : ℤ → Exec Vault Capability
  authorize cost = do
    hcad ← lift (build_hcad c none none)
    let (allowed, reasons) = validate a.policy c now
    raise_if (not allowed) (Error.validation_denied reasons)
    transition ← on_state (transition_for_authorization c cost)
    certify hcad transition
