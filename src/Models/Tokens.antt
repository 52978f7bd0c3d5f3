-- ===== src/Models/Tokens.antt =====
-- models.py: the records that the authority and the sink sign, with the dicts that they sign.
use execution_finality_for_a.Prelude.{ℤ, Str, str, List, [], ◌∷◌, Option, none, some}
use execution_finality_for_a.Canonical.{Value, fields, texts}
use execution_finality_for_a.Models.Acts.{Decision, decision_value}

pub record StateTransition : Type 0 where
  pub transition_id : Str
  pub nonce : Str
  pub source : Str
  pub before_version : ℤ
  pub after_version : ℤ
  pub quota_before : ℤ
  pub quota_after : ℤ
  pub budget_before : ℤ
  pub budget_after : ℤ
  pub policy_epoch : ℤ

pub record ValidationEvidence : Type 0 where
  pub evidence_id : Str
  pub authority_id : Str
  pub descriptor_digest : Str
  pub candidate_digest : Str
  pub transition_id : Str
  pub policy_epoch : ℤ
  pub decision : Decision
  pub reasons : List Str
  pub committed_at_ns : ℤ
  pub signature : Str
  pub key_id : Str

-- `ValidationEvidence.unsigned`
unfoldable pub unsigned_evidence : ValidationEvidence → Value
unfolding decision_value
unsigned_evidence e = Value.dict (
    fields (
      (str "evidence_id", Value.text e.evidence_id)
      ∷ (str "authority_id", Value.text e.authority_id)
      ∷ (str "descriptor_digest", Value.text e.descriptor_digest)
      ∷ (str "candidate_digest", Value.text e.candidate_digest)
      ∷ (str "transition_id", Value.text e.transition_id)
      ∷ (str "policy_epoch", Value.int e.policy_epoch)
      ∷ (str "decision", Value.text (decision_value e.decision))
      ∷ (str "reasons", Value.list (texts e.reasons))
      ∷ (str "committed_at_ns", Value.int e.committed_at_ns)
      ∷ (str "key_id", Value.text e.key_id)
      ∷ []))

pub record Capability : Type 0 where
  pub capability_id : Str
  pub authority_id : Str
  pub candidate_digest : Str
  pub descriptor_digest : Str
  pub sink_id : Str
  pub boundary_id : Str
  pub nonce : Str
  pub scope : List Str
  pub policy_epoch : ℤ
  pub evidence_id : Str
  pub transition_id : Str
  pub issued_at_ns : ℤ
  pub expires_at_ns : ℤ
  pub key_id : Str
  pub signature : Str

-- `Capability.unsigned`
unfoldable pub unsigned_capability : Capability → Value
unsigned_capability c = Value.dict (
    fields (
      (str "capability_id", Value.text c.capability_id)
      ∷ (str "authority_id", Value.text c.authority_id)
      ∷ (str "candidate_digest", Value.text c.candidate_digest)
      ∷ (str "descriptor_digest", Value.text c.descriptor_digest)
      ∷ (str "sink_id", Value.text c.sink_id)
      ∷ (str "boundary_id", Value.text c.boundary_id)
      ∷ (str "nonce", Value.text c.nonce)
      ∷ (str "scope", Value.list (texts c.scope))
      ∷ (str "policy_epoch", Value.int c.policy_epoch)
      ∷ (str "evidence_id", Value.text c.evidence_id)
      ∷ (str "transition_id", Value.text c.transition_id)
      ∷ (str "issued_at_ns", Value.int c.issued_at_ns)
      ∷ (str "expires_at_ns", Value.int c.expires_at_ns)
      ∷ (str "key_id", Value.text c.key_id)
      ∷ []))

-- `supported_scopes` is a frozenset, of which only membership is asked.
pub record SinkContext : Type 0 where
  pub sink_id : Str
  pub boundary_id : Str
  pub policy_epoch : ℤ
  pub supported_scopes : List Str
  pub effect_class : Str

pub record SinkReceipt : Type 0 where
  pub receipt_id : Str
  pub capability_id : Str
  pub candidate_digest : Str
  pub descriptor_digest : Str
  pub sink_id : Str
  pub boundary_id : Str
  pub transition_id : Str
  pub scope : List Str
  pub effect_status : Str
  pub committed_at_ns : ℤ
  pub effect_reference : Option Str
  pub signature : Str
  pub key_id : Str

-- A `str | None` as a value.
abbrev pub optional_text : Option Str → Value
optional_text none = Value.null
optional_text (some s) = Value.text s

-- `SinkReceipt.unsigned`
unfoldable pub unsigned_receipt : SinkReceipt → Value
unsigned_receipt r = Value.dict (
    fields (
      (str "receipt_id", Value.text r.receipt_id)
      ∷ (str "capability_id", Value.text r.capability_id)
      ∷ (str "candidate_digest", Value.text r.candidate_digest)
      ∷ (str "descriptor_digest", Value.text r.descriptor_digest)
      ∷ (str "sink_id", Value.text r.sink_id)
      ∷ (str "boundary_id", Value.text r.boundary_id)
      ∷ (str "transition_id", Value.text r.transition_id)
      ∷ (str "scope", Value.list (texts r.scope))
      ∷ (str "effect_status", Value.text r.effect_status)
      ∷ (str "committed_at_ns", Value.int r.committed_at_ns)
      ∷ (str "effect_reference", optional_text r.effect_reference)
      ∷ (str "key_id", Value.text r.key_id)
      ∷ []))
