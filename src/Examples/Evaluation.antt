-- ===== src/Examples/Evaluation.antt =====
-- One name that opens every definition of the model, for runs on concrete input.
use execution_finality_for_a.Prelude.{
  lookup, insert, to_set, ◌+ℤ◌, ◌-ℤ◌, min_ℤ, abs, Str-discrete, ℤ-discrete, Strs-discrete,
  ℕ_discrete,
}
use execution_finality_for_a.Canonical.{
  has_surrogate, text_lt, sort_keys, hex, escape, digits, decimal, utf8, is_safe_integer,
  normalize_int, normalize_text, normalize_bytes, normalize_key, normalize, quoted, join_members,
  dumps, dump, canonical_bytes, portable_canonical_bytes, sha256_hex,
}
use execution_finality_for_a.Models.{
  ActStatus-discrete, Decision-discrete, candidate_fields, candidate_value, hcad_fields, hcad_value,
  payload_digest, candidate_digest, hcad_digest, build_hcad, unsigned_evidence, unsigned_capability,
  unsigned_receipt,
}
use execution_finality_for_a.Crypto.{is_ascii, compare_digest, hmac_sign, hmac_verify}
use execution_finality_for_a.Evidence.{evidence_signed, commit, get, is_allow, verify_allow}
use execution_finality_for_a.Policy.{is_non_effective, policy_tests, collect, validate}
use execution_finality_for_a.State.{
  new_state, get_source, transition_core, new_transition, record_transition,
  transition_for_authorization, verify_transition,
}
use execution_finality_for_a.Consumption.Memory
use execution_finality_for_a.Consumption.Sqlite
use execution_finality_for_a.Effectors.{new_effector, reference_core, guarded_commit, bound_handle}
use execution_finality_for_a.Pop.{unsigned_proof, prove, registry_verify}
use execution_finality_for_a.Authority.{
  evidence_core, new_evidence, expiry, capability_core, new_capability, commit_evidence,
  issue_capability, certify, authorize,
}
use execution_finality_for_a.Sink.{
  check_bindings, context_get, check_proof, check_presentation, check_evidence, verify,
}
use execution_finality_for_a.Sink.Receipt.{receipt_core, new_receipt, issue_receipt}
use execution_finality_for_a.Sink.Effectuate.{claim_of, claim_and_effect, effectuate}
use execution_finality_for_a.Examples.Setup.{checksum}

unfoldable pub evaluation : Unit {0}
unfolding lookup insert to_set ◌+ℤ◌ ◌-ℤ◌ min_ℤ abs Str-discrete ℤ-discrete Strs-discrete ℕ_discrete
    has_surrogate text_lt sort_keys hex escape digits decimal utf8 is_safe_integer normalize_int
    normalize_text normalize_bytes normalize_key normalize quoted join_members dumps dump
    canonical_bytes portable_canonical_bytes sha256_hex ActStatus-discrete Decision-discrete
    candidate_fields candidate_value hcad_fields hcad_value payload_digest candidate_digest
    hcad_digest build_hcad unsigned_evidence unsigned_capability unsigned_receipt is_ascii
    compare_digest hmac_sign hmac_verify evidence_signed commit get is_allow verify_allow
    is_non_effective policy_tests collect validate new_state get_source transition_core
    new_transition record_transition transition_for_authorization verify_transition Memory.claim
    Memory.is_claimed Sqlite.claim Sqlite.is_claimed new_effector reference_core guarded_commit
    bound_handle unsigned_proof prove registry_verify evidence_core new_evidence expiry
    capability_core new_capability commit_evidence issue_capability certify authorize check_bindings
    context_get check_proof check_presentation check_evidence verify receipt_core new_receipt
    issue_receipt claim_of claim_and_effect effectuate checksum
evaluation = tt
