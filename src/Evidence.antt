-- ===== src/Evidence.antt =====
-- src/finality_ref/evidence.py: the store of signed validation evidence. Its lock makes each method
-- atomic, so a method is a function of the records.
pub mod Laws
use mathlib.Core.Logic.{ite}
use execution_finality_for_a.Prelude.{
  Str, str_eq, Dict, lookup, insert, has_key, Bool, true, false, not, Option, none, some, [],
}
use execution_finality_for_a.Errors.{Error, EvidenceFault, Result, ok}
use execution_finality_for_a.Exec.{Exec, pure, lift, gets, raise_if, modify, ◌>>=◌, ◌>>◌}
use execution_finality_for_a.Models.{
  ValidationEvidence, unsigned_evidence, Decision, Decision-discrete,
}
use execution_finality_for_a.Crypto.{Authenticator}

pub record EvidenceStore : Type 0 where
  pub records : Dict ValidationEvidence
  pub fail_commits : Bool

-- `EvidenceStore(authenticator)`; the authenticator is an argument of the methods that use it.
abbrev pub empty_evidence : EvidenceStore
empty_evidence = record { records = []; fail_commits = false }

-- `self.authenticator.verify(evidence.unsigned(), evidence.signature, evidence.key_id)`
unfoldable pub evidence_signed : Authenticator → ValidationEvidence → Result Bool
evidence_signed a e = a.verify (unsigned_evidence e) e.signature e.key_id

unfoldable pub commit : Authenticator → ValidationEvidence → Exec EvidenceStore (Unit {0})
commit a e = do
  failing ← gets (λ s. s.fail_commits)
  raise_if failing (Error.evidence_error EvidenceFault.commit_failure_injected)
  signed ← lift (evidence_signed a e)
  raise_if (not signed) (Error.evidence_error EvidenceFault.invalid_signature)
  known ← gets (λ s. has_key e.evidence_id s.records)
  raise_if known (Error.evidence_error EvidenceFault.duplicate_evidence_id)
  modify (λ s. record s { records = insert e.evidence_id e s.records })

unfoldable pub get : Str → EvidenceStore → Option ValidationEvidence
get evidence_id s = lookup evidence_id s.records

-- `evidence.decision == Decision.ALLOW`
unfoldable pub is_allow : ValidationEvidence → Bool
unfolding Decision-discrete
is_allow e = ite (Decision-discrete e.decision Decision.allow) true false

abbrev verify_found : Authenticator → Option ValidationEvidence → Result Bool
verify_found a none = ok false
verify_found a (some e) =
    let signed = evidence_signed a e in elim (is_allow e) [ true ↦ signed | false ↦ ok false ]

unfoldable pub verify_allow : Authenticator → Str → EvidenceStore → Result Bool
verify_allow a evidence_id s = verify_found a (get evidence_id s)

unfoldable pub replace_for_adversarial_test : ValidationEvidence → EvidenceStore → EvidenceStore
replace_for_adversarial_test e s = record s { records = insert e.evidence_id e s.records }
