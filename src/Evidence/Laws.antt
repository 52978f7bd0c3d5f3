-- ===== src/Evidence/Laws.antt =====
-- How `EvidenceStore.commit` changes the records, and what is read back.
use execution_finality_for_a.Prelude.{
  Str, str_eq, ◌==◌, lookup-insert, if◌then◌else◌, true, false, none, some, ◌≡◌, ◌⊎◌, arith,
}
use execution_finality_for_a.Errors.{Error, ok, err}
use execution_finality_for_a.Models.{ValidationEvidence, Decision, Decision-discrete}
use execution_finality_for_a.Crypto.{Authenticator}
use execution_finality_for_a.Evidence.{
  EvidenceStore, commit, get, evidence_signed, verify_allow, is_allow,
}

module _ (a : Authenticator) (e : ValidationEvidence) (s : EvidenceStore) where
  -- A commit that raises leaves the store as it was.
  pub commit-err : {x : Error} → (commit a e s).0 ≡ err x → (commit a e s).1 ≡ s
  unfolding commit
  commit-err h = ground arith

  -- A commit returns exactly where no failure is injected, the signature verifies, and the id is
  -- new.
  pub commit-ok :
      (commit a e s).0 ≡ ok tt
      → (s.fail_commits ≡ false) × (evidence_signed a e ≡ ok true) × (get e.evidence_id s ≡ none)
  unfolding commit get
  commit-ok h = ground arith

  pub commit_returns :
      s.fail_commits ≡ false
      → evidence_signed a e ≡ ok true
      → get e.evidence_id s ≡ none
      → (commit a e s).0 ≡ ok tt
  unfolding commit get
  commit_returns f g k = ground arith

  -- After a commit that returned, the id reads the committed record and every other id what it
  -- read.
  pub get-commit :
      (j : Str)
      → (commit a e s).0 ≡ ok tt
      → get j (commit a e s).1 ≡ (if j == e.evidence_id then some e else get j s)
  unfolding commit get
  get-commit j h = ground (arith, lookup-insert j e.evidence_id e s.records)

  -- No commit, whether it returns or raises, changes a record that is there.
  pub get-commit_stays :
      (j : Str) (f : ValidationEvidence) → get j s ≡ some f → get j (commit a e s).1 ≡ some f
  unfolding commit get
  get-commit_stays j f h = ground (arith, lookup-insert j e.evidence_id e s.records)

  -- The flag of the injected failure is only read.
  pub fail_commits-commit : (commit a e s).1.fail_commits ≡ s.fail_commits
  unfolding commit
  fail_commits-commit = ground arith

-- A committed allow record is one that `verify_allow` accepts.
pub verify_allow-commit :
    (a : Authenticator) (e : ValidationEvidence) (s : EvidenceStore)
    → e.decision ≡ Decision.allow
    → (commit a e s).0 ≡ ok tt
    → verify_allow a e.evidence_id (commit a e s).1 ≡ ok true
unfolding verify_allow is_allow Decision-discrete
verify_allow-commit a e s allowed h =
    ground (arith, get-commit a e s e.evidence_id h, commit-ok a e s h)

-- Whatever a commit leaves in the store was there or is the committed record.
pub get-commit_cases :
    (a : Authenticator) (e f : ValidationEvidence) (s : EvidenceStore) (j : Str)
    → get j (commit a e s).1 ≡ some f
    → (get j s ≡ some f) ⊎ ((f ≡ e) × ((commit a e s).0 ≡ ok tt))
unfolding commit get
get-commit_cases a e f s j h = ground (arith, lookup-insert j e.evidence_id e s.records)
