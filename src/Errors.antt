-- ===== src/Errors.antt =====
-- src/finality_ref/errors.py: the exceptions, as values. A message that is a constant of the source
-- is a constructor; the classes are the constructors of `Error`, and `is_verification_failed` holds
-- the one subclass relation that a caller can see. Built-in exceptions that the code lets through
-- are constructors too.
use execution_finality_for_a.Prelude.{Bool, true, false, List, ◌≡◌, ◌⊎◌, inl, inr, refl, cond}

-- The messages of `CanonicalizationError` (canonical.py).
pub data CanonicalizationFault : Type 0 where
  integer_outside_safe_range float_forbidden surrogate bytes_not_portable : CanonicalizationFault
  key_not_string surrogate_in_key key_collision unsupported_type : CanonicalizationFault

-- The reasons of `ValidationDenied`: those of policy.py in its order, then those of state.py.
pub data Reason : Type 0 where
  candidate_not_non_effective policy_epoch_mismatch purpose_not_allowed : Reason
  jurisdiction_not_allowed sink_not_allowed boundary_not_allowed : Reason
  effect_class_not_allowed empty_scope scope_not_allowed duplicate_scope : Reason
  source_revoked invalid_freshness candidate_from_future candidate_stale : Reason
  runtime_evidence_mismatch quota_exhausted budget_exhausted : Reason

-- The messages of `VerificationFailed` (sink.py), in the order of the checks.
pub data Check : Type 0 where
  candidate_not_non_effective effect_class_mismatch sink_binding_mismatch : Check
  boundary_binding_mismatch policy_epoch_mismatch scope_binding_mismatch : Check
  scope_not_supported_by_sink nonce_binding_mismatch capability_from_future : Check
  capability_expired capability_outlives_candidate capability_signature_invalid : Check
  presentation_proof_required presenter_binding_mismatch presentation_capability_mismatch : Check
  presentation_candidate_mismatch presentation_sink_boundary_mismatch : Check
  presentation_nonce_mismatch presentation_stale presentation_signature_invalid : Check
  candidate_digest_mismatch descriptor_digest_mismatch validation_evidence_missing : Check
  validation_evidence_signature_invalid validation_evidence_not_allow : Check
  authority_binding_mismatch evidence_candidate_mismatch evidence_descriptor_mismatch : Check
  evidence_transition_mismatch evidence_epoch_mismatch protected_state_transition_invalid : Check

-- The two messages of `ReplayDetected`, and the three of `EvidenceError`.
pub data Replay : Type 0 where
  nonce_reserved_or_consumed capability_consumed : Replay

pub data EvidenceFault : Type 0 where
  commit_failure_injected invalid_signature duplicate_evidence_id : EvidenceFault

-- Why an effect was denied: the direct path, a foreign handle, or the text of what went wrong
-- downstream, which is known by the exception that it is taken from.
mutual
  pub data Denial : Type 0 where
    direct_path invalid_invocation : Denial
    downstream : Error → Denial

  pub data Error : Type 0 where
    validation_denied : List Reason → Error
    verification_failed : Check → Error
    replay_detected : Replay → Error
    effect_denied : Denial → Error
    evidence_error : EvidenceFault → Error
    canonicalization_error : CanonicalizationFault → Error
    unicode_encode_error type_error value_error runtime_error os_error assertion_error
          unicode_decode_error overflow_error :
        Error

-- `isinstance(exc, VerificationFailed)`: `ReplayDetected` derives from it.
abbrev pub is_verification_failed : Error → Bool
is_verification_failed (Error.verification_failed _) = true
is_verification_failed (Error.replay_detected _) = true
is_verification_failed _ = false

-- A pure function that may raise.
pub data Result {ℓ} (A : Type ℓ) : Type ℓ where
  err : Error → Result A
  ok : A → Result A

-- The call returned a value.
abbrev pub is_ok {ℓ} : {A : Type ℓ} → Result A → Bool
is_ok (ok _) = true
is_ok (err _) = false

infixl 10 ◌>>=◌ ◌>>◌
abbrev pub ◌>>=◌ {κ ℓ} : {A : Type κ} {B : Type ℓ} → Result A → (A → Result B) → Result B
err raised >>= next = err raised
ok value >>= next = next value

abbrev pub ◌>>◌ {ℓ} : {B : Type ℓ} → Result (Unit {0}) → Result B → Result B
test >> rest = test >>= λ _. rest

-- `if c: raise e`
abbrev pub fail_if : Bool → Error → Result (Unit {0})
fail_if c e = cond c (err e) (ok tt)

pub fail_if-ok :
    {B : Type 0} (c : Bool) (e : Error) (k : Result B) {b : B}
    → (fail_if c e >> k) ≡ ok b
    → (c ≡ false) × (k ≡ ok b)
fail_if-ok true e k h = cc
fail_if-ok false e k h = (refl, h)

-- A chain that returned: its first call returned, and the rest did on that value.
pub bind-ok :
    {A B : Type 0} {b : B} (first : Result A) (next : A → Result B)
    → (first >>= next) ≡ ok b
    → (x : A) × (first ≡ ok x) × (next x ≡ ok b)
bind-ok (ok x) next h = (x, refl, h)
bind-ok (err raised) next h = cc

-- The value of a call that returned.
pub value_of {ℓ} : {A : Type ℓ} (r : Result A) → is_ok r ≡ true → (a : A) × (r ≡ ok a)
value_of (ok a) h = (a, refl)
value_of (err e) h = cc

-- To split on how a call ended.
pub Result-cases {ℓ} :
    {A : Type ℓ} (r : Result A) → ((a : A) × (r ≡ ok a)) ⊎ ((e : Error) × (r ≡ err e))
Result-cases (ok a) = inl (a, refl)
Result-cases (err e) = inr (e, refl)
