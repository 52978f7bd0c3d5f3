-- ===== src/Effectors/Laws.antt =====
-- When a guarded effector acts, and what it records.
use execution_finality_for_a.Prelude.{
  ℕ, str_eq, Str-discrete, ℕ_discrete, lookup, length, true, false, [], ◌∷◌, ◌++◌, some, ◌≡◌, ◌≢◌,
  refl, arith,
}
use execution_finality_for_a.Errors.{Error, Denial, ok, err}
use execution_finality_for_a.Platform.{Platform}
use execution_finality_for_a.Canonical.{Value, fields, sha256_hex}
use execution_finality_for_a.Models.{CandidateAct, candidate_digest}
use execution_finality_for_a.Effectors.{
  EffectRecord, GuardedEffector, EffectorType, guarded_commit, reference_core, channel_of,
  effector_types,
}

-- Every effector class is listed under its own channel.
pub effector_types_complete : (t : EffectorType) → lookup (channel_of t) effector_types ≡ some t
unfolding channel_of lookup Str-discrete ℕ_discrete
effector_types_complete EffectorType.network = refl
effector_types_complete _ = refl

module _ ⦃p : Platform⦄ (c : CandidateAct) (m : ℕ) (e : GuardedEffector) where
  -- A handle with another marker has no effect at all.
  pub foreign_commit :
      m ≢ e.marker → guarded_commit c m e ≡ (err (Error.effect_denied Denial.invalid_invocation), e)
  unfolding guarded_commit
  foreign_commit h = ground arith

  -- A commit that returns has appended the record that it returns, and nothing else changed.
  pub commit-ok :
      {r : EffectRecord}
      → (guarded_commit c m e).0 ≡ ok r
      → ((guarded_commit c m e).1 ≡ record e { records = e.records ++ r ∷ [] })
        × (m ≡ e.marker)
        × (e.fail_next ≡ false)
        × (candidate_digest c ≡ ok r.candidate_digest)
        × (sha256_hex
              (Value.dict (fields (reference_core e.channel r.candidate_digest (length e.records))))
            ≡ ok r.effect_reference)
        × (r.channel ≡ e.channel)
        × (r.payload ≡ c.payload)
  unfolding guarded_commit
  commit-ok h = ground arith

  -- A commit that raises records no effect.
  pub commit-err :
      {x : Error} → (guarded_commit c m e).0 ≡ err x → (guarded_commit c m e).1.records ≡ e.records
  unfolding guarded_commit
  commit-err h = ground arith

  -- An injected failure is spent by the commit that it fails.
  pub commit_injected :
      m ≡ e.marker
      → e.fail_next ≡ true
      → guarded_commit c m e ≡ (err Error.os_error, record e { fail_next = false })
  unfolding guarded_commit
  commit_injected own h = ground arith

  pub marker-commit : (guarded_commit c m e).1.marker ≡ e.marker
  unfolding guarded_commit
  marker-commit = ground arith
