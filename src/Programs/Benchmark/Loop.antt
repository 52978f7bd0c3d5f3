-- ===== src/Programs/Benchmark/Loop.antt =====
-- scripts/benchmark.py: the whole of `run`, up to its report.
use execution_finality_for_a.Prelude.{
  ℕ, zero, suc, ◌≤◌, Str, ℤ, pos, negsuc, ◌-ℤ◌, ◌+ℤ◌, min_ℤ, none, List, [], ◌∷◌, length, lookup,
  ◌≡◌, ◌⊎◌, refl, arith, ap, str_eq, Str-discrete, ℕ_discrete,
}
use execution_finality_for_a.Errors.{ok}
use execution_finality_for_a.Exec.{Exec}
use execution_finality_for_a.Platform.{Platform}
use execution_finality_for_a.Canonical.{Value, fields, has_surrogate}
use execution_finality_for_a.Canonical.Encodable.{Encodable}
use execution_finality_for_a.Models.{CandidateAct, Capability}
use execution_finality_for_a.Crypto.{is_ascii}
use execution_finality_for_a.Crypto.Documented.{
  IsDocumented, digest_returns, names_fit, fields-Encodable,
}
use execution_finality_for_a.State.{new_state}
use execution_finality_for_a.Consumption.Memory
use execution_finality_for_a.Consumption.Memory.{Claims, memory_store, memory-IsSingleUse}
use execution_finality_for_a.Effectors.{GuardedEffector, bound_handle, new_effector, channel_of}
use execution_finality_for_a.Authority.{authorize, expiry}
use execution_finality_for_a.Authority.Succeeds.{authorize_returns}
use execution_finality_for_a.Sink.{verify}
use execution_finality_for_a.Sink.Effectuate.{World}
use execution_finality_for_a.Protocol.Crossing.{authorize-verify, authorize-expiry}
use execution_finality_for_a.Protocol.Clash.{Call, Clash}
use execution_finality_for_a.Programs.Session.{sessions}
use execution_finality_for_a.Programs.Trail.{calls, Trail}
use execution_finality_for_a.Programs.Trail.Served.{Trail-served}
use execution_finality_for_a.Programs.Throughput.{IsFit, AllFit, ServesAll}
use execution_finality_for_a.Programs.Throughput.Loop.{all_served, empty-Trail}
use execution_finality_for_a.Programs.Benchmark.{
  now, make_candidate, authority, sink, vault, built, warm_entries, timed_entries, digest_again,
  warm_round, timed_round, repeat, job, jobs, run,
}
use execution_finality_for_a.Programs.Benchmark.Rounds.{
  candidate-IsEncodable, candidate-Grants, authority-IsReady, sink-IsWay,
}
use execution_finality_for_a.Programs.Benchmark.Nonces.{done_upto, Apart-upto}

length-jobs : (k n : ℕ) → length (jobs k n) ≡ n
unfolding jobs
length-jobs k zero = refl
length-jobs k (suc n) = ap suc (length-jobs (suc k) n)

module _ ⦃p : Platform⦄ where
  -- A round that returns and changes nothing can be repeated.
  repeat_idle :
      (n : ℕ) (body : Exec (World Claims GuardedEffector) (Unit {0}))
      (w : World Claims GuardedEffector)
      → body w ≡ (ok tt, w)
      → repeat n body w ≡ (ok tt, w)
  unfolding repeat
  repeat_idle zero body w idle = refl
  repeat_idle (suc n) body w idle = ground (arith, idle, repeat_idle n body w idle)

module _ ⦃p : Platform⦄ (doc : IsDocumented p) where
  digest_idle :
      (es : List (Str × Value)) (w : World Claims GuardedEffector)
      → Encodable (Value.dict (fields es))
      → digest_again es w ≡ (ok tt, w)
  digest_idle es w enc =
      let (d, e, _) = digest_returns doc (Value.dict (fields es)) enc in ground (arith, e)

  module _ (c : CandidateAct) (token : Capability) (w : World Claims GuardedEffector) (d : Str)
      (verified : verify sink c token now none w.vault ≡ ok d) where
    warm_idle : warm_round c token w ≡ (ok tt, w)
    unfolding warm_round Encodable has_surrogate names_fit is_ascii Str-discrete ℕ_discrete
    warm_idle = ground (
      arith,
      verified,
      digest_idle warm_entries w (fields-Encodable doc warm_entries refl (tt, (refl, tt))),
    )

    timed_idle : timed_round c token w ≡ (ok tt, w)
    unfolding timed_round Encodable has_surrogate names_fit is_ascii Str-discrete ℕ_discrete
    timed_idle = ground (
      arith,
      verified,
      digest_idle timed_entries w
          (fields-Encodable doc timed_entries refl (refl, (tt, ((refl, tt), tt)))),
    )

  pub IsFit-job : (i : ℤ) → IsFit authority sink (job i)
  unfolding expiry min_ℤ ◌+ℤ◌ ◌-ℤ◌ make_candidate
  IsFit-job i = record {
    encodable = candidate-IsEncodable doc i;
    allowed = (candidate-Grants doc i).allowed;
    way = sink-IsWay doc i;
    early = omega arith;
    late = omega arith;
  }

  pub fits : (k n : ℕ) → AllFit authority sink (jobs k n) (done_upto k)
  unfolding jobs
  fits k zero = tt
  fits k (suc n) = (IsFit-job (pos k), Apart-upto doc k k (omega arith), fits (suc k) n)

  -- `authority.authorize(c0)`
  abbrev first_call : Call
  first_call = record { candidate = make_candidate (negsuc 0); now = now; vault = vault }

  module _ (marker : ℕ) (token : Capability)
      (issued : (authorize authority (make_candidate (negsuc 0)) now (pos 1) vault).0
        ≡ ok token) where
    abbrev left : World Claims GuardedEffector
    left = record (built marker) {
      vault = (authorize authority (make_candidate (negsuc 0)) now (pos 1) vault).1;
    }

    first_verified :
        verify sink (make_candidate (negsuc 0)) token now none left.vault
        ≡ ok token.descriptor_digest
    unfolding ◌-ℤ◌
    first_verified =
        let way = sink-IsWay doc (negsuc 0) in
        let (_, _, _, _, live) =
          authorize-expiry authority (make_candidate (negsuc 0)) now (pos 1) vault token issued in
        authorize-verify authority (make_candidate (negsuc 0)) now (pos 1) vault sink token now none
          way.shares way.place issued (omega arith) (live (omega arith)) tt

    first-Trail : Trail authority (first_call ∷ []) 999_999 memory_store left.vault left.consumed
    unfolding Memory.is_claimed new_state lookup
    first-Trail =
        Trail-served doc authority (make_candidate (negsuc 0)) now vault
          (authority-IsReady doc (negsuc 0)) (candidate-IsEncodable doc (negsuc 0))
          (candidate-Grants doc (negsuc 0)).allowed [] 999_999 memory_store []
          (empty-Trail doc authority sink (authority-IsReady doc (negsuc 0)) refl memory_store
            memory-IsSingleUse marker 1_000_000 (built marker) refl refl refl (λ j. refl)
            (λ k. omega arith) (λ k. omega arith))
          tt token [] issued (λ j taken. cc taken)

    run_loop :
        (n : ℕ)
        → run marker n (built marker)
          ≡ sessions authority sink memory_store (bound_handle marker) (jobs 0 n) left
    unfolding run
    run_loop n = ground (
      arith,
      issued,
      repeat_idle 1000 (warm_round (make_candidate (negsuc 0)) token) left
          (warm_idle (make_candidate (negsuc 0)) token left token.descriptor_digest first_verified),
      repeat_idle n (timed_round (make_candidate (negsuc 0)) token) left (
          timed_idle (make_candidate (negsuc 0)) token left token.descriptor_digest first_verified),
    )

  -- Over a documented platform, `run` with at most 999,999 iterations on the system that `build` makes
  -- returns: the first call, the warm-up, the verification loop, and the last loop with one receipt for
  -- each of its acts; the effector has made exactly the effects of the last loop, with its payloads and
  -- in its order. Otherwise two of the calls of `authorize` that this run makes are a collision of
  -- SHA-256.
  pub run-ServesAll :
      (marker n : ℕ)
      → n ≤ 999_999
      → ServesAll (jobs 0 n) (built marker).effector (run marker n (built marker))
        ⊎ Clash authority (calls authority (job (negsuc 0) ∷ jobs 0 n) [] vault)
  unfolding has_surrogate new_effector channel_of
  run-ServesAll marker n few =
      let c = make_candidate (negsuc 0) in
      let (token, issued) =
        authorize_returns doc authority c now (pos 1) vault (authority-IsReady doc (negsuc 0))
          (candidate-IsEncodable doc (negsuc 0)) (candidate-Grants doc (negsuc 0)) in
      rw (run_loop marker token issued n) (
        all_served doc authority sink (authority-IsReady doc (negsuc 0)) refl memory_store
          memory-IsSingleUse marker (jobs 0 n) (first_call ∷ []) 999_999 (left marker token issued)
          (fits 0 n) (first-Trail marker token issued) (rw (length-jobs 0 n) few) refl refl refl)
