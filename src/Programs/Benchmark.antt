-- ===== src/Programs/Benchmark.antt =====
-- scripts/benchmark.py: `make_candidate`, `build` and `run`. The timers and the report are left out.
pub mod Rounds
pub mod Nonces
pub mod Loop
pub mod Summary
use execution_finality_for_a.Prelude.{
  ℕ, str, str_eq, strs_eq, int_eq, Str-discrete, ℕ_discrete, Strs-discrete, ℤ-discrete, ℤ, pos,
  ◌+ℤ◌, ◌-ℤ◌, min_ℤ, lookup, to_set, true, false, none, some, [], ◌∷◌, ◌++◌, inl, refl, arith,
}
use execution_finality_for_a.Errors.{Result}
use execution_finality_for_a.Platform.{Platform}
use execution_finality_for_a.Canonical.{Value, fields, has_surrogate, decimal}
use execution_finality_for_a.Canonical.Encodable.{Encodable}
use execution_finality_for_a.Models.{CandidateAct, ActStatus, ActStatus-discrete, SinkReceipt}
use execution_finality_for_a.Crypto.{
  Authenticator, HmacAuthenticator, hmac_authenticator, default_hmac_key_id, is_ascii,
}
use execution_finality_for_a.Crypto.Laws.{hmac-Verifies}
use execution_finality_for_a.Crypto.Documented.{
  IsDocumented, hmac-Signs, Clean-numbered, names_fit, fields-Encodable,
}
use execution_finality_for_a.Evidence.{empty_evidence, get}
use execution_finality_for_a.Policy.{Policy, policy_tests, collect, validate}
use execution_finality_for_a.State.{new_state}
use execution_finality_for_a.Consumption.Memory
use execution_finality_for_a.Consumption.Memory.{Claims, memory_store, memory-IsSingleUse}
use execution_finality_for_a.Effectors.{
  GuardedEffector, EffectorType, channel_of, new_effector, bound_handle,
}
use execution_finality_for_a.Authority.{ProtectedAuthority, Vault, expiry}
use execution_finality_for_a.Authority.Encodable.{IsEncodable}
use execution_finality_for_a.Authority.Succeeds.{Grants, IsReady}
use execution_finality_for_a.Sink.{FinalitySink}
use execution_finality_for_a.Sink.Effectuate.{World}
use execution_finality_for_a.Protocol.Delivery.{IsWay}
use execution_finality_for_a.Programs.Session.{bearer, session, Delivers, session-Delivers}
use execution_finality_for_a.Prelude.{negsuc, zero, suc, List, Str}
use execution_finality_for_a.Exec.{Exec, pure, lift, gets, ◌>>=◌, ◌>>◌}
use execution_finality_for_a.Canonical.{texts, sha256_hex}
use execution_finality_for_a.Models.{Capability}
use execution_finality_for_a.Authority.{authorize}
use execution_finality_for_a.Sink.{verify}
use execution_finality_for_a.Programs.Session.{Job, sessions, on_vault}

-- NOW
abbrev pub now : ℤ
now = pos 1_800_000_000_000_000_000

abbrev pub key : HmacAuthenticator
key = record { key = str "benchmark-reference-key"; key_id = default_hmac_key_id }

abbrev pub policy : Policy
policy = record {
  policy_epoch = pos 1;
  allowed_purposes = str "bench" ∷ [];
  allowed_jurisdictions = str "EU" ∷ [];
  allowed_sinks = str "bench-sink" ∷ [];
  allowed_boundaries = str "bench-boundary" ∷ [];
  allowed_effect_classes = str "network-egress" ∷ [];
  allowed_scopes = str "SEND" ∷ [];
  revoked_sources = [];
  required_runtime_evidence_digest = some (str "runtime-ok");
  max_future_skew_ns = pos 1_000_000_000;
}

unfoldable pub make_candidate : ℤ → CandidateAct
unfolding decimal
make_candidate i = record {
  act_id = str "bench-" ++ decimal i;
  act_class = str "api-call";
  effect_class = str "network-egress";
  source = str "bench-agent";
  destination = str "https://example.invalid/effect";
  purpose = str "bench";
  jurisdiction = str "EU";
  policy_epoch = pos 1;
  nonce = str "n-" ++ decimal i;
  issued_at_ns = now;
  freshness_ns = pos 60_000_000_000;
  sink_id = str "bench-sink";
  boundary_id = str "bench-boundary";
  scope = str "SEND" ∷ [];
  payload =
      Value.dict
        (fields ((str "i", Value.int i) ∷ (str "v", Value.text (str "xxxxxxxxxxxxxxxx")) ∷ []));
  runtime_evidence_digest = str "runtime-ok";
  authority_context = fields ((str "bench", Value.bool true) ∷ []);
  status = ActStatus.non_effective;
}

-- The work of an iteration; both clocks read NOW.
abbrev pub job : ℤ → Job
job i = record { candidate = make_candidate i; now = now; at = now }

-- `make_candidate(i)` for `n` numbers from `k`.
unfoldable pub jobs : ℕ → ℕ → List Job
jobs k zero = []
jobs k (suc n) = job (pos k) ∷ jobs (suc k) n

-- The dict of a warm-up round, and that of a timed round.
abbrev pub warm_entries : List (Str × Value)
warm_entries = (str "x", Value.int (pos 1)) ∷ (str "y", Value.text (str "abc")) ∷ []

abbrev pub timed_entries : List (Str × Value)
timed_entries =
    (str "candidate", Value.text (str "abc"))
    ∷ (str "epoch", Value.int (pos 1))
    ∷ (str "scope", Value.list (texts (str "SEND" ∷ [])))
    ∷ []

module _ ⦃p : Platform⦄ where
  abbrev pub authn : Authenticator
  authn = hmac_authenticator key

  -- `build`: the authority, the sink, and the objects that they write.
  abbrev pub authority : ProtectedAuthority
  authority = record {
    authority_id = str "bench-authority";
    policy = policy;
    authenticator = authn;
    evidence_authenticator = authn;
    capability_ttl_ns = pos 30_000_000_000;
  }

  abbrev pub sink : FinalitySink
  sink = record {
    context = record {
      sink_id = str "bench-sink";
      boundary_id = str "bench-boundary";
      policy_epoch = pos 1;
      supported_scopes = str "SEND" ∷ [];
      effect_class = str "network-egress";
    };
    authenticator = authn;
    max_clock_skew_ns = pos 1_000_000_000;
    receipt_authenticator = authn;
    presenter_verifier = none;
    require_presentation_proof = false;
    presentation_freshness_ns = pos 2_000_000_000;
  }

  abbrev pub vault : Vault
  vault = record { state = new_state (pos 1_000_000) (pos 1_000_000); evidence = empty_evidence }

  abbrev pub built : ℕ → World Claims GuardedEffector
  built marker = record {
    vault = vault;
    consumed = [];
    effector = new_effector (channel_of EffectorType.network) marker;
  }

  -- `cap = authority.authorize(c)` and `sink.effectuate(c, cap)` of the timed loop; both clocks read NOW.
  unfoldable pub iteration :
      ℕ → ℤ → World Claims GuardedEffector → Result SinkReceipt × World Claims GuardedEffector
  unfolding make_candidate
  iteration marker i =
      session authority sink (make_candidate i) memory_store (bound_handle marker) bearer now now

  -- A round of the warm-up, and a round of the first timed loop: `sink.verify(c0, cap0)` and a digest.
  abbrev pub verify_again :
      CandidateAct → Capability → Exec (World Claims GuardedEffector) (Unit {0})
  verify_again c token = do
    verified ← gets (λ w. verify sink c token now none w.vault)
    lift verified
    pure tt

  abbrev pub digest_again : List (Str × Value) → Exec (World Claims GuardedEffector) (Unit {0})
  digest_again es = do lift (sha256_hex (Value.dict (fields es))); pure tt

  unfoldable pub warm_round :
      CandidateAct → Capability → Exec (World Claims GuardedEffector) (Unit {0})
  warm_round c token = do verify_again c token; digest_again warm_entries

  unfoldable pub timed_round :
      CandidateAct → Capability → Exec (World Claims GuardedEffector) (Unit {0})
  timed_round c token = do digest_again timed_entries; verify_again c token

  -- `for _ in range(n)`
  unfoldable pub repeat :
      ℕ
      → Exec (World Claims GuardedEffector) (Unit {0})
      → Exec (World Claims GuardedEffector) (Unit {0})
  repeat zero body = pure tt
  repeat (suc n) body = do body; repeat n body

  -- `run`, up to its report: the receipts of the last loop.
  unfoldable pub run :
      ℕ
      → ℕ
      → World Claims GuardedEffector
      → Result (List SinkReceipt) × World Claims GuardedEffector
  run marker iterations = do
    let c0 = make_candidate (negsuc 0)
    cap0 ← on_vault (authorize authority c0 now (pos 1))
    repeat 1000 (warm_round c0 cap0)
    repeat iterations (timed_round c0 cap0)
    sessions authority sink memory_store (bound_handle marker) (jobs 0 iterations)
