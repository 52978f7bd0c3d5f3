-- ===== src/Programs/NonBearer.antt =====
-- examples/strict_non_bearer.py: a sink that asks for a proof of possession, and keys of their own for
-- the authority, the presenter and the receipts.
pub mod Delivery
use execution_finality_for_a.Prelude.{
  ℕ, str, str_eq, strs_eq, int_eq, Str-discrete, ℕ_discrete, Strs-discrete, ℤ-discrete, ℤ, pos,
  ◌+ℤ◌, ◌-ℤ◌, ◌≤ℤ◌, abs, lookup, to_set, true, some, [], ◌∷◌, inl, ◌≡◌, refl, arith,
}
use execution_finality_for_a.Errors.{Result, ok, ◌>>=◌}
use execution_finality_for_a.Platform.{Platform}
use execution_finality_for_a.Canonical.{Value, fields, has_surrogate}
use execution_finality_for_a.Canonical.Encodable.{Encodable}
use execution_finality_for_a.Models.{
  Capability, candidate_digest, CandidateAct, ActStatus, ActStatus-discrete, SinkReceipt,
}
use execution_finality_for_a.Crypto.{Authenticator, HmacAuthenticator, hmac_authenticator}
use execution_finality_for_a.Crypto.Laws.{hmac-Verifies}
use execution_finality_for_a.Crypto.Documented.{IsDocumented, hmac-Signs}
use execution_finality_for_a.Evidence.{empty_evidence, get}
use execution_finality_for_a.Policy.{Policy, policy_tests, collect, validate}
use execution_finality_for_a.State.{new_state}
use execution_finality_for_a.Consumption.Memory
use execution_finality_for_a.Consumption.Memory.{Claims, memory_store, memory-IsSingleUse}
use execution_finality_for_a.Effectors.{
  GuardedEffector, EffectorType, channel_of, new_effector, bound_handle,
}
use execution_finality_for_a.Authority.{ProtectedAuthority, Vault, expiry}
use execution_finality_for_a.Authority.Encodable.{IsEncodable, candidate_digest_returns}
use execution_finality_for_a.Authority.Succeeds.{Grants, IsReady}
use execution_finality_for_a.Sink.{FinalitySink}
use execution_finality_for_a.Sink.Effectuate.{World}
use execution_finality_for_a.Protocol.Delivery.{IsWay}
use execution_finality_for_a.Programs.Times.{
  not_early, not_stale, after_skew, unexpired, issued_fresh, near,
}
use execution_finality_for_a.Pop.{PresentationProof, Registry, prove}
use execution_finality_for_a.Pop.Laws.{registry-prove, prove_returns}
use execution_finality_for_a.Canonical.Clean.{Clean}
use execution_finality_for_a.Sink.{context_get}
use execution_finality_for_a.Sink.Accepts.{Proves}
use execution_finality_for_a.Protocol.Delivery.{token-Clean}
use execution_finality_for_a.Programs.Session.{Proving, made, session, Delivers, session-Delivers}

abbrev pub authority_key : HmacAuthenticator
authority_key = record { key = str "authority-demo"; key_id = str "authority-A" }

abbrev pub presenter_key : HmacAuthenticator
presenter_key = record { key = str "presenter-demo"; key_id = str "presenter-A" }

abbrev pub sink_key : HmacAuthenticator
sink_key = record { key = str "sink-receipt-demo"; key_id = str "sink-A-receipt" }

abbrev pub policy : Policy
policy = record {
  policy_epoch = pos 1;
  allowed_purposes = str "demo" ∷ [];
  allowed_jurisdictions = str "EU" ∷ [];
  allowed_sinks = str "sink-A" ∷ [];
  allowed_boundaries = str "boundary-A" ∷ [];
  allowed_effect_classes = str "network-egress" ∷ [];
  allowed_scopes = str "SEND" ∷ [];
  revoked_sources = [];
  required_runtime_evidence_digest = some (str "runtime-ok");
  max_future_skew_ns = pos 1_000_000_000;
}

abbrev pub candidate : ℤ → CandidateAct
candidate now = record {
  act_id = str "a1";
  act_class = str "api-call";
  effect_class = str "network-egress";
  source = str "agent-A";
  destination = str "https://example.invalid";
  purpose = str "demo";
  jurisdiction = str "EU";
  policy_epoch = pos 1;
  nonce = str "n1";
  issued_at_ns = now;
  freshness_ns = pos 5_000_000_000;
  sink_id = str "sink-A";
  boundary_id = str "boundary-A";
  scope = str "SEND" ∷ [];
  payload = Value.dict (fields ((str "x", Value.int (pos 1)) ∷ []));
  runtime_evidence_digest = str "runtime-ok";
  authority_context = fields ((str "presenter_key_id", Value.text (str "presenter-A")) ∷ []);
  status = ActStatus.non_effective;
}

-- `NetworkEffector()`, with the identity of its marker.
abbrev pub effector : ℕ → GuardedEffector
effector marker = new_effector (channel_of EffectorType.network) marker

module _ ⦃p : Platform⦄ where
  abbrev pub authn : Authenticator
  authn = hmac_authenticator authority_key

  abbrev pub presenter : Authenticator
  presenter = hmac_authenticator presenter_key

  abbrev pub registry : Registry
  registry = (str "presenter-A", presenter) ∷ []

  abbrev pub authority : ProtectedAuthority
  authority = record {
    authority_id = str "authority-A";
    policy = policy;
    authenticator = authn;
    evidence_authenticator = authn;
    capability_ttl_ns = pos 5_000_000_000;
  }

  abbrev pub sink : FinalitySink
  sink = record {
    context = record {
      sink_id = str "sink-A";
      boundary_id = str "boundary-A";
      policy_epoch = pos 1;
      supported_scopes = str "SEND" ∷ [];
      effect_class = str "network-egress";
    };
    authenticator = authn;
    max_clock_skew_ns = pos 1_000_000_000;
    receipt_authenticator = hmac_authenticator sink_key;
    presenter_verifier = some registry;
    require_presentation_proof = true;
    presentation_freshness_ns = pos 2_000_000_000;
  }

  abbrev pub vault : Vault
  vault = record { state = new_state (pos 1000) (pos 1000); evidence = empty_evidence }

  -- `Presenter(presenter_key).prove(…)` for the act at this time.
  unfoldable pub prove_possession : CandidateAct → ℤ → Proving
  prove_possession c proved token = do
    digest ← candidate_digest c
    proof ← prove presenter token.capability_id digest c.sink_id c.boundary_id c.nonce proved
    ok (some proof)

  -- The program: it reads the clock for the act, in `authorize`, for the proof and in `effectuate`.
  unfoldable pub strict_non_bearer :
      ℕ → ℤ → ℤ → ℤ → ℤ → Result SinkReceipt × World Claims GuardedEffector
  strict_non_bearer marker now issued proved presented =
      session authority sink (candidate now) memory_store (bound_handle marker)
        (prove_possession (candidate now) proved) issued presented
        (record { vault = vault; consumed = []; effector = effector marker })
