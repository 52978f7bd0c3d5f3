-- ===== src/Programs/Demo.antt =====
-- examples/demo.py: one act from the authority through the sink, without a proof of possession.
use execution_finality_for_a.Prelude.{
  ℕ, str, str_eq, strs_eq, int_eq, Str-discrete, ℕ_discrete, Strs-discrete, ℤ-discrete, ℤ, pos,
  ◌+ℤ◌, ◌≤ℤ◌, lookup, to_set, false, none, some, [], ◌∷◌, inl, refl, arith,
}
use execution_finality_for_a.Errors.{Result}
use execution_finality_for_a.Platform.{Platform}
use execution_finality_for_a.Canonical.{Value, fields, has_surrogate}
use execution_finality_for_a.Canonical.Encodable.{Encodable}
use execution_finality_for_a.Models.{CandidateAct, ActStatus, ActStatus-discrete, SinkReceipt}
use execution_finality_for_a.Crypto.{
  Authenticator, HmacAuthenticator, hmac_authenticator, default_hmac_key_id,
}
use execution_finality_for_a.Crypto.Laws.{hmac-Verifies}
use execution_finality_for_a.Crypto.Documented.{IsDocumented, hmac-Signs}
use execution_finality_for_a.Evidence.{empty_evidence, get}
use execution_finality_for_a.Policy.{Policy, policy_tests, collect, validate}
use execution_finality_for_a.State.{new_state}
use execution_finality_for_a.Consumption.Memory
use execution_finality_for_a.Consumption.Memory.{Claims, memory_store, memory-IsSingleUse}
use execution_finality_for_a.Effectors.{
  GuardedEffector, EffectorType, channel_of, new_effector, bound_handle,
}
use execution_finality_for_a.Authority.{ProtectedAuthority, Vault, expiry}
use execution_finality_for_a.Authority.Encodable.{IsEncodable}
use execution_finality_for_a.Authority.Succeeds.{Grants, IsReady}
use execution_finality_for_a.Sink.{FinalitySink}
use execution_finality_for_a.Sink.Effectuate.{World}
use execution_finality_for_a.Protocol.Delivery.{IsWay}
use execution_finality_for_a.Programs.Times.{
  not_early, not_stale, after_skew, unexpired, issued_fresh,
}
use execution_finality_for_a.Programs.Session.{bearer, session, Delivers, session-Delivers}

abbrev key : HmacAuthenticator
key = record { key = str "demo-only-key"; key_id = default_hmac_key_id }

abbrev policy : Policy
policy = record {
  policy_epoch = pos 1;
  allowed_purposes = str "demo" ∷ [];
  allowed_jurisdictions = str "EU" ∷ [];
  allowed_sinks = str "sink-1" ∷ [];
  allowed_boundaries = str "egress-1" ∷ [];
  allowed_effect_classes = str "network-egress" ∷ [];
  allowed_scopes = str "SEND" ∷ [];
  revoked_sources = [];
  required_runtime_evidence_digest = some (str "attested-runtime-demo");
  max_future_skew_ns = pos 1_000_000_000;
}

abbrev pub candidate : ℤ → CandidateAct
candidate now = record {
  act_id = str "demo-1";
  act_class = str "api-call";
  effect_class = str "network-egress";
  source = str "agent-1";
  destination = str "https://example.invalid/action";
  purpose = str "demo";
  jurisdiction = str "EU";
  policy_epoch = pos 1;
  nonce = str "nonce-demo-1";
  issued_at_ns = now;
  freshness_ns = pos 5_000_000_000;
  sink_id = str "sink-1";
  boundary_id = str "egress-1";
  scope = str "SEND" ∷ [];
  payload = Value.dict (fields ((str "command", Value.text (str "hello")) ∷ []));
  runtime_evidence_digest = str "attested-runtime-demo";
  authority_context = fields [];
  status = ActStatus.non_effective;
}

-- `NetworkEffector()`, with the identity of its marker.
abbrev pub effector : ℕ → GuardedEffector
effector marker = new_effector (channel_of EffectorType.network) marker

module _ ⦃p : Platform⦄ where
  abbrev authn : Authenticator
  authn = hmac_authenticator key

  abbrev authority : ProtectedAuthority
  authority = record {
    authority_id = str "authority-1";
    policy = policy;
    authenticator = authn;
    evidence_authenticator = authn;
    capability_ttl_ns = pos 5_000_000_000;
  }

  abbrev sink : FinalitySink
  sink = record {
    context = record {
      sink_id = str "sink-1";
      boundary_id = str "egress-1";
      policy_epoch = pos 1;
      supported_scopes = str "SEND" ∷ [];
      effect_class = str "network-egress";
    };
    authenticator = authn;
    max_clock_skew_ns = pos 1_000_000_000;
    receipt_authenticator = authn;
    presenter_verifier = none;
    require_presentation_proof = false;
    presentation_freshness_ns = pos 2_000_000_000;
  }

  abbrev vault : Vault
  vault = record { state = new_state (pos 1000) (pos 1000); evidence = empty_evidence }

  -- The program: it reads the clock for the act, in `authorize` and in `effectuate`.
  unfoldable pub demo : ℕ → ℤ → ℤ → ℤ → Result SinkReceipt × World Claims GuardedEffector
  demo marker now issued presented =
      session authority sink (candidate now) memory_store (bound_handle marker) bearer issued
        presented (record { vault = vault; consumed = []; effector = effector marker })

  module _ (doc : IsDocumented p) (now issued presented : ℤ) where
    candidate-IsEncodable : IsEncodable (candidate now)
    unfolding has_surrogate Encodable
    candidate-IsEncodable = record {
      act_id = refl;
      act_class = refl;
      effect_class = refl;
      source = refl;
      destination = refl;
      purpose = refl;
      jurisdiction = refl;
      nonce = refl;
      sink_id = refl;
      boundary_id = refl;
      scope = (refl, tt);
      payload = (refl, refl, refl, tt);
      runtime_evidence_digest = refl;
      authority_context = tt;
    }

    candidate-Grants :
        now ≤ℤ issued
        → issued ≤ℤ now +ℤ pos 5_000_000_000
        → Grants authority (candidate now) issued (pos 1) vault
    unfolding validate policy_tests collect ActStatus-discrete new_state get lookup to_set
        Str-discrete ℕ_discrete ℤ-discrete Strs-discrete
    candidate-Grants before fresh = record {
      allowed =
          rw (not_early now issued 1_000_000_000 before, not_stale now issued 5_000_000_000 fresh)
            refl;
      positive = omega arith;
      fresh = refl;
      has_quota = omega arith;
      has_budget = omega arith;
      open_store = refl;
      new_id = λ h d cd t i eh ed ec et ei. refl;
    }

    authority-IsReady : IsReady authority
    unfolding has_surrogate
    authority-IsReady = record {
      authority_id = refl;
      key_id = refl;
      signs = hmac-Signs doc key;
      verifies = hmac-Verifies key doc.mac;
      store = refl;
    }

    sink-IsWay : IsWay sink authority (candidate now)
    unfolding has_surrogate
    sink-IsWay = record {
      shares = record { store = refl; sink = refl; verifies = hmac-Verifies key doc.mac };
      place = record {
        effect_class = refl;
        sink_id = refl;
        boundary_id = refl;
        policy_epoch = refl;
        scope = (inl refl, tt);
      };
      signs = hmac-Signs doc key;
      key_id = refl;
    }

    -- Over a platform that does what the standard library documents: if the clock does not go back
    -- and the sink is asked within the act's five seconds, the program ends with a receipt and with
    -- one effect of the act's payload.
    pub demo-Delivers :
        (marker : ℕ)
        → now ≤ℤ issued
        → issued ≤ℤ presented
        → presented ≤ℤ now +ℤ pos 5_000_000_000
        → Delivers (candidate now) (effector marker) (demo marker now issued presented)
    unfolding demo new_effector channel_of has_surrogate Memory.is_claimed expiry lookup
    demo-Delivers marker first second last =
        let fresh = issued_fresh now issued presented 5_000_000_000 first last second in
        session-Delivers doc authority sink (candidate now) issued presented vault memory_store []
          (effector marker) bearer (λ t. none) memory-IsSingleUse authority-IsReady
          candidate-IsEncodable (candidate-Grants first fresh) sink-IsWay (λ t h. (refl, tt))
          (λ t h. refl) refl refl (after_skew issued presented 1_000_000_000 second)
          (unexpired now issued presented 5_000_000_000 first last 5_000_000_000 5_000_000_000
            (omega arith) (omega arith))
