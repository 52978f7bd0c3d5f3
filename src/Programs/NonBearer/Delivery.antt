-- ===== src/Programs/NonBearer/Delivery.antt =====
-- The program of examples/strict_non_bearer.py gets its receipt.
use execution_finality_for_a.Prelude.{
  ℕ, str, str_eq, strs_eq, int_eq, Str-discrete, ℕ_discrete, Strs-discrete, ℤ-discrete, ℤ, pos,
  ◌+ℤ◌, ◌-ℤ◌, ◌≤ℤ◌, abs, lookup, to_set, some, [], inl, ◌≡◌, refl, arith,
}
use execution_finality_for_a.Errors.{ok}
use execution_finality_for_a.Platform.{Platform}
use execution_finality_for_a.Canonical.{has_surrogate}
use execution_finality_for_a.Canonical.Encodable.{Encodable}
use execution_finality_for_a.Models.{Capability, ActStatus-discrete}
use execution_finality_for_a.Crypto.Laws.{hmac-Verifies}
use execution_finality_for_a.Crypto.Documented.{IsDocumented, hmac-Signs}
use execution_finality_for_a.Evidence.{get}
use execution_finality_for_a.Policy.{policy_tests, collect, validate}
use execution_finality_for_a.State.{new_state}
use execution_finality_for_a.Consumption.Memory
use execution_finality_for_a.Consumption.Memory.{Claims, memory_store, memory-IsSingleUse}
use execution_finality_for_a.Effectors.{channel_of, new_effector}
use execution_finality_for_a.Authority.{expiry}
use execution_finality_for_a.Authority.Encodable.{IsEncodable, candidate_digest_returns}
use execution_finality_for_a.Authority.Succeeds.{Grants, IsReady}
use execution_finality_for_a.Protocol.Delivery.{IsWay}
use execution_finality_for_a.Programs.Times.{
  not_early, not_stale, after_skew, unexpired, issued_fresh, near,
}
use execution_finality_for_a.Pop.{PresentationProof}
use execution_finality_for_a.Pop.Laws.{registry-prove, prove_returns}
use execution_finality_for_a.Canonical.Clean.{Clean}
use execution_finality_for_a.Sink.{context_get}
use execution_finality_for_a.Sink.Accepts.{Proves}
use execution_finality_for_a.Protocol.Delivery.{token-Clean}
use execution_finality_for_a.Programs.Session.{Proving, made, Delivers, session-Delivers}
use execution_finality_for_a.Programs.NonBearer.{
  authority_key, presenter_key, sink_key, candidate, effector, presenter, registry, authority, sink,
  vault, prove_possession, strict_non_bearer,
}

module _ ⦃p : Platform⦄ (doc : IsDocumented p) (now issued proved presented : ℤ) where
  candidate-IsEncodable : IsEncodable (candidate now)
  unfolding has_surrogate Encodable
  candidate-IsEncodable = record {
    act_id = refl;
    act_class = refl;
    effect_class = refl;
    source = refl;
    destination = refl;
    purpose = refl;
    jurisdiction = refl;
    nonce = refl;
    sink_id = refl;
    boundary_id = refl;
    scope = (refl, tt);
    payload = (refl, refl, tt, tt);
    runtime_evidence_digest = refl;
    authority_context = (refl, refl, refl, tt);
  }

  candidate-Grants :
      now ≤ℤ issued
      → issued ≤ℤ now +ℤ pos 5_000_000_000
      → Grants authority (candidate now) issued (pos 1) vault
  unfolding validate policy_tests collect ActStatus-discrete new_state get lookup to_set
      Str-discrete ℕ_discrete ℤ-discrete Strs-discrete
  candidate-Grants before fresh = record {
    allowed =
        rw (not_early now issued 1_000_000_000 before, not_stale now issued 5_000_000_000 fresh)
          refl;
    positive = omega arith;
    fresh = refl;
    has_quota = omega arith;
    has_budget = omega arith;
    open_store = refl;
    new_id = λ h d cd t i eh ed ec et ei. refl;
  }

  authority-IsReady : IsReady authority
  unfolding has_surrogate
  authority-IsReady = record {
    authority_id = refl;
    key_id = refl;
    signs = hmac-Signs doc authority_key;
    verifies = hmac-Verifies authority_key doc.mac;
    store = refl;
  }

  sink-IsWay : IsWay sink authority (candidate now)
  unfolding has_surrogate
  sink-IsWay = record {
    shares = record { store = refl; sink = refl; verifies = hmac-Verifies authority_key doc.mac };
    place = record {
      effect_class = refl;
      sink_id = refl;
      boundary_id = refl;
      policy_epoch = refl;
      scope = (inl refl, tt);
    };
    signs = hmac-Signs doc sink_key;
    key_id = refl;
  }

  -- The proof that the program makes for the capability that it got.
  possession :
      (token : Capability)
      → Clean token.capability_id
      → (q : PresentationProof) × (prove_possession (candidate now) proved token ≡ ok (some q))
        × (abs (presented -ℤ proved) ≤ℤ pos 2_000_000_000
            → Proves sink (candidate now) token presented q registry)
  unfolding prove_possession has_surrogate context_get lookup Str-discrete ℕ_discrete
  possession token h =
      let (cd, ec, hc) = candidate_digest_returns doc (candidate now) candidate-IsEncodable in
      let (q, eq) =
        prove_returns doc presenter (hmac-Signs doc presenter_key) refl token.capability_id cd
          (str "sink-A") (str "boundary-A") (str "n1") proved h hc refl refl refl in
      let (valid, ek, ed, es, eb, en, et, ep) =
        registry-prove presenter token.capability_id cd (str "sink-A") (str "boundary-A") (str "n1")
          proved q registry (hmac-Verifies presenter_key doc.mac) refl eq in
      (
        q,
        rw (ec, eq) refl,
        λ fresh. record {
          presenter = rw ep refl;
          capability = ek;
          candidate = rw ed ec;
          place = (es, eb);
          nonce = en;
          fresh = rw et fresh;
          valid = valid;
        },
      )

  -- Over a platform that does what the standard library documents: if the clock does not go back, the
  -- sink is asked within the act's five seconds and within two seconds of the proof, the program ends
  -- with a receipt and with one effect of the act's payload.
  pub strict_non_bearer-Delivers :
      (marker : ℕ)
      → now ≤ℤ issued
      → issued ≤ℤ proved
      → proved ≤ℤ presented
      → presented ≤ℤ now +ℤ pos 5_000_000_000
      → presented ≤ℤ proved +ℤ pos 2_000_000_000
      → Delivers
          (candidate now)
          (effector marker)
          (strict_non_bearer marker now issued proved presented)
  unfolding strict_non_bearer new_effector channel_of has_surrogate Memory.is_claimed expiry lookup
  strict_non_bearer-Delivers marker first second third last prompt =
      let fresh = issued_fresh now issued presented 5_000_000_000 first last (omega arith) in
      let proving : Proving = prove_possession (candidate now) proved in
      session-Delivers doc authority sink (candidate now) issued presented vault memory_store []
        (effector marker) proving (λ t. made (proving t)) memory-IsSingleUse authority-IsReady
        candidate-IsEncodable (candidate-Grants first fresh) sink-IsWay
        (λ t h.
          let (clean, _, _, _, _) =
            token-Clean doc authority (candidate now) issued (pos 1) vault authority-IsReady
              candidate-IsEncodable (candidate-Grants first fresh) t h in
          let (q, made_q, proves) = possession t clean in
          (rw made_q refl, rw made_q (proves (near proved presented 2_000_000_000 third prompt))))
        (λ t h. refl) refl refl (after_skew issued presented 1_000_000_000 (omega arith))
        (unexpired now issued presented 5_000_000_000 first last 5_000_000_000 5_000_000_000
          (omega arith) (omega arith))
