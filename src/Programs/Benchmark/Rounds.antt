-- ===== src/Programs/Benchmark/Rounds.antt =====
-- scripts/benchmark.py: what an act of the benchmark, its authority and its sink need for delivery.
use execution_finality_for_a.Prelude.{
  ℕ, str, str_eq, strs_eq, int_eq, Str-discrete, ℕ_discrete, Strs-discrete, ℤ-discrete, ℤ, pos,
  ◌+ℤ◌, ◌-ℤ◌, min_ℤ, lookup, to_set, none, [], ◌∷◌, inl, refl, arith,
}
use execution_finality_for_a.Platform.{Platform}
use execution_finality_for_a.Canonical.{Value, has_surrogate}
use execution_finality_for_a.Canonical.Encodable.{Encodable}
use execution_finality_for_a.Models.{ActStatus-discrete}
use execution_finality_for_a.Crypto.{is_ascii}
use execution_finality_for_a.Crypto.Laws.{hmac-Verifies}
use execution_finality_for_a.Crypto.Documented.{
  IsDocumented, hmac-Signs, Clean-numbered, names_fit, fields-Encodable,
}
use execution_finality_for_a.Evidence.{get}
use execution_finality_for_a.Policy.{policy_tests, collect, validate}
use execution_finality_for_a.State.{new_state}
use execution_finality_for_a.Consumption.Memory
use execution_finality_for_a.Consumption.Memory.{Claims, memory_store, memory-IsSingleUse}
use execution_finality_for_a.Effectors.{channel_of, new_effector}
use execution_finality_for_a.Authority.{expiry}
use execution_finality_for_a.Authority.Encodable.{IsEncodable}
use execution_finality_for_a.Authority.Succeeds.{Grants, IsReady}
use execution_finality_for_a.Protocol.Delivery.{IsWay}
use execution_finality_for_a.Programs.Session.{bearer, Delivers, session-Delivers}
use execution_finality_for_a.Programs.Benchmark.{
  now, key, make_candidate, authority, sink, vault, built, iteration,
}

module _ ⦃p : Platform⦄ (doc : IsDocumented p) (i : ℤ) where
  pub candidate-IsEncodable : IsEncodable (make_candidate i)
  unfolding has_surrogate Encodable make_candidate names_fit is_ascii Str-discrete ℕ_discrete
  candidate-IsEncodable = record {
    act_id = Clean-numbered (str "bench-") i refl;
    act_class = refl;
    effect_class = refl;
    source = refl;
    destination = refl;
    purpose = refl;
    jurisdiction = refl;
    nonce = Clean-numbered (str "n-") i refl;
    sink_id = refl;
    boundary_id = refl;
    scope = (refl, tt);
    payload =
        fields-Encodable doc
          ((str "i", Value.int i) ∷ (str "v", Value.text (str "xxxxxxxxxxxxxxxx")) ∷ []) refl
          (tt, (refl, tt));
    runtime_evidence_digest = refl;
    authority_context = (refl, refl, tt, tt);
  }

  pub candidate-Grants : Grants authority (make_candidate i) now (pos 1) vault
  unfolding validate policy_tests collect ActStatus-discrete new_state get lookup to_set
      Str-discrete ℕ_discrete ℤ-discrete Strs-discrete make_candidate ◌+ℤ◌ ◌-ℤ◌
  candidate-Grants = record {
    allowed = refl;
    positive = omega arith;
    fresh = refl;
    has_quota = omega arith;
    has_budget = omega arith;
    open_store = refl;
    new_id = λ h d cd t i eh ed ec et ei. refl;
  }

  pub authority-IsReady : IsReady authority
  unfolding has_surrogate
  authority-IsReady = record {
    authority_id = refl;
    key_id = refl;
    signs = hmac-Signs doc key;
    verifies = hmac-Verifies key doc.mac;
    store = refl;
  }

  pub sink-IsWay : IsWay sink authority (make_candidate i)
  unfolding has_surrogate make_candidate
  sink-IsWay = record {
    shares = record { store = refl; sink = refl; verifies = hmac-Verifies key doc.mac };
    place = record {
      effect_class = refl;
      sink_id = refl;
      boundary_id = refl;
      policy_epoch = refl;
      scope = (inl refl, tt);
    };
    signs = hmac-Signs doc key;
    key_id = refl;
  }

  -- Over a platform that does what the standard library documents, the iteration of any number on a
  -- system that was just built ends with a receipt and with one effect of that number's payload.
  pub iteration-Delivers :
      (marker : ℕ)
      → Delivers (make_candidate i) (built marker).effector (iteration marker i (built marker))
  unfolding iteration new_effector channel_of has_surrogate Memory.is_claimed expiry lookup
      make_candidate ◌-ℤ◌ ◌+ℤ◌ min_ℤ
  iteration-Delivers marker =
      session-Delivers doc authority sink (make_candidate i) now now vault memory_store []
        (built marker).effector bearer (λ t. none) memory-IsSingleUse authority-IsReady
        candidate-IsEncodable candidate-Grants sink-IsWay (λ t h. (refl, tt)) (λ t h. refl) refl
        refl (omega arith) (omega arith)
