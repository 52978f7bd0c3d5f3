-- ===== src/Programs/Cases/Portable.antt =====
-- The bundle that `build_case` writes is all that a sink with the shared key needs.
use execution_finality_for_a.Prelude.{
  Str, str, str_eq, strs_eq, int_eq, Str-discrete, ℕ_discrete, Strs-discrete, ℤ-discrete, pos, ◌≤ℤ◌,
  ◌-ℤ◌, ◌+ℤ◌, min_ℤ, int_laws, lookup, to_set, true, false, none, some, [], inl, inr, Option-cases,
  ◌≡◌, refl, arith, ap, sym, ◌∙◌,
}
use execution_finality_for_a.Errors.{ok}
use execution_finality_for_a.Platform.{Platform, Bytes, AllBytes}
use execution_finality_for_a.Canonical.{Entries, has_surrogate}
use execution_finality_for_a.Canonical.Clean.{Clean}
use execution_finality_for_a.Canonical.Encodable.{Encodable, EntriesEncodable}
use execution_finality_for_a.Models.{
  SinkContext, CandidateAct, StateTransition, Hcad, ValidationEvidence, Capability,
  ActStatus-discrete, build_hcad,
}
use execution_finality_for_a.Crypto.{hmac_authenticator}
use execution_finality_for_a.Crypto.Ed25519.{from_hex, from_hex-hex}
use execution_finality_for_a.Crypto.Laws.{hmac-Verifies}
use execution_finality_for_a.Crypto.Documented.{IsDocumented, hmac-Signs}
use execution_finality_for_a.Evidence.{get}
use execution_finality_for_a.Policy.{policy_tests, collect, validate}
use execution_finality_for_a.State.{ProtectedState, new_state, verify_transition, get_transition}
use execution_finality_for_a.Authority.{Vault, authorize, expiry, new_capability}
use execution_finality_for_a.Authority.Outcome.{authorize-Issued}
use execution_finality_for_a.Authority.Encodable.{IsEncodable}
use execution_finality_for_a.Authority.Succeeds.{Grants, IsReady, authorize_returns}
use execution_finality_for_a.Sink.{FinalitySink}
use execution_finality_for_a.Sink.Accepts.{Accepts, verify_sound}
use execution_finality_for_a.Protocol.Crossing.{SharesKey, IsLocalTo, authorize-verify}
use execution_finality_for_a.Protocol.Delivery.{token-Clean}
use execution_finality_for_a.Programs.Cases.{
  Bundle, now, key, context, policy, vault, candidate, authority, new_bundle, build_case,
}

-- A sink with the key and the context of the cases.
record IsPortable ⦃p : Platform⦄ (s : FinalitySink) : Type 0 where
  pub context : s.context ≡ execution_finality_for_a.Programs.Cases.context
  pub key : s.authenticator ≡ hmac_authenticator execution_finality_for_a.Programs.Cases.key
  pub bearer : s.require_presentation_proof ≡ false
  pub skew : pos 0 ≤ℤ s.max_clock_skew_ns

-- A sink that is set up from a bundle: with the context of the bundle and this key, under the key id
-- of its capability, and asking for no proof of possession.
abbrev pub bundle_sink : ⦃p : Platform⦄ → FinalitySink → Bundle → Bytes → FinalitySink
bundle_sink s k bs = record s {
  context = k.sink_context;
  authenticator = hmac_authenticator (record { key = bs; key_id = k.capability.key_id });
  require_presentation_proof = false;
}

key-AllBytes : AllBytes key.key
key-AllBytes = ground arith

transition_found :
    (i : Str) (c : CandidateAct) (s : ProtectedState)
    → verify_transition i c s ≡ true
    → (t : StateTransition) × (get_transition i s ≡ some t)
unfolding verify_transition get_transition
transition_found i c s h = elim (Option-cases (lookup i s.transitions)) [
  | inl e ↦ ground arith
  | inr (t, e) ↦ (t, e)
]

module _ ⦃p : Platform⦄ (doc : IsDocumented p) (act_id nonce purpose destination : Str)
    (payload authority_context : Entries) (hi : Clean act_id) (hn : Clean nonce)
    (hp : Clean purpose) (hd : Clean destination) (hl : EntriesEncodable [] payload)
    (hc : EntriesEncodable [] authority_context) where
  abbrev c : CandidateAct
  c = candidate act_id nonce purpose destination payload authority_context

  candidate-IsEncodable : IsEncodable c
  unfolding has_surrogate Encodable
  candidate-IsEncodable = record {
    act_id = hi;
    act_class = refl;
    effect_class = refl;
    source = refl;
    destination = hd;
    purpose = hp;
    jurisdiction = refl;
    nonce = hn;
    sink_id = refl;
    boundary_id = refl;
    scope = (refl, tt);
    payload = hl;
    runtime_evidence_digest = refl;
    authority_context = hc;
  }

  candidate-Grants : Grants (authority purpose) c now (pos 1) vault
  unfolding validate policy_tests collect ActStatus-discrete new_state get lookup to_set
      Str-discrete ℕ_discrete ℤ-discrete Strs-discrete ◌-ℤ◌ ◌+ℤ◌
  candidate-Grants = record {
    allowed = ground arith;
    positive = omega arith;
    fresh = refl;
    has_quota = omega arith;
    has_budget = omega arith;
    open_store = refl;
    new_id = λ h d cd t i eh ed ec et ei. refl;
  }

  authority-IsReady : IsReady (authority purpose)
  unfolding has_surrogate
  authority-IsReady = record {
    authority_id = refl;
    key_id = refl;
    signs = hmac-Signs doc key;
    verifies = hmac-Verifies key doc.mac;
    store = refl;
  }

  bundled :
      (s : FinalitySink)
      → IsPortable s
      → (h : Hcad) × (t : StateTransition) × (e : ValidationEvidence) × (token : Capability)
        × (build_case act_id nonce purpose destination payload authority_context
            ≡ ok (new_bundle c h t e token))
        × (token.key_id ≡ key.key_id)
        × Accepts s c token now none (authorize (authority purpose) c now (pos 1) vault).1 h e
        × (get_transition token.transition_id
              (authorize (authority purpose) c now (pos 1) vault).1.state
            ≡ some t)
  unfolding build_case expiry min_ℤ ◌+ℤ◌ new_capability
  bundled s portable =
      let granted = candidate-Grants in
      let ready = authority-IsReady in
      let (token, issued) =
        authorize_returns doc (authority purpose) c now (pos 1) vault ready candidate-IsEncodable
          granted in
      let (_, _, _, _, expires) =
        token-Clean doc (authority purpose) c now (pos 1) vault ready candidate-IsEncodable granted
          token issued in
      let shares : SharesKey (authority purpose) s = record {
        store = refl;
        sink = portable.key;
        verifies = hmac-Verifies key doc.mac;
      } in
      let place : IsLocalTo s c = record {
        effect_class = rw portable.context refl;
        sink_id = rw portable.context refl;
        boundary_id = rw portable.context refl;
        policy_epoch = rw portable.context refl;
        scope = rw portable.context (inl refl, tt);
      } in
      let early : now -ℤ s.max_clock_skew_ns ≤ℤ now = omega (int_laws, portable.skew) in
      let late : now ≤ℤ token.expires_at_ns = rw expires (omega arith) in
      let after : Vault = (authorize (authority purpose) c now (pos 1) vault).1 in
      let verified =
        authorize-verify (authority purpose) c now (pos 1) vault s token now none shares place
          issued early late (rw portable.bearer tt) in
      let (h, e, acc, _) = verify_sound s c token now none after token.descriptor_digest verified in
      let (t, et) = transition_found token.transition_id c after.state acc.transition in
      let built : build_hcad c (some (str "sink-portable")) (some (str "boundary-portable"))
          ≡ ok h =
        sym (
          ap (λ (x : SinkContext). build_hcad c (some x.sink_id) (some x.boundary_id))
            portable.context)
        ∙ acc.built in
      let (_, _, _, _, _, iss) =
        authorize-Issued (authority purpose) c now (pos 1) vault token issued in
      (
        h,
        t,
        e,
        token,
        ground (arith, issued, built, acc.evidence, et),
        ap (λ (x : Capability). x.key_id) iss.capable.shape,
        acc,
        et,
      )

  -- Over a platform that does what the standard library documents: `build_case` returns a bundle for
  -- any texts without surrogates and any encodable payload and context. The bundle is for the act of
  -- the arguments, and its `authority_key_hex` is the hexadecimal of a key. A sink that is set up with
  -- this key and with the bundle's own context, with a clock skew that is not negative and without
  -- proofs of possession, finds in the bundle all that it accepts at the time of the case: the act, its
  -- descriptor, the capability, and the evidence and transition that the capability names.
  pub build_case-Accepts :
      (s : FinalitySink)
      → pos 0 ≤ℤ s.max_clock_skew_ns
      → (k : Bundle) × (bs : Bytes) × (build_case act_id nonce purpose destination payload
            authority_context
          ≡ ok k)
        × (from_hex none k.authority_key_hex ≡ some bs)
        × (k.candidate ≡ c)
        × Accepts
            (bundle_sink s k bs)
            k.candidate
            k.capability
            now
            none
            (authorize (authority purpose) c now (pos 1) vault).1
            k.hcad
            k.validation_evidence
        × (get_transition k.capability.transition_id
              (authorize (authority purpose) c now (pos 1) vault).1.state
            ≡ some k.state_transition)
  build_case-Accepts s skew =
      let set_up : FinalitySink = record s {
        context = context;
        authenticator = hmac_authenticator key;
        require_presentation_proof = false;
      } in
      let portable : IsPortable set_up = record {
        context = refl;
        key = refl;
        bearer = refl;
        skew = skew;
      } in
      let (h, t, e, token, built, own, acc, et) = bundled set_up portable in
      (
        new_bundle c h t e token,
        key.key,
        built,
        from_hex-hex key.key key-AllBytes,
        refl,
        rw own acc,
        et,
      )
