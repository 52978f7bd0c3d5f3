-- ===== src/Examples/Setup.antt =====
-- A stand-in for the platform, and the act, policy, authority and sink of tests/conftest.py.
use execution_finality_for_a.Prelude.{
  ℕ, ◌+◌, ◌*◌, ◌%◌, Str, str, ℤ, pos, false, [], ◌∷◌, none, some, refl, arith,
}
use execution_finality_for_a.Errors.{Result, ok, err}
use execution_finality_for_a.Platform.{Platform, Bytes, Ed25519Library}
use execution_finality_for_a.Crypto.Ed25519.{IsSound}
use execution_finality_for_a.Prelude.{eqb}
use execution_finality_for_a.Canonical.{Value, fields, digits}
use execution_finality_for_a.Models.{CandidateAct, ActStatus, Capability}
use execution_finality_for_a.Crypto.{
  Authenticator, HmacAuthenticator, hmac_authenticator, default_hmac_key_id, is_ascii,
}
use execution_finality_for_a.Crypto.Laws.{HexdigestIsAscii, Verifies, hmac-Verifies}
use execution_finality_for_a.Crypto.Documented.{is_ascii-digits}
use execution_finality_for_a.Evidence.{empty_evidence}
use execution_finality_for_a.Policy.{Policy}
use execution_finality_for_a.State.{new_state}
use execution_finality_for_a.Authority.{ProtectedAuthority, Vault}
use execution_finality_for_a.Sink.{FinalitySink}

-- A checksum in decimal digits stands in for both digests, the identity for NFC.
unfoldable pub checksum : ℕ → Bytes → ℕ
checksum h [] = h
checksum h (b ∷ bs) = checksum ((h * 31 + b) % 1000003) bs

abbrev pub toy : Platform
toy = record {
  nfc = λ s. s;
  sha256_hexdigest = λ bs. digits 8 (checksum 7 bs) [];
  hmac_sha256_hexdigest = λ k bs. digits 8 (checksum (checksum 11 k) bs) [];
}

instance abbrev pub toy_platform : Platform
toy_platform = toy

pub toy-ascii : HexdigestIsAscii toy
unfolding is_ascii
toy-ascii k m = is_ascii-digits 8 (checksum (checksum 11 k) m) [] refl

abbrev pub secret : HmacAuthenticator
secret = record { key = str "finality-reference-test-key"; key_id = default_hmac_key_id }

abbrev pub authn : Authenticator
authn = hmac_authenticator secret

pub authn-Verifies : Verifies authn
authn-Verifies = hmac-Verifies secret toy-ascii

abbrev pub noon : ℤ
noon = pos 1_800_000_000_000_000_000

-- `make_candidate()` of tests/conftest.py, under a nonce of one's own
abbrev pub act : Str → CandidateAct
act nonce = record {
  act_id = str "act-0";
  act_class = str "api-call";
  effect_class = str "network-egress";
  source = str "agent-A";
  destination = str "https://example.invalid/payments";
  purpose = str "approved-purpose";
  jurisdiction = str "EU";
  policy_epoch = pos 7;
  nonce = nonce;
  issued_at_ns = pos 1_799_999_999_999_990_000;
  freshness_ns = pos 10_000_000_000;
  sink_id = str "sink-A";
  boundary_id = str "boundary-A";
  scope = str "POST:/payments" ∷ [];
  payload = Value.dict (
      fields (
        (str "amount_minor", Value.int (pos 1000))
        ∷ (str "currency", Value.text (str "EUR"))
        ∷ []));
  runtime_evidence_digest = str "runtime-ok";
  authority_context = fields ((str "presenter_key_id", Value.text default_hmac_key_id) ∷ []);
  status = ActStatus.non_effective;
}

abbrev pub policy : Policy
policy = record {
  policy_epoch = pos 7;
  allowed_purposes = str "approved-purpose" ∷ str "diagnostic" ∷ [];
  allowed_jurisdictions = str "EU" ∷ str "US" ∷ [];
  allowed_sinks = str "sink-A" ∷ str "sink-B" ∷ [];
  allowed_boundaries = str "boundary-A" ∷ [];
  allowed_effect_classes = str "network-egress" ∷ [];
  allowed_scopes = str "POST:/payments" ∷ str "DISPLAY" ∷ [];
  revoked_sources = [];
  required_runtime_evidence_digest = some (str "runtime-ok");
  max_future_skew_ns = pos 1_000_000_000;
}

abbrev pub authority : ProtectedAuthority
authority = record {
  authority_id = str "authority-A";
  policy = policy;
  authenticator = authn;
  evidence_authenticator = authn;
  capability_ttl_ns = pos 5_000_000_000;
}

abbrev pub vault : Vault
vault = record { state = new_state (pos 1000) (pos 1000); evidence = empty_evidence }

abbrev pub sink : FinalitySink
sink = record {
  context = record {
    sink_id = str "sink-A";
    boundary_id = str "boundary-A";
    policy_epoch = pos 7;
    supported_scopes = str "POST:/payments" ∷ [];
    effect_class = str "network-egress";
  };
  authenticator = authn;
  max_clock_skew_ns = pos 1_000_000_000;
  receipt_authenticator = authn;
  presenter_verifier = none;
  require_presentation_proof = false;
  presentation_freshness_ns = pos 2_000_000_000;
}

-- The value of a call that returned one.
abbrev pub value_or : {A : Type 0} → A → Result A → A
value_or a (ok x) = x
value_or a (err _) = a

abbrev pub blank_token : Capability
blank_token = record {
  capability_id = [];
  authority_id = [];
  candidate_digest = [];
  descriptor_digest = [];
  sink_id = [];
  boundary_id = [];
  nonce = [];
  scope = [];
  policy_epoch = pos 0;
  evidence_id = [];
  transition_id = [];
  issued_at_ns = pos 0;
  expires_at_ns = pos 0;
  key_id = [];
  signature = [];
}

-- A stand-in for the Ed25519 keys: a key is a number, and a signature one byte of a checksum.
abbrev pub toy_keys : Ed25519Library
toy_keys = record {
  PrivateKey = ℕ;
  PublicKey = ℕ;
  public_key = λ k. k;
  sign_raw = λ k m. (checksum k m % 256) ∷ [];
  verify_raw = λ k s m. elim s [ [] ↦ false | b ∷ _ ↦ eqb b (checksum k m % 256) ];
}

pub toy_keys-IsSound : IsSound toy_keys
toy_keys-IsSound = record { bytes = λ k m. (omega arith, tt); signs = λ k m. ground arith }
