-- ===== src/Programs/Cases.antt =====
-- vectors/generate_finality_case.py: `build_case`, up to the JSON file that it writes. The bundle holds
-- the records themselves; `asdict` and `json.dumps` are left out.
pub mod Portable
pub mod Script
use execution_finality_for_a.Prelude.{Str, str, ℤ, pos, List, [], ◌∷◌, Option, none, some}
use execution_finality_for_a.Errors.{Error, Result, ok, err, ◌>>=◌}
use execution_finality_for_a.Platform.{Platform, Bytes}
use execution_finality_for_a.Canonical.{Entries, Value, hex}
use execution_finality_for_a.Models.{
  CandidateAct, ActStatus, Hcad, Capability, StateTransition, ValidationEvidence, SinkContext,
  build_hcad,
}
use execution_finality_for_a.Crypto.{Authenticator, HmacAuthenticator, hmac_authenticator}
use execution_finality_for_a.Evidence.{empty_evidence, get}
use execution_finality_for_a.Policy.{Policy}
use execution_finality_for_a.State.{new_state, get_transition}
use execution_finality_for_a.Authority.{ProtectedAuthority, Vault, authorize}

-- NOW and KEY
abbrev pub now : ℤ
now = pos 1_700_000_000_000_000

abbrev pub key : HmacAuthenticator
key = record { key = str "portable-finality-authority-key"; key_id = str "portable-authority-v1" }

-- `bundle`
pub record Bundle : Type 0 where
  pub schema : Str
  pub authority_key_hex : Str
  pub sink_context : SinkContext
  pub candidate : CandidateAct
  pub hcad : Hcad
  pub state_transition : StateTransition
  pub validation_evidence : ValidationEvidence
  pub capability : Capability

abbrev pub context : SinkContext
context = record {
  sink_id = str "sink-portable";
  boundary_id = str "boundary-portable";
  policy_epoch = pos 7;
  supported_scopes = str "SETTLE" ∷ [];
  effect_class = str "payment-ledger";
}

abbrev pub policy : Str → Policy
policy purpose = record {
  policy_epoch = pos 7;
  allowed_purposes = purpose ∷ [];
  allowed_jurisdictions = str "EU" ∷ [];
  allowed_sinks = str "sink-portable" ∷ [];
  allowed_boundaries = str "boundary-portable" ∷ [];
  allowed_effect_classes = str "payment-ledger" ∷ [];
  allowed_scopes = str "SETTLE" ∷ [];
  revoked_sources = [];
  required_runtime_evidence_digest = some (str "runtime-portable");
  max_future_skew_ns = pos 1_000_000_000;
}

-- `ProtectedState(default_quota=10, default_budget=100)` and an empty `EvidenceStore`
abbrev pub vault : Vault
vault = record { state = new_state (pos 10) (pos 100); evidence = empty_evidence }

-- `assert ev is not None`, `assert t is not None`
abbrev pub asserted : {A : Type 0} → Option A → Result A
asserted none = err Error.assertion_error
asserted (some a) = ok a

-- The arguments of `build_case`, the file name left out.
module _ (act_id nonce purpose destination : Str) (payload authority_context : Entries) where
  abbrev pub candidate : CandidateAct
  candidate = record {
    act_id = act_id;
    act_class = str "payment";
    effect_class = str "payment-ledger";
    source = str "agent-portable";
    destination = destination;
    purpose = purpose;
    jurisdiction = str "EU";
    policy_epoch = pos 7;
    nonce = nonce;
    issued_at_ns = now;
    freshness_ns = pos 5_000_000_000;
    sink_id = str "sink-portable";
    boundary_id = str "boundary-portable";
    scope = str "SETTLE" ∷ [];
    payload = Value.dict payload;
    runtime_evidence_digest = str "runtime-portable";
    authority_context = authority_context;
    status = ActStatus.non_effective;
  }

module _ ⦃p : Platform⦄ where
  abbrev pub authority : Str → ProtectedAuthority
  authority purpose = record {
    authority_id = str "portable-authority";
    policy = policy purpose;
    authenticator = hmac_authenticator key;
    evidence_authenticator = hmac_authenticator key;
    capability_ttl_ns = pos 2_000_000_000;
  }

  abbrev pub new_bundle :
      CandidateAct → Hcad → StateTransition → ValidationEvidence → Capability → Bundle
  new_bundle c hcad t ev cap = record {
    schema = str "portable-execution-finality-case/v1";
    authority_key_hex = hex key.key;
    sink_context = context;
    candidate = c;
    hcad = hcad;
    state_transition = t;
    validation_evidence = ev;
    capability = cap;
  }

  unfoldable pub build_case : Str → Str → Str → Str → Entries → Entries → Result Bundle
  build_case act_id nonce purpose destination payload authority_context =
      let c = candidate act_id nonce purpose destination payload authority_context in
      let (issued, after) = authorize (authority purpose) c now (pos 1) vault in
      do
        cap ← issued
        hcad ← build_hcad c (some (str "sink-portable")) (some (str "boundary-portable"))
        ev ← asserted (get cap.evidence_id after.evidence)
        t ← asserted (get_transition cap.transition_id after.state)
        ok (new_bundle c hcad t ev cap)
