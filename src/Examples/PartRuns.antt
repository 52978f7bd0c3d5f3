-- ===== src/Examples/PartRuns.antt =====
-- Runs of the single parts, and the inputs that their witnesses share.
use execution_finality_for_a.Prelude.{
  Str, str, str_eq, pos, ◌-ℤ◌, ◌≤ℤ◌, [], ◌∷◌, none, some, true, false, lookup, ◌≡◌, ◌≢◌, refl,
  arith, ap,
}
use execution_finality_for_a.Errors.{ok, is_ok}
use execution_finality_for_a.Canonical.{Value, fields}
use execution_finality_for_a.Models.{StateTransition}
use execution_finality_for_a.State.{transition_for_authorization, verify_transition}
use execution_finality_for_a.Pop.{PresentationProof, prove}
use execution_finality_for_a.Crypto.{hmac_sign, hmac_verify}
use execution_finality_for_a.Examples.Evaluation.{evaluation}
use execution_finality_for_a.Errors.{Error, err}
use execution_finality_for_a.Canonical.{portable_canonical_bytes}
use execution_finality_for_a.Crypto.Ed25519.{Ed25519Authenticator, new_ed25519, ed25519_sign}
use execution_finality_for_a.Surface.{
  EffectSurface, assert_complete, audit, audit_from, exposure, severe, is_blank, is_whitespace,
  is_seen,
}
use execution_finality_for_a.Prelude.{Bool, true, Str-discrete, ℕ_discrete}
use execution_finality_for_a.Examples.Setup.{
  toy_keys, toy_platform, sink, noon, value_or, authn, secret,
}
use execution_finality_for_a.Examples.Runs.{act_0, act_1, token, state, transition}

abbrev blank_proof : PresentationProof
blank_proof = record {
  capability_id = [];
  candidate_digest = [];
  sink_id = [];
  boundary_id = [];
  nonce = [];
  presented_at_ns = pos 0;
  presenter_key_id = [];
  signature = [];
}

abbrev pub proof : PresentationProof
proof = value_or blank_proof (
    prove authn token.capability_id token.candidate_digest (str "sink-A") (str "boundary-A")
      (str "nonce-0") noon)

pub proof_made :
    prove authn token.capability_id token.candidate_digest
      (str "sink-A")
      (str "boundary-A")
      (str "nonce-0")
      noon
    ≡ ok proof
unfolding evaluation
proof_made = refl

pub authn_registered : lookup authn.key_id ((authn.key_id, authn) ∷ []) ≡ some authn
unfolding evaluation
authn_registered = refl

abbrev pub signature : Str
signature = value_or [] (hmac_sign secret (Value.text (str "text")))

pub text_signed : hmac_sign secret (Value.text (str "text")) ≡ ok signature
unfolding evaluation
text_signed = refl

pub signature_verified :
    hmac_verify secret (Value.text (str "text")) signature secret.key_id ≡ ok true
unfolding evaluation
signature_verified = refl

pub token_early : noon -ℤ sink.max_clock_skew_ns ≤ℤ noon
unfolding evaluation
token_early = omega arith

pub token_late : noon ≤ℤ token.expires_at_ns
unfolding evaluation
token_late = omega arith

pub transition_valid :
    verify_transition transition.transition_id act_0
      (transition_for_authorization act_0 (pos 1) state).1
    ≡ true
unfolding evaluation
transition_valid = refl

dear_refused :
    is_ok
      (transition_for_authorization act_1
        (pos 2000)
        (transition_for_authorization act_0 (pos 1) state).1).0
    ≡ false
unfolding evaluation
dear_refused = refl

pub too_dear :
    (t : StateTransition)
    → (transition_for_authorization act_1
        (pos 2000)
        (transition_for_authorization act_0 (pos 1) state).1).0
      ≡ ok t
    → t.transition_id ≢ transition.transition_id
too_dear t h = cc (ap is_ok h, dear_refused)

abbrev pub order : Value
order = Value.dict (fields ((str "b", Value.int (pos 12)) ∷ (str "a", Value.text (str "x")) ∷ []))

pub order_portable : portable_canonical_bytes order ≡ ok (str "{\"a\":\"x\",\"b\":12}")
unfolding evaluation
order_portable = refl

abbrev pub ed25519 : Ed25519Authenticator toy_keys
ed25519 = new_ed25519 toy_keys 5 (str "ed25519-v1") none none

abbrev pub ed25519_signature : Str
ed25519_signature = value_or [] (ed25519_sign toy_keys ed25519 order)

pub order_signed : ed25519_sign toy_keys ed25519 order ≡ ok ed25519_signature
unfolding evaluation new_ed25519 ed25519_sign
order_signed = refl

abbrev pub surface : Bool → EffectSurface
surface mediated = record {
  name = str "egress";
  channel = str "network-egress";
  externally_effective = true;
  sink_mediated = mediated;
  enforcement_boundary = str "gateway";
  privileged = true;
}

bypass_refused : assert_complete (surface true ∷ surface false ∷ []) ≡ err Error.runtime_error
unfolding assert_complete audit audit_from exposure severe is_blank is_whitespace is_seen
    Str-discrete ℕ_discrete
bypass_refused = refl
