-- ===== src/Examples/PartWitnesses.antt =====
-- The theorems about the single parts, each at concrete input where its hypotheses hold.
use execution_finality_for_a.Prelude.{
  str, str_eq, strs_eq, int_eq, pos, [], ◌∷◌, none, true, false, lookup, Elem, Distinct, ◌≡◌, ◌↔◌,
  ◌⊎◌, leb_ℤ, if◌then◌else◌, List, refl, arith,
}
use execution_finality_for_a.Errors.{Error, Reason, Replay, ok, err}
use execution_finality_for_a.Canonical.{Value}
use execution_finality_for_a.Crypto.Laws.{NfcFixesAscii}
use execution_finality_for_a.Policy.{validate}
use execution_finality_for_a.Policy.Admissible.{Violates, validate-reasons}
use execution_finality_for_a.State.{transition_for_authorization, verify_transition}
use execution_finality_for_a.State.Laws.{entry, verify-transition, verify-transition_stays}
use execution_finality_for_a.State.Invariant.{
  Balanced, serve, Request, grants_of, cost_of, serve-Balanced,
}
use execution_finality_for_a.State.Nonces.{nonces_of, serve-Distinct, replay-serve}
use execution_finality_for_a.Consumption.Memory
use execution_finality_for_a.Consumption.Sqlite.{
  Represents, CleanTexts, InInt64, create_table, select, claim, claim-refines,
}
use execution_finality_for_a.Sink.Effectuate.{claim_of}
use execution_finality_for_a.Platform.{AllBytes}
use execution_finality_for_a.Canonical.{canonical_bytes}
use execution_finality_for_a.Canonical.Profiles.{canonical_bytes_portable}
use execution_finality_for_a.Models.{payload_digest}
use execution_finality_for_a.Protocol.BytesTag.{tagged, payload_digest-tagged}
use execution_finality_for_a.Crypto.Ed25519.{ed25519_verify, verifier, ed25519_sign-verify}
use execution_finality_for_a.Surface.{assert_complete}
use execution_finality_for_a.Surface.Coverage.{AllGuarded, assert_complete_iff}
use execution_finality_for_a.Examples.Setup.{
  toy_keys, toy_keys-IsSound, toy_platform, policy, sink, noon,
}
use execution_finality_for_a.Examples.PartRuns.{
  transition_valid, too_dear, order, order_portable, ed25519, ed25519_signature, order_signed,
  surface,
}
use execution_finality_for_a.Examples.Runs.{
  act_0, act_1, token, state, transition, transition_granted,
}

serve-Balanced_example :
    let reqs : List Request = (act_0, pos 3) ∷ (act_0, pos 3) ∷ (act_1, pos 2000) ∷ [] in
    Balanced
      (entry (str "agent-A") state)
      (entry (str "agent-A") (serve reqs state).1)
      (grants_of (str "agent-A") reqs state)
      (cost_of (str "agent-A") reqs state)
serve-Balanced_example =
    serve-Balanced (str "agent-A") ((act_0, pos 3) ∷ (act_0, pos 3) ∷ (act_1, pos 2000) ∷ []) state

serve-Distinct_example :
    Distinct (nonces_of (serve ((act_0, pos 3) ∷ (act_1, pos 3) ∷ (act_0, pos 1) ∷ []) state).0)
serve-Distinct_example =
    serve-Distinct ((act_0, pos 3) ∷ (act_1, pos 3) ∷ (act_0, pos 1) ∷ []) state

replay-serve_example :
    let after =
      (serve ((act_1, pos 1) ∷ []) (transition_for_authorization act_0 (pos 1) state).1).1 in
    transition_for_authorization act_0 (pos 2) after ≡ (
      err (
          if leb_ℤ (pos 2) (pos 0)
          then Error.value_error
          else Error.replay_detected Replay.nonce_reserved_or_consumed),
      after,
    )
replay-serve_example =
    replay-serve act_0 act_0 (pos 1) (pos 2) ((act_1, pos 1) ∷ []) state transition
      transition_granted refl

validate-reasons_example :
    Elem Reason.candidate_stale (validate policy act_0 noon).1
    ↔ Violates policy act_0 noon Reason.candidate_stale
validate-reasons_example = validate-reasons policy act_0 noon Reason.candidate_stale

empty_table : Represents (create_table none) []
unfolding create_table select lookup
empty_table = record { idle = refl; claims = λ k. refl }

claim-refines_example :
    let c = claim_of sink token noon in
    let after = claim (str "id") c (create_table none) in
    ((CleanTexts (str "id") c × InInt64 c.now_ns)
      × (after.0 ≡ (Memory.claim (str "id") c []).0)
      × Represents after.1 (Memory.claim (str "id") c []).1)
    ⊎ ((¬ (CleanTexts (str "id") c))
        × (after.0 ≡ err Error.unicode_encode_error)
        × Represents after.1 [])
    ⊎ ((¬ (InInt64 c.now_ns)) × (after.0 ≡ err Error.overflow_error) × Represents after.1 [])
claim-refines_example =
    claim-refines (str "id") (claim_of sink token noon) (create_table none) [] empty_table

verify-transition_stays_example :
    verify_transition transition.transition_id act_0
      (transition_for_authorization act_1
        (pos 2000)
        (transition_for_authorization act_0 (pos 1) state).1).1
    ≡ true
verify-transition_stays_example =
    verify-transition_stays act_1 (pos 2000) (transition_for_authorization act_0 (pos 1) state).1
      transition.transition_id act_0 transition_valid too_dear

verify-transition_example :
    verify_transition transition.transition_id act_0
      (transition_for_authorization act_0 (pos 1) state).1
    ≡ true
verify-transition_example = verify-transition act_0 (pos 1) state transition_granted

assert_complete_iff_example :
    (assert_complete (surface true ∷ surface false ∷ []) ≡ ok tt)
    ↔ AllGuarded (surface true ∷ surface false ∷ [])
assert_complete_iff_example = assert_complete_iff (surface true ∷ surface false ∷ [])

canonical_bytes_portable_example : canonical_bytes order ≡ ok (str "{\"a\":\"x\",\"b\":12}")
canonical_bytes_portable_example =
    canonical_bytes_portable order (str "{\"a\":\"x\",\"b\":12}") order_portable

toy-NfcFixesAscii : NfcFixesAscii toy_platform
toy-NfcFixesAscii s h = refl

two_bytes : AllBytes (10 ∷ 255 ∷ [])
two_bytes = (omega arith, (omega arith, tt))

payload_digest-tagged_example :
    (canonical_bytes (tagged (10 ∷ 255 ∷ [])) ≡ canonical_bytes (Value.bytes (10 ∷ 255 ∷ [])))
    × (payload_digest (record act_0 { payload = tagged (10 ∷ 255 ∷ []) })
        ≡ payload_digest (record act_0 { payload = Value.bytes (10 ∷ 255 ∷ []) }))
payload_digest-tagged_example =
    payload_digest-tagged (10 ∷ 255 ∷ []) act_0 toy-NfcFixesAscii two_bytes

ed25519_sign-verify_example :
    (ed25519_verify toy_keys ed25519 order ed25519_signature (str "ed25519-v1") ≡ ok true)
    × (ed25519_verify toy_keys
          (verifier toy_keys ed25519)
          order
          ed25519_signature
          (str "ed25519-v1")
        ≡ ok true)
ed25519_sign-verify_example =
    ed25519_sign-verify toy_keys toy_keys-IsSound 5 (str "ed25519-v1") none order ed25519_signature
      order_signed
