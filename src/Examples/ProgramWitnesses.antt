-- ===== src/Examples/ProgramWitnesses.antt =====
-- The theorems about the programs and about proofs of possession, each at concrete input where its
-- hypotheses hold.
use execution_finality_for_a.Prelude.{
  str, str_eq, ℤ, pos, ◌+ℤ◌, [], ◌∷◌, length, none, some, true, false, ◌≡◌, ◌≢◌, ◌↔◌, refl, arith,
  ap,
}
use execution_finality_for_a.Errors.{ok, is_ok}
use execution_finality_for_a.Canonical.{
  Value, Entries, fields, canonical_bytes, portable_canonical_bytes,
}
use execution_finality_for_a.Canonical.Encodable.{Encodable, EntriesEncodable}
use execution_finality_for_a.Canonical.Accepted.{HasBytes}
use execution_finality_for_a.Canonical.Described.{Described, SafeIntegers, Described-iff}
use execution_finality_for_a.Pop.{PresentationProof, Registry}
use execution_finality_for_a.Consumption.Memory.{memory_store, memory-IsSingleUse}
use execution_finality_for_a.Effectors.{new_effector, bound_handle}
use execution_finality_for_a.State.{get_transition}
use execution_finality_for_a.Authority.{authorize}
use execution_finality_for_a.Sink.{FinalitySink, context_get}
use execution_finality_for_a.Sink.Accepts.{Accepts}
use execution_finality_for_a.Sink.Effectuate.{effectuate}
use execution_finality_for_a.Protocol.Possession.{Possesses, effect-Possesses}
use execution_finality_for_a.Programs.Session.{Delivers}
use execution_finality_for_a.Programs.NonBearer.{effector, strict_non_bearer}
use execution_finality_for_a.Programs.NonBearer
use execution_finality_for_a.Programs.NonBearer.Delivery.{strict_non_bearer-Delivers}
use execution_finality_for_a.Programs.Cases
use execution_finality_for_a.Programs.Cases.{Bundle, build_case}
use execution_finality_for_a.Programs.Cases.Portable.{bundle_sink, build_case-Accepts}
use execution_finality_for_a.Platform.{Bytes}
use execution_finality_for_a.Crypto.Ed25519.{from_hex}
use execution_finality_for_a.Programs.Vectors
use execution_finality_for_a.Programs.Vectors.{Vector, vector, vector_id, vector_agrees}
use execution_finality_for_a.Programs.Vectors.Decoding.{decode, decode_from}
use execution_finality_for_a.Crypto.{HmacAuthenticator, default_hmac_key_id}
use execution_finality_for_a.Examples.Evaluation.{evaluation}
use execution_finality_for_a.Examples.Setup.{value_or, toy_platform, authn, secret, sink, noon}
use execution_finality_for_a.Examples.PartRuns.{order, proof, authn_registered}
use execution_finality_for_a.Examples.Ready.{toy-IsDocumented}
use execution_finality_for_a.Examples.Runs.{act_0, token, world}

-- The readings of a clock: at noon, and one, two and three milliseconds later.
abbrev ticks : ℤ → ℤ
ticks n = noon +ℤ n

strict_non_bearer-Delivers_example : Delivers (NonBearer.candidate noon) (effector 5) (
    strict_non_bearer 5 noon
      (ticks (pos 1_000_000))
      (ticks (pos 2_000_000))
      (ticks (pos 3_000_000)))
unfolding evaluation
strict_non_bearer-Delivers_example =
    strict_non_bearer-Delivers toy-IsDocumented noon (ticks (pos 1_000_000)) (ticks (pos 2_000_000))
      (ticks (pos 3_000_000)) 5 (omega arith) (omega arith) (omega arith) (omega arith)
      (omega arith)

abbrev registry : Registry
registry = (authn.key_id, authn) ∷ []

abbrev strict_sink : FinalitySink
strict_sink = record sink { presenter_verifier = some registry; require_presentation_proof = true }

presenter_named :
    context_get (str "presenter_key_id") act_0.authority_context ≡ some (Value.text secret.key_id)
unfolding evaluation
presenter_named = refl

proved_once :
    length
      (effectuate strict_sink act_0 token noon memory_store
        (bound_handle 5)
        (some proof)
        world).1.effector.records
    ≡ 1
unfolding evaluation
proved_once = refl

proved_changes :
    (effectuate strict_sink act_0 token noon memory_store
      (bound_handle 5)
      (some proof)
      world).1.effector
    ≢ world.effector
unfolding new_effector
proved_changes q = omega (arith, proved_once, ap (λ e. length e.records) q)

effect-Possesses_example :
    (q : PresentationProof) × (some proof ≡ some q)
    × Possesses strict_sink act_0 token noon secret q
effect-Possesses_example =
    effect-Possesses strict_sink act_0 token noon registry secret.key_id secret refl refl
      presenter_named authn_registered memory_store (bound_handle 5) memory-IsSingleUse (some proof)
      world proved_changes

-- The first case of vectors/generate_finality_case.py.
abbrev payload : Entries
payload = fields (
    (str "amount_minor", Value.int (pos 12345))
    ∷ (str "currency", Value.text (str "EUR"))
    ∷ (str "beneficiary", Value.text (str "B1"))
    ∷ [])

abbrev context : Entries
context = fields ((str "runtime", Value.text (str "portable-demo")) ∷ [])

abbrev portable_sink : FinalitySink
portable_sink = record {
  context = Cases.context;
  authenticator = (Cases.authority []).authenticator;
  max_clock_skew_ns = pos 1_000_000_000;
  receipt_authenticator = authn;
  presenter_verifier = none;
  require_presentation_proof = false;
  presentation_freshness_ns = pos 2_000_000_000;
}

payload-Encodable : EntriesEncodable [] payload
unfolding Encodable evaluation
payload-Encodable = (refl, refl, tt, (refl, refl, refl, (refl, refl, refl, tt)))

context-Encodable : EntriesEncodable [] context
unfolding Encodable evaluation
context-Encodable = (refl, refl, refl, tt)

build_case-Accepts_example :
    let c =
      Cases.candidate
        (str "portable-act-1")
        (str "portable-nonce-1")
        (str "settlement-demo")
        (str "ledger://demo/beneficiary-B1")
        payload
        context in
    let after =
      (authorize (Cases.authority (str "settlement-demo")) c Cases.now (pos 1) Cases.vault).1 in
    (k : Bundle) × (bs : Bytes) × (build_case
        (str "portable-act-1")
        (str "portable-nonce-1")
        (str "settlement-demo")
        (str "ledger://demo/beneficiary-B1")
        payload
        context
      ≡ ok k)
    × (from_hex none k.authority_key_hex ≡ some bs)
    × (k.candidate ≡ c)
    × Accepts
        (bundle_sink portable_sink k bs)
        k.candidate
        k.capability
        Cases.now
        none
        after
        k.hcad
        k.validation_evidence
    × (get_transition k.capability.transition_id after.state ≡ some k.state_transition)
unfolding evaluation
build_case-Accepts_example =
    build_case-Accepts toy-IsDocumented (str "portable-act-1") (str "portable-nonce-1")
      (str "settlement-demo") (str "ledger://demo/beneficiary-B1") payload context refl refl refl
      refl payload-Encodable context-Encodable portable_sink (omega arith)

order-HasBytes : HasBytes order
unfolding HasBytes evaluation
order-HasBytes = (tt, (tt, tt))

Described-iff_example :
    ((is_ok (canonical_bytes order) ≡ true) ↔ Described order)
    × ((is_ok (portable_canonical_bytes order) ≡ true) ↔ (Described order × SafeIntegers order))
Described-iff_example = Described-iff toy-IsDocumented.keeps order order-HasBytes

abbrev blank_vector : Vector
blank_vector = record {
  id = [];
  value = Value.null;
  canonical_utf8 = [];
  sha256 = [];
  hmac_sha256 = [];
}

abbrev order_vector : Vector
order_vector = value_or blank_vector (vector 0 order)

vector_made : vector 0 order ≡ ok order_vector
unfolding evaluation vector vector_id decode decode_from
vector_made = refl

abbrev interop : HmacAuthenticator
interop = record { key = Vectors.key; key_id = default_hmac_key_id }
