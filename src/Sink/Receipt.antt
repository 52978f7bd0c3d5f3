-- ===== src/Sink/Receipt.antt =====
-- The receipt that `FinalitySink.effectuate` signs.
use execution_finality_for_a.Prelude.{Str, str, ℤ, List, [], ◌∷◌, Option, ◌≡◌, arith}
use execution_finality_for_a.Errors.{Result, ok, ◌>>=◌}
use execution_finality_for_a.Platform.{Platform}
use execution_finality_for_a.Canonical.{Value, fields, texts, sha256_hex}
use execution_finality_for_a.Models.{
  CandidateAct, Capability, SinkReceipt, unsigned_receipt, optional_text, candidate_digest,
}
use execution_finality_for_a.Sink.{FinalitySink}

abbrev pub effective_status : Str
effective_status = str "EFFECTIVE"

-- `receipt_core`
unfoldable pub receipt_core :
    FinalitySink → Capability → ℤ → Str → Str → Option Str → List (Str × Value)
receipt_core s token now candidate descriptor reference =
    (str "capability_id", Value.text token.capability_id)
    ∷ (str "candidate_digest", Value.text candidate)
    ∷ (str "descriptor_digest", Value.text descriptor)
    ∷ (str "sink_id", Value.text s.context.sink_id)
    ∷ (str "boundary_id", Value.text s.context.boundary_id)
    ∷ (str "transition_id", Value.text token.transition_id)
    ∷ (str "scope", Value.list (texts token.scope))
    ∷ (str "effect_status", Value.text effective_status)
    ∷ (str "committed_at_ns", Value.int now)
    ∷ (str "effect_reference", optional_text reference)
    ∷ (str "key_id", Value.text s.receipt_authenticator.key_id)
    ∷ []

unfoldable pub new_receipt :
    FinalitySink → Capability → ℤ → Str → Str → Option Str → Str → Str → SinkReceipt
new_receipt s token now candidate descriptor reference receipt_id signature = record {
  receipt_id = receipt_id;
  capability_id = token.capability_id;
  candidate_digest = candidate;
  descriptor_digest = descriptor;
  sink_id = s.context.sink_id;
  boundary_id = s.context.boundary_id;
  transition_id = token.transition_id;
  scope = token.scope;
  effect_status = effective_status;
  committed_at_ns = now;
  effect_reference = reference;
  signature = signature;
  key_id = s.receipt_authenticator.key_id;
}

module _ ⦃p : Platform⦄ (s : FinalitySink) (c : CandidateAct) (token : Capability) (now : ℤ) where
  -- The receipt, once the effect has been made.
  unfoldable pub issue_receipt : Str → Option Str → Result SinkReceipt
  issue_receipt descriptor reference = do
    candidate ← candidate_digest c
    let core = receipt_core s token now candidate descriptor reference
    receipt_id ← sha256_hex (Value.dict (fields core))
    signature ←
        s.receipt_authenticator.sign
          (Value.dict (fields ((str "receipt_id", Value.text receipt_id) ∷ core)))
    ok (new_receipt s token now candidate descriptor reference receipt_id signature)

  -- What a receipt says of the call that issued it.
  pub issue_receipt-ok :
      (descriptor : Str) (reference : Option Str) (r : SinkReceipt)
      → issue_receipt descriptor reference ≡ ok r
      → (candidate_digest c ≡ ok r.candidate_digest)
        × (r
            ≡ new_receipt s token now r.candidate_digest descriptor reference r.receipt_id
                r.signature)
        × (s.receipt_authenticator.sign (unsigned_receipt r) ≡ ok r.signature)
  unfolding issue_receipt new_receipt receipt_core unsigned_receipt
  issue_receipt-ok descriptor reference r h = ground arith
