-- ===== src/Protocol/Provenance.antt =====
-- What a sink accepts, some policy allowed: act for act and field for field.
use execution_finality_for_a.Prelude.{
  Str, str_eq, ℤ, true, Option, List, [], ◌∷◌, ◌≡◌, ◌⊎◌, inl, inr,
}
use execution_finality_for_a.Errors.{ok}
use execution_finality_for_a.Platform.{Platform}
use execution_finality_for_a.Models.{CandidateAct, Capability, candidate_digest}
use execution_finality_for_a.Crypto.Laws.{NfcFixesAscii}
use execution_finality_for_a.Policy.{validate}
use execution_finality_for_a.Pop.{PresentationProof}
use execution_finality_for_a.Authority.{Vault}
use execution_finality_for_a.Authority.Replays.{Call, run_calls}
use execution_finality_for_a.Sink.{FinalitySink, verify}
use execution_finality_for_a.Sink.Accepts.{verify_sound}
use execution_finality_for_a.Protocol.Binding.{Collision}
use execution_finality_for_a.Protocol.History.{Sanctioned, accepted-Sanctioned}
use execution_finality_for_a.Protocol.Agreement.{Agree, SameAct-Agree}

-- Some call was allowed by its policy for an act that agrees in every field, or whose canonical bytes
-- collide.
abbrev pub Allowed : ⦃p : Platform⦄ → List Call → CandidateAct → Type 0
Allowed [] b = ⊥
Allowed (q ∷ qs) b =
    (((validate q.authority.policy q.candidate q.now).0 ≡ true)
      × (Agree b q.candidate ⊎ Collision b q.candidate))
    ⊎ Allowed qs b

module _ ⦃p : Platform⦄ (fixes : NfcFixesAscii p) where
  Sanctioned-Allowed :
      (qs : List Call) (b : CandidateAct) (d : Str)
      → candidate_digest b ≡ ok d
      → Sanctioned qs b
      → Allowed qs b
  Sanctioned-Allowed [] b d h x = x
  Sanctioned-Allowed (q ∷ qs) b d h (inl (allowed, inl same)) =
      inl (allowed, inl (SameAct-Agree fixes b q.candidate d h same))
  Sanctioned-Allowed (q ∷ qs) b d h (inl (allowed, inr collision)) = inl (allowed, inr collision)
  Sanctioned-Allowed (q ∷ qs) b d h (inr x) = inr (Sanctioned-Allowed qs b d h x)

  -- Where NFC leaves ASCII text as it is: start with an empty evidence store and let authorities make
  -- any calls. Whatever act a sink then accepts, with whatever capability, some call's policy allowed
  -- at that call's time an act that agrees with it in every field (texts up to their NFC form, payload
  -- and context up to their normal form), or one whose different canonical bytes have the same
  -- SHA-256 digest.
  pub accepted-Allowed :
      (qs : List Call) (v : Vault) (s : FinalitySink) (b : CandidateAct) (token : Capability)
      (at : ℤ) (proof : Option PresentationProof) (d : Str)
      → v.evidence.records ≡ []
      → verify s b token at proof (run_calls qs v).1 ≡ ok d
      → Allowed qs b
  accepted-Allowed qs v s b token at proof d fresh verified =
      let (h, e, acc, _) = verify_sound s b token at proof (run_calls qs v).1 d verified in
      Sanctioned-Allowed qs b token.candidate_digest acc.candidate
        (accepted-Sanctioned qs v s b token at proof d fresh verified)
