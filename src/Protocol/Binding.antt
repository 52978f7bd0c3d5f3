-- ===== src/Protocol/Binding.antt =====
-- What a digest binds. Two values with one digest have the same canonical bytes, or their bytes are
-- a collision of SHA-256, which the theorems then exhibit.
use execution_finality_for_a.Prelude.{Str, Str-discrete, ℤ, Option, ◌≡◌, ◌≢◌, ◌⊎◌, inl, inr, arith}
use execution_finality_for_a.Errors.{ok, value_of}
use execution_finality_for_a.Platform.{Platform, Bytes}
use execution_finality_for_a.Canonical.{Value, canonical_bytes, sha256_hex}
use execution_finality_for_a.Models.{CandidateAct, Capability, candidate_value, candidate_digest}
use execution_finality_for_a.Pop.{PresentationProof}
use execution_finality_for_a.Authority.{ProtectedAuthority, Vault, authorize, new_capability}
use execution_finality_for_a.Authority.Outcome.{authorize-Issued}
use execution_finality_for_a.Sink.{FinalitySink, verify}
use execution_finality_for_a.Sink.Accepts.{verify_sound}

-- Two acts that canonicalise to the same bytes.
abbrev pub SameAct : ⦃p : Platform⦄ → CandidateAct → CandidateAct → Type 0
SameAct b c = canonical_bytes (candidate_value b) ≡ canonical_bytes (candidate_value c)

-- The canonical bytes of two values differ and have one SHA-256 digest.
abbrev pub Collide : ⦃p : Platform⦄ → Value → Value → Type 0
Collide ⦃p⦄ v w =
    (x : Bytes) × (y : Bytes) × (canonical_bytes v ≡ ok x)
    × (canonical_bytes w ≡ ok y)
    × (x ≢ y)
    × (p.sha256_hexdigest x ≡ p.sha256_hexdigest y)

-- The canonical bytes of these two acts are a collision of SHA-256.
abbrev pub Collision : ⦃p : Platform⦄ → CandidateAct → CandidateAct → Type 0
Collision b c = Collide (candidate_value b) (candidate_value c)

module _ ⦃p : Platform⦄ where
  pub sha256_hex-binds :
      (v w : Value) (d : Str)
      → sha256_hex v ≡ ok d
      → sha256_hex w ≡ ok d
      → (canonical_bytes v ≡ canonical_bytes w) ⊎ Collide v w
  unfolding sha256_hex
  sha256_hex-binds v w d hv hw =
      let (x, ex) = value_of (canonical_bytes v) (ground arith) in
      let (y, ey) = value_of (canonical_bytes w) (ground arith) in
      elim (Str-discrete x y) [
        | yes same ↦ inl (ground arith)
        | no apart ↦ inr (x, y, ex, ey, apart, ground arith)
      ]

  pub candidate_digest-binds :
      (b c : CandidateAct) (d : Str)
      → candidate_digest b ≡ ok d
      → candidate_digest c ≡ ok d
      → SameAct b c ⊎ Collision b c
  unfolding candidate_digest
  candidate_digest-binds b c d hb hc =
      sha256_hex-binds (candidate_value b) (candidate_value c) d hb hc

  -- A capability that was issued for an act is verified, by any sink, at any time and over any
  -- vault, for that act only: an act that it is accepted with has the same canonical bytes, or the
  -- two acts' different canonical bytes have one SHA-256 digest.
  pub verify-binds :
      (a : ProtectedAuthority) (c b : CandidateAct) (now cost at : ℤ) (v u : Vault)
      (s : FinalitySink) (token : Capability) (proof : Option PresentationProof) (d : Str)
      → (authorize a c now cost v).0 ≡ ok token
      → verify s b token at proof u ≡ ok d
      → SameAct b c ⊎ Collision b c
  unfolding new_capability
  verify-binds a c b now cost at v u s token proof d issued verified =
      let (h, t, i, cd, e, iss) = authorize-Issued a c now cost v token issued in
      let (g, f, acc, same) = verify_sound s b token at proof u d verified in
      candidate_digest-binds b c token.candidate_digest acc.candidate
        (ground (arith, iss.candidate, iss.capable.shape))
