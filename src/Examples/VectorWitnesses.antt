-- ===== src/Examples/VectorWitnesses.antt =====
-- The theorems about the vectors and their decoder, each at concrete input where its hypotheses hold.
use execution_finality_for_a.Prelude.{
  Str, str_eq, ◌==◌, true, Bool-cases, if◌then◌else◌, [], ◌∷◌, ◌≡◌, inl, inr, subst, refl, arith,
  Str-discrete, ℕ_discrete,
}
use execution_finality_for_a.Errors.{ok}
use execution_finality_for_a.Platform.{Platform}
use execution_finality_for_a.Canonical.{has_surrogate}
use execution_finality_for_a.Canonical.Clean.{Clean}
use execution_finality_for_a.Crypto.{HmacAuthenticator, default_hmac_key_id, is_ascii}
use execution_finality_for_a.Crypto.Documented.{is_ascii-digits, IsDocumented}
use execution_finality_for_a.Programs.Vectors
use execution_finality_for_a.Programs.Vectors.{Out, Conformance, AllRefused, generate}
use execution_finality_for_a.Programs.Vectors.Tables.{values, positive_values}
use execution_finality_for_a.Programs.Vectors.Decoded.{beyond, InRange}
use execution_finality_for_a.Programs.Vectors.Fit.{KeysInNfc}
use execution_finality_for_a.Programs.Vectors.Generated.{AllAgree, AllCases, generate_returns}
use execution_finality_for_a.Examples.Setup.{toy, checksum, toy-ascii}

abbrev e_acute : Str
e_acute = 101 ∷ 769 ∷ []

-- A stand-in for NFC that composes one letter.
compose : Str → Str
compose s = if s == e_acute then 233 ∷ [] else s

abbrev composing : Platform
composing = record toy { nfc = compose }

compose_ascii : (s : Str) → is_ascii s ≡ true → compose s ≡ s
unfolding compose is_ascii
compose_ascii s h = elim (Str-discrete s e_acute) [
  | yes same ↦
      let wrong : is_ascii e_acute ≡ true = subst (λ t. is_ascii t ≡ true) same h in cc wrong
  | no other ↦ ground arith
]

compose-Clean : (s : Str) → Clean s → Clean (compose s)
unfolding compose has_surrogate
compose-Clean s h = elim (Bool-cases (s == e_acute)) [
  | inl same ↦ rw same refl
  | inr other ↦ rw other h
]

compose_ranged : (s : Str) → InRange s → InRange (compose s)
unfolding compose beyond
compose_ranged s h = elim (Bool-cases (s == e_acute)) [
  | inl same ↦ rw same refl
  | inr other ↦ rw other h
]

composing-IsDocumented : IsDocumented composing
unfolding is_ascii
composing-IsDocumented = record {
  fixes = compose_ascii;
  keeps = compose-Clean;
  digest = λ bs. is_ascii-digits 8 (checksum 7 bs) [] refl;
  mac = toy-ascii;
}

composing_keys : KeysInNfc composing
unfolding compose Str-discrete ℕ_discrete
composing_keys = record { composed = refl; letter = refl; emoji = refl; private_use = refl }

abbrev interop : HmacAuthenticator
interop = record { key = Vectors.key; key_id = default_hmac_key_id }

generate_returns_example :
    (o : Out) × (c : Conformance) × (generate ⦃p = composing⦄ ≡ ok (o, c))
    × AllAgree ⦃p = composing⦄ interop 0 values o.vectors
    × AllCases ⦃p = composing⦄ positive_values c.positive
    × AllRefused ⦃p = composing⦄ c.negative
generate_returns_example =
    generate_returns ⦃p = composing⦄ composing-IsDocumented compose_ranged composing_keys interop
      refl
