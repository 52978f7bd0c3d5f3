-- ===== src/Programs/Vectors/Generated.antt =====
-- vectors/generate_vectors.py: the whole script.
use execution_finality_for_a.Prelude.{
  ℕ, zero, suc, Bool, ◌&&◌, ◌+◌, Str, true, List, [], ◌∷◌, ◌≡◌, refl, arith, sym, ◌∙◌, str,
  Str-discrete, ℕ_discrete,
}
use execution_finality_for_a.Errors.{ok, value_of}
use execution_finality_for_a.Platform.{Platform, Bytes}
use execution_finality_for_a.Canonical.{
  Value, fields, dump, dumps, utf8, has_surrogate, is_safe_integer, canonical_bytes,
  portable_canonical_bytes, sha256_hex, hex,
}
use execution_finality_for_a.Canonical.Accepted.{accepted_iff}
use execution_finality_for_a.Canonical.Inside.{normalize_inside}
use execution_finality_for_a.Canonical.Throughout.{dumps-All}
use execution_finality_for_a.Crypto.{is_ascii, HmacAuthenticator, hmac_sign}
use execution_finality_for_a.Crypto.Documented.{IsDocumented}
use execution_finality_for_a.Programs.Vectors.{
  Vector, PositiveCase, Out, Conformance, AllRefused, vector_id, vector, positive_case,
  vectors_from, positives, generate, negative, key, vector_agrees, negative_refused,
}
use execution_finality_for_a.Programs.Vectors.Tables.{values, positive_values}
use execution_finality_for_a.Programs.Vectors.Decoding.{decode}
use execution_finality_for_a.Programs.Vectors.Decoded.{
  beyond, InRange, InRange-IsClosed, utf8-decode,
}
use execution_finality_for_a.Programs.Vectors.Fit.{
  KeysInNfc, IsAccepted, fits, both, fits-IsAccepted, decomposed_key-IsAccepted,
  lone_key-IsAccepted, supplementary-IsAccepted,
}

module _ ⦃p : Platform⦄ (a : HmacAuthenticator) where
  -- What a vector says of its value, by the protocol's own functions.
  pub record Agrees (i : ℕ) (v : Value) (r : Vector) : Type 0 where
    pub bytes : Bytes
    pub id : r.id ≡ vector_id i
    pub value : r.value ≡ v
    pub canonical : canonical_bytes v ≡ ok bytes
    pub text : utf8 r.canonical_utf8 ≡ ok bytes
    pub digest : sha256_hex v ≡ ok r.sha256
    pub mac : hmac_sign a v ≡ ok r.hmac_sha256

  -- One vector for each value, in order, numbered from `i`.
  abbrev pub AllAgree : ℕ → List (List (Str × Value)) → List Vector → Type 0
  AllAgree i [] [] = Unit
  AllAgree i (es ∷ rest) (r ∷ rs) = Agrees i (Value.dict (fields es)) r × AllAgree (i + 1) rest rs
  AllAgree i _ _ = ⊥

module _ ⦃p : Platform⦄ where
  -- One case for each value, in order.
  abbrev pub AllCases : List (Str × List (Str × Value)) → List PositiveCase → Type 0
  AllCases [] [] = Unit
  AllCases ((ident, es) ∷ rest) (r ∷ rs) =
      (r.id ≡ ident)
      × (r.value ≡ Value.dict (fields es))
      × (portable_canonical_bytes (Value.dict (fields es)) ≡ utf8 r.canonical_utf8)
      × AllCases rest rs
  AllCases _ _ = ⊥

  abbrev AllAccepted : List (List (Str × Value)) → Type 0
  AllAccepted [] = Unit
  AllAccepted (es ∷ rest) = IsAccepted (Value.dict (fields es)) × AllAccepted rest

abbrev before_fit : ℕ → List (List (Str × Value)) → Bool
before_fit zero vs = true
before_fit (suc n) [] = true
before_fit (suc n) (es ∷ vs) = fits (Value.dict (fields es)) && before_fit n vs

-- `vs[n:]`
abbrev after : ℕ → List (List (Str × Value)) → List (List (Str × Value))
after zero vs = vs
after (suc n) [] = []
after (suc n) (es ∷ vs) = after n vs

abbrev entries_of : List (Str × List (Str × Value)) → List (List (Str × Value))
entries_of [] = []
entries_of ((ident, es) ∷ rest) = es ∷ entries_of rest

module _ ⦃p : Platform⦄ (doc : IsDocumented p)
    (ranged : (s : Str) → InRange s → InRange (p.nfc s)) where
  -- The bytes of an accepted value are decoded to the text that was encoded.
  encoded_decoded :
      (v : Value)
      → IsAccepted v
      → (bs : Bytes) × (s : Str) × (portable_canonical_bytes v ≡ ok bs)
        × (decode bs ≡ ok s)
        × (utf8 s ≡ ok bs)
  unfolding portable_canonical_bytes dump
  encoded_decoded v accepted =
      let (_, portable) = accepted_iff doc.keeps v accepted.has_bytes in
      let returns = portable.1 (accepted.encodable, accepted.portable) in
      let (bs, eb) = value_of (portable_canonical_bytes v) returns in
      let (j, ej, all) = normalize_inside InRange ranged v accepted.in_range (ground arith) in
      let encoded : utf8 (dumps j) ≡ ok bs = ground (arith, eb, ej) in
      (
        bs,
        dumps j,
        eb,
        utf8-decode (dumps j) bs (dumps-All InRange InRange-IsClosed j all) encoded,
        encoded,
      )

  module _ (a : HmacAuthenticator) (same : a.key ≡ key) where
    vector_made :
        (i : ℕ) (v : Value) → IsAccepted v → (r : Vector) × (vector i v ≡ ok r) × Agrees a i v r
    unfolding vector
    vector_made i v accepted =
        let (bs, s, eb, ed, eu) = encoded_decoded v accepted in
        let (r, er) = value_of (vector i v) (ground (arith, eb, ed)) in
        let (cb, ec, et, es, em) = vector_agrees i v r a same er in
        (
          r,
          er,
          record {
            bytes = cb;
            id = ground (arith, eb, ed, er);
            value = ground (arith, eb, ed, er);
            canonical = ec;
            text = et;
            digest = es;
            mac = em;
          },
        )

    vectors_made :
        (i : ℕ) (vs : List (List (Str × Value)))
        → AllAccepted vs
        → (rs : List Vector) × (vectors_from i vs ≡ ok rs) × AllAgree a i vs rs
    unfolding vectors_from
    vectors_made i [] all = ([], refl, tt)
    vectors_made i (es ∷ rest) (here, there) =
        let (r, er, first) = vector_made i (Value.dict (fields es)) here in
        let (rs, ers, later) = vectors_made (i + 1) rest there in
        (r ∷ rs, ground (arith, er, ers), (first, later))

  cases_made :
      (ps : List (Str × List (Str × Value)))
      → AllAccepted (entries_of ps)
      → (rs : List PositiveCase) × (positives ps ≡ ok rs) × AllCases ps rs
  unfolding positives positive_case
  cases_made [] all = ([], refl, tt)
  cases_made ((ident, es) ∷ rest) (here, there) =
      let (bs, s, eb, ed, eu) = encoded_decoded (Value.dict (fields es)) here in
      let (rs, ers, later) = cases_made rest there in
      (
        record { id = ident; value = Value.dict (fields es); canonical_utf8 = s } ∷ rs,
        ground (arith, eb, ed, ers),
        (refl, refl, eb ∙ sym eu, later),
      )

  -- The first `n` values fit, and the others are accepted.
  fit_before :
      (n : ℕ) (vs : List (List (Str × Value)))
      → before_fit n vs ≡ true
      → AllAccepted (after n vs)
      → AllAccepted vs
  fit_before zero vs h rest = rest
  fit_before (suc n) [] h rest = tt
  fit_before (suc n) (es ∷ vs) h rest =
      let (now, later) = both (fits (Value.dict (fields es))) (before_fit n vs) h in
      (fits-IsAccepted doc (Value.dict (fields es)) now, fit_before n vs later rest)

  module _ (keys : KeysInNfc p) where
    values-AllAccepted : AllAccepted values
    unfolding fits is_ascii beyond has_surrogate is_safe_integer Str-discrete ℕ_discrete
    values-AllAccepted = fit_before 16 values refl (
      decomposed_key-IsAccepted doc keys,
      (supplementary-IsAccepted doc keys, fit_before 2 (after 18 values) refl tt),
    )

    positive-AllAccepted : AllAccepted (entries_of positive_values)
    unfolding fits is_ascii beyond has_surrogate is_safe_integer Str-discrete ℕ_discrete
    positive-AllAccepted = fit_before 1 (entries_of positive_values) refl (
      lone_key-IsAccepted doc keys,
      (
        supplementary-IsAccepted doc keys,
        fit_before 2 (after 3 (entries_of positive_values)) refl tt,
      ),
    )

    -- Over a documented platform whose NFC keeps code points in Unicode's range and treats the tables'
    -- keys as Unicode says, the script does not raise: it makes one vector for each value of its table,
    -- numbered in order, each with the text, the SHA-256 digest and the HMAC that the protocol's own
    -- functions give for the value, and one positive case for each value of the second table; and the
    -- portable profile refuses all its negative cases.
    pub generate_returns :
        (a : HmacAuthenticator)
        → a.key ≡ key
        → (o : Out) × (c : Conformance) × (generate ≡ ok (o, c))
          × AllAgree a 0 values o.vectors
          × AllCases positive_values c.positive
          × AllRefused c.negative
    unfolding generate
    generate_returns a same =
        let (vs, ev, agree) = vectors_made a same 0 values values-AllAccepted in
        let (ps, ep, cases) = cases_made positive_values positive-AllAccepted in
        (
          record { schema = str "finality-interop-v2"; key_hex = hex key; vectors = vs },
          record {
            schema = str "finality-canonicalization-conformance-v1";
            positive = ps;
            negative = negative;
          },
          ground (arith, ev, ep),
          agree,
          cases,
          negative_refused (keys.composed ∙ sym keys.letter),
        )
