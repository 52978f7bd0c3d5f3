-- ===== src/Programs/Vectors.antt =====
-- vectors/generate_vectors.py: an interop vector, a positive case of the conformance file, and the
-- negative cases, and the two loops over the tables. The writing of the files is left out.
pub mod Decoding
pub mod Tables
pub mod Encoded
pub mod Decoded
pub mod Fit
pub mod Generated
use execution_finality_for_a.Prelude.{
  ℕ, ◌+◌, ◌^◌, ltb, Str, str, ℤ, pos, negsuc, Bool, true, false, List, [], ◌∷◌, ◌++◌, if◌then◌else◌,
  ◌≡◌, refl, arith, Str-discrete, ℕ_discrete, lookup, ◌-◌,
}
use execution_finality_for_a.Errors.{Result, ok, is_ok, value_of, ◌>>=◌}
use execution_finality_for_a.Platform.{Platform, Bytes}
use execution_finality_for_a.Canonical.{
  Value, Entries, fields, decimal, utf8, has_surrogate, is_safe_integer, canonical_bytes,
  portable_canonical_bytes, sha256_hex, normalize, normalize_int, normalize_key, hex,
}
use execution_finality_for_a.Canonical.Profiles.{canonical_bytes_portable}
use execution_finality_for_a.Crypto.{HmacAuthenticator, hmac_sign}
use execution_finality_for_a.Programs.Vectors.Decoding.{decode}
use execution_finality_for_a.Programs.Vectors.Tables.{values, positive_values}
use execution_finality_for_a.Programs.Vectors.Encoded.{decode-utf8}

-- KEY
abbrev pub key : Bytes
key = str "interop-reference-key-v1"

pub record Vector : Type 0 where
  pub id : Str
  pub value : Value
  pub canonical_utf8 : Str
  pub sha256 : Str
  pub hmac_sha256 : Str

-- f"v{i+1:02d}"
unfoldable pub vector_id : ℕ → Str
unfolding decimal
vector_id i =
    let number = decimal (pos (i + 1)) in
    str "v" ++ (if ltb (i + 1) 10 then str "0" ++ number else number)

pub record PositiveCase : Type 0 where
  pub id : Str
  pub value : Value
  pub canonical_utf8 : Str

-- negative: the values that all implementations must reject
abbrev pub negative : List (Str × Value)
negative =
    (
      str "nfc-key-collision",
      Value.dict
          (fields ((233 ∷ [], Value.int (pos 1)) ∷ (101 ∷ 769 ∷ [], Value.int (pos 2)) ∷ [])),
    )
    ∷ (str "floating-point", Value.dict (fields ((str "n", Value.float 0x3ff8000000000000) ∷ [])))
    ∷ (
      str "unsafe-positive-integer",
      Value.dict (fields ((str "n", Value.int (pos 9007199254740992)) ∷ [])),
    )
    ∷ (
      str "unsafe-negative-integer",
      Value.dict (fields ((str "n", Value.int (negsuc 9007199254740991)) ∷ [])),
    )
    ∷ []

pub record Out : Type 0 where
  pub schema : Str
  pub key_hex : Str
  pub vectors : List Vector

pub record Conformance : Type 0 where
  pub schema : Str
  pub positive : List PositiveCase
  pub negative : List (Str × Value)

module _ ⦃p : Platform⦄ where
  -- The body of the first loop.
  unfoldable pub vector : ℕ → Value → Result Vector
  unfolding vector_id
  vector i value = do
    cb ← portable_canonical_bytes value
    text ← decode cb
    ok (record {
      id = vector_id i;
      value = value;
      canonical_utf8 = text;
      sha256 = p.sha256_hexdigest cb;
      hmac_sha256 = p.hmac_sha256_hexdigest key cb;
    })

  -- The body of the second loop.
  unfoldable pub positive_case : Str → Value → Result PositiveCase
  positive_case ident value = do
    cb ← portable_canonical_bytes value
    text ← decode cb
    ok (record { id = ident; value = value; canonical_utf8 = text })

  -- The first loop, from its number `i`.
  unfoldable pub vectors_from : ℕ → List (List (Str × Value)) → Result (List Vector)
  vectors_from i [] = ok []
  vectors_from i (es ∷ rest) = do
    first ← vector i (Value.dict (fields es))
    later ← vectors_from (i + 1) rest
    ok (first ∷ later)

  -- The second loop.
  unfoldable pub positives : List (Str × List (Str × Value)) → Result (List PositiveCase)
  positives [] = ok []
  positives ((ident, es) ∷ rest) = do
    first ← positive_case ident (Value.dict (fields es))
    later ← positives rest
    ok (first ∷ later)

  -- The script, up to the files that it writes: `out` and `conformance`.
  unfoldable pub generate : Result (Out × Conformance)
  unfolding hex
  generate = do
    vectors ← vectors_from 0 values
    positive ← positives positive_values
    ok (
      record { schema = str "finality-interop-v2"; key_hex = hex key; vectors = vectors },
      record {
        schema = str "finality-canonicalization-conformance-v1";
        positive = positive;
        negative = negative;
      },
    )

  -- A vector that is made carries what the protocol, in its own profile, computes of the value: its
  -- text encodes to the value's canonical bytes, the digest is their `sha256_hex`, and the HMAC is what
  -- an `HMACAuthenticator` with the key signs.
  pub vector_agrees :
      (i : ℕ) (v : Value) (r : Vector) (a : HmacAuthenticator)
      → a.key ≡ key
      → vector i v ≡ ok r
      → (bs : Bytes) × (canonical_bytes v ≡ ok bs)
        × (utf8 r.canonical_utf8 ≡ ok bs)
        × (sha256_hex v ≡ ok r.sha256)
        × (hmac_sign a v ≡ ok r.hmac_sha256)
  unfolding vector sha256_hex hmac_sign
  vector_agrees i v r a same h =
      let (bs, eb) = value_of (portable_canonical_bytes v) (ground arith) in
      let (text, et) = value_of (decode bs) (ground arith) in
      let local = canonical_bytes_portable v bs eb in
      let encoded = decode-utf8 bs text et in (bs, local, ground arith, ground arith, ground arith)

  abbrev pub AllRefused : List (Str × Value) → Type 0
  AllRefused [] = Unit
  AllRefused ((_, v) ∷ vs) = (is_ok (portable_canonical_bytes v) ≡ false) × AllRefused vs

  -- Where NFC composes e with an acute accent, the portable profile refuses the negative cases.
  pub negative_refused : p.nfc (101 ∷ 769 ∷ []) ≡ p.nfc (233 ∷ []) → AllRefused negative
  unfolding portable_canonical_bytes normalize normalize_int normalize_key is_safe_integer
      has_surrogate lookup
  negative_refused composed = (ground arith, (refl, (refl, (refl, tt))))
