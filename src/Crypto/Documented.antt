-- ===== src/Crypto/Documented.antt =====
-- What the standard library documents of normalisation and hex digests, and the records that have a
-- digest because of it.
use execution_finality_for_a.Prelude.{
  ℤ, Str, str_eq, contains, Bool, true, not, ◌&&◌, List, [], ◌∷◌, ◌++◌, ◌≡◌, arith,
}
use execution_finality_for_a.Errors.{ok, is_ok, value_of}
use execution_finality_for_a.Platform.{Platform, Bytes}
use execution_finality_for_a.Canonical.{decimal, Value, fields, texts, canonical_bytes, sha256_hex}
use execution_finality_for_a.Canonical.Clean.{Clean, Clean-append}
use execution_finality_for_a.Canonical.Encodable.{
  NfcKeepsClean, Encodable, ItemsEncodable, EntriesEncodable, canonical_bytes_returns,
}
use execution_finality_for_a.Crypto.{
  Authenticator, HmacAuthenticator, hmac_authenticator, hmac_sign, is_ascii,
}
use execution_finality_for_a.Crypto.Laws.{NfcFixesAscii, HexdigestIsAscii}
pub use execution_finality_for_a.Canonical.Throughout.{is_ascii-digits, is_ascii-decimal}
pub use execution_finality_for_a.Canonical.Clean.{has_surrogate_ascii}

-- NFC leaves ASCII text as it is and makes no surrogate, and hex digests are ASCII.
pub record IsDocumented (p : Platform) : Type 0 where
  pub fixes : NfcFixesAscii p
  pub keeps : NfcKeepsClean p
  pub digest : (bs : Bytes) → is_ascii (p.sha256_hexdigest bs) ≡ true
  pub mac : HexdigestIsAscii p

-- A name with a number, as an f-string writes it.
pub Clean-numbered : (s : Str) (i : ℤ) → Clean s → Clean (s ++ decimal i)
Clean-numbered s i h =
    Clean-append s (decimal i) h (has_surrogate_ascii (decimal i) (is_ascii-decimal i))

-- The names of a record's fields: ASCII, and no two the same.
unfoldable pub names_fit : List Str → List (Str × Value) → Bool
names_fit seen [] = true
names_fit seen ((k, _) ∷ es) = is_ascii k && not (contains seen k) && names_fit (seen ++ k ∷ []) es

module _ ⦃p : Platform⦄ where
  abbrev pub AllEncodable : List (Str × Value) → Type 0
  AllEncodable [] = Unit
  AllEncodable ((_, v) ∷ es) = Encodable v × AllEncodable es

  abbrev pub AllClean : List Str → Type 0
  AllClean [] = Unit
  AllClean (s ∷ ss) = Clean s × AllClean ss

  pub texts-ItemsEncodable : (ss : List Str) → AllClean ss → ItemsEncodable (texts ss)
  unfolding Encodable
  texts-ItemsEncodable [] h = tt
  texts-ItemsEncodable (s ∷ ss) (hs, h) = (hs, texts-ItemsEncodable ss h)

  -- An authenticator signs whatever has canonical bytes.
  abbrev pub Signs : Authenticator → Type 0
  Signs a = (v : Value) → Encodable v → is_ok (a.sign v) ≡ true

  module _ (doc : IsDocumented p) where
    pub fields-EntriesEncodable :
        (seen : List Str) (es : List (Str × Value))
        → names_fit seen es ≡ true
        → AllEncodable es
        → EntriesEncodable seen (fields es)
    unfolding names_fit Encodable
    fields-EntriesEncodable seen [] h all = tt
    fields-EntriesEncodable seen ((k, v) ∷ es) h (hv, all) =
        let ascii : is_ascii k ≡ true = ground arith in
        let same = doc.fixes k ascii in
        rw same (
          has_surrogate_ascii k ascii,
          ground arith,
          hv,
          fields-EntriesEncodable (seen ++ k ∷ []) es (ground arith) all,
        )

    -- A dict literal with fitting names and encodable values has canonical bytes.
    pub fields-Encodable :
        (es : List (Str × Value))
        → names_fit [] es ≡ true
        → AllEncodable es
        → Encodable (Value.dict (fields es))
    unfolding Encodable
    fields-Encodable es h all = fields-EntriesEncodable [] es h all

    -- An encodable value has a digest, which is text without surrogates.
    pub digest_returns : (v : Value) → Encodable v → (d : Str) × (sha256_hex v ≡ ok d) × Clean d
    unfolding sha256_hex
    digest_returns v h =
        let (bs, e) = value_of (canonical_bytes v) (canonical_bytes_returns doc.keeps v h) in
        (
          p.sha256_hexdigest bs,
          ground arith,
          has_surrogate_ascii (p.sha256_hexdigest bs) (doc.digest bs),
        )

    pub hmac-Signs : (a : HmacAuthenticator) → Signs (hmac_authenticator a)
    unfolding hmac_sign
    hmac-Signs a v h = ground (arith, canonical_bytes_returns doc.keeps v h)

    pub digest-Clean : (v : Value) (d : Str) → sha256_hex v ≡ ok d → Clean d
    unfolding sha256_hex
    digest-Clean v d h =
        let (bs, e) = value_of (canonical_bytes v) (ground arith) in
        ground (arith, has_surrogate_ascii (p.sha256_hexdigest bs) (doc.digest bs))
