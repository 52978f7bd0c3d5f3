-- ===== src/Crypto/Laws.antt =====
-- What a signer guarantees: the interface that the authority and the sink rely on, and the proof
-- that `HMACAuthenticator` keeps it.
use execution_finality_for_a.Prelude.{Str, true, false, ◌≡◌, ◌≢◌, arith}
use execution_finality_for_a.Errors.{ok, bind-ok}
use execution_finality_for_a.Platform.{Platform, Bytes}
use execution_finality_for_a.Canonical.{Value, canonical_bytes}
use execution_finality_for_a.Crypto.{
  Authenticator, HmacAuthenticator, hmac_authenticator, hmac_sign, hmac_verify, is_ascii,
  compare_digest,
}

-- A signature that `sign` returned verifies under the signer's own key id.
pub record Verifies (a : Authenticator) : Type 0 where
  pub sign-verify : (v : Value) (s : Str) → a.sign v ≡ ok s → a.verify v s a.key_id ≡ ok true

-- `hexdigest` returns ASCII text, and only that.
abbrev pub HexdigestIsAscii : Platform → Type 0
HexdigestIsAscii p = (k m : Bytes) → is_ascii (p.hmac_sha256_hexdigest k m) ≡ true

-- NFC leaves ASCII text as it is.
abbrev pub NfcFixesAscii : Platform → Type 0
NfcFixesAscii p = (s : Str) → is_ascii s ≡ true → p.nfc s ≡ s

module _ ⦃p : Platform⦄ where
  -- Where hex digests are ASCII, a signature that `sign` returned verifies for the same value under
  -- the signer's key id.
  pub hmac_sign-verify :
      (a : HmacAuthenticator) (v : Value) (s : Str)
      → HexdigestIsAscii p
      → hmac_sign a v ≡ ok s
      → hmac_verify a v s a.key_id ≡ ok true
  unfolding hmac_verify hmac_sign compare_digest
  hmac_sign-verify a v s ascii h =
      let (bs, eb, es) =
        bind-ok (canonical_bytes v) (λ x. ok (p.hmac_sha256_hexdigest a.key x)) h in
      rw eb (ground (arith, ascii a.key bs))

  -- An HMAC authenticator verifies what it signed.
  pub hmac-Verifies : (a : HmacAuthenticator) → HexdigestIsAscii p → Verifies (hmac_authenticator a)
  hmac-Verifies a ascii = record { sign-verify = λ v s h. hmac_sign-verify a v s ascii h }

  -- A verification under another key id is refused, whatever the signature.
  pub hmac_verify_foreign :
      (a : HmacAuthenticator) (v : Value) (s k : Str)
      → k ≢ a.key_id
      → hmac_verify a v s k ≡ ok false
  unfolding hmac_verify
  hmac_verify_foreign a v s k h = ground arith

  -- What verifies is the HMAC of the canonical bytes under the authenticator's own key and key id.
  pub hmac_verify_sound :
      (a : HmacAuthenticator) (v : Value) (s k : Str)
      → hmac_verify a v s k ≡ ok true
      → (k ≡ a.key_id) × (hmac_sign a v ≡ ok s)
  unfolding hmac_verify compare_digest
  hmac_verify_sound a v s k h = ground arith
