-- ===== src/Crypto.antt =====
-- src/finality_ref/crypto.py: the `Authenticator` protocol and its two implementations.
pub mod Laws
pub mod Ed25519
pub mod Documented
use execution_finality_for_a.Prelude.{
  str_eq, Str, str, ◌==◌, Bool, true, false, not, ◌&&◌, ltb, [], ◌∷◌, if◌then◌else◌,
}
use execution_finality_for_a.Errors.{Error, Result, ok, ◌>>=◌, ◌>>◌, fail_if}
use execution_finality_for_a.Platform.{Platform, Bytes}
use execution_finality_for_a.Canonical.{Value, canonical_bytes}
unfoldable pub use execution_finality_for_a.Canonical.{is_ascii}

-- The protocol: what the authority, the evidence store and the sink know of a signer.
pub record Authenticator : Type 0 where
  pub key_id : Str
  pub sign : Value → Result Str
  pub verify : Value → Str → Str → Result Bool

-- hmac.compare_digest on text: TypeError unless both are ASCII.
unfoldable pub compare_digest : Str → Str → Result Bool
compare_digest a b = do fail_if (not (is_ascii a && is_ascii b)) Error.type_error; ok (a == b)

pub record HmacAuthenticator : Type 0 where
  pub key : Bytes
  pub key_id : Str

abbrev pub default_hmac_key_id : Str
default_hmac_key_id = str "reference-hmac-sha256-v1"

module _ ⦃p : Platform⦄ where
  unfoldable pub hmac_sign : HmacAuthenticator → Value → Result Str
  hmac_sign a v = do bs ← canonical_bytes v; ok (p.hmac_sha256_hexdigest a.key bs)

  unfoldable pub hmac_verify : HmacAuthenticator → Value → Str → Str → Result Bool
  hmac_verify a v signature key_id =
      if not (key_id == a.key_id)
      then ok false
      else (do expected ← hmac_sign a v; compare_digest expected signature)

  -- An `HMACAuthenticator` is an `Authenticator`.
  abbrev pub hmac_authenticator : HmacAuthenticator → Authenticator
  hmac_authenticator a = record { key_id = a.key_id; sign = hmac_sign a; verify = hmac_verify a }
