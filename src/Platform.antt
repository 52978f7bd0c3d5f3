-- ===== src/Platform.antt =====
-- What the program takes from outside its repository: Unicode normalisation (unicodedata), SHA-256
-- and HMAC-SHA-256 (hashlib, hmac), whose tables and compression function are no code of the
-- repository, and the Ed25519 keys of the optional `cryptography` package. What the code relies on
-- is stated as hypotheses of the theorems that need it.
use execution_finality_for_a.Prelude.{ℕ, ◌<◌, Str, Bool, List, [], ◌∷◌}

abbrev pub Bytes : Type 0
Bytes = List ℕ

abbrev pub AllBytes : Bytes → Type 0
AllBytes [] = Unit
AllBytes (b ∷ bs) = (b < 256) × AllBytes bs

pub record Platform : Type 0 where
  -- unicodedata.normalize("NFC", s)
  pub nfc : Str → Str
  -- hashlib.sha256(data).hexdigest()
  pub sha256_hexdigest : Bytes → Str
  -- hmac.new(key, data, hashlib.sha256).hexdigest()
  pub hmac_sha256_hexdigest : Bytes → Bytes → Str

-- `Ed25519PrivateKey` and `Ed25519PublicKey`. `verify` raises where `verify_raw` is false.
pub record Ed25519Library : Type 1 where
  pub PrivateKey : Type 0
  pub PublicKey : Type 0
  pub public_key : PrivateKey → PublicKey
  pub sign_raw : PrivateKey → Bytes → Bytes
  pub verify_raw : PublicKey → Bytes → Bytes → Bool
