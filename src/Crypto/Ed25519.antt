-- ===== src/Crypto/Ed25519.antt =====
-- src/finality_ref/crypto.py: `Ed25519Authenticator`, over the keys of the `cryptography` package.
use execution_finality_for_a.Prelude.{
  ℕ, ◌+◌, ◌-◌, ◌*◌, ◌/◌, ◌%◌, ◌<◌, Str, str_eq, ◌==◌, Bool, true, false, not, ◌&&◌, ◌||◌, leb, eqb,
  [], ◌∷◌, Option, none, some, if◌then◌else◌, ◌≡◌, refl, arith,
}
use execution_finality_for_a.Errors.{Error, Result, ok, err, ◌>>=◌, is_ok, value_of}
use execution_finality_for_a.Platform.{Platform, Bytes, AllBytes, Ed25519Library}
use execution_finality_for_a.Canonical.{Value, canonical_bytes, hex, hex_digit}
use execution_finality_for_a.Crypto.{Authenticator}

-- The value of a hexadecimal digit, of either case.
unfoldable pub hex_value : ℕ → Option ℕ
hex_value c =
    if leb 48 c && leb c 57
    then some (c - 48)
    else if leb 97 c && leb c 102
    then some (c - 87)
    else if leb 65 c && leb c 70
    then some (c - 55)
    else none

-- ASCII whitespace, which `bytes.fromhex` skips between two bytes.
abbrev pub is_space : ℕ → Bool
is_space c = (leb 9 c && leb c 13) || eqb c 32

abbrev pub and_byte : ℕ → ℕ → Option Bytes → Option Bytes
and_byte high low none = none
and_byte high low (some bs) = some ((high * 16 + low) ∷ bs)

-- bytes.fromhex(text), with the first digit of a byte that has been read; `none` is ValueError.
unfoldable pub from_hex : Option ℕ → Str → Option Bytes
unfolding hex_value
from_hex none [] = some []
from_hex (some _) [] = none
from_hex none (c ∷ s) =
    let skipped = from_hex none s in
    if is_space c
    then skipped
    else elim (hex_value c) [ none ↦ none | some high ↦ from_hex (some high) s ]
from_hex (some high) (c ∷ s) = elim (hex_value c) [
  | none ↦ none
  | some low ↦ and_byte high low (from_hex none s)
]

pub record Ed25519Authenticator (lib : Ed25519Library) : Type 0 where
  pub key_id : Str
  pub private_key : Option lib.PrivateKey
  pub public_key : lib.PublicKey

module _ (lib : Ed25519Library) where
  -- `__init__`; `generated` is the key that `Ed25519PrivateKey.generate()` returns where neither
  -- key is given.
  unfoldable pub new_ed25519 :
      lib.PrivateKey → Str → Option lib.PrivateKey → Option lib.PublicKey → Ed25519Authenticator lib
  new_ed25519 generated key_id private_key (some public) = record {
    key_id = key_id;
    private_key = private_key;
    public_key = public;
  }
  new_ed25519 generated key_id (some k) none = record {
    key_id = key_id;
    private_key = some k;
    public_key = lib.public_key k;
  }
  new_ed25519 generated key_id none none = record {
    key_id = key_id;
    private_key = some generated;
    public_key = lib.public_key generated;
  }

  -- `verifier()`: the same public key, and no private one.
  unfoldable pub verifier : Ed25519Authenticator lib → Ed25519Authenticator lib
  verifier a = record { key_id = a.key_id; private_key = none; public_key = a.public_key }

  module _ ⦃p : Platform⦄ where
    abbrev sign_with : Option lib.PrivateKey → Value → Result Str
    sign_with none v = err Error.runtime_error
    sign_with (some k) v = do bs ← canonical_bytes v; ok (hex (lib.sign_raw k bs))

    unfoldable pub ed25519_sign : Ed25519Authenticator lib → Value → Result Str
    ed25519_sign a v = sign_with a.private_key v

    -- The `try` of `verify`: an exception of any kind is the answer False.
    abbrev verify_raw : lib.PublicKey → Option Bytes → Result Bytes → Bool
    verify_raw key (some raw) (ok bs) = lib.verify_raw key raw bs
    verify_raw _ _ _ = false

    unfoldable pub ed25519_verify : Ed25519Authenticator lib → Value → Str → Str → Result Bool
    ed25519_verify a v signature key_id =
        if not (key_id == a.key_id)
        then ok false
        else ok (verify_raw a.public_key (from_hex none signature) (canonical_bytes v))

    abbrev pub ed25519_authenticator : Ed25519Authenticator lib → Authenticator
    ed25519_authenticator a = record {
      key_id = a.key_id;
      sign = ed25519_sign a;
      verify = ed25519_verify a;
    }

hex_value-hex_digit : (n : ℕ) → n < 16 → hex_value (hex_digit n) ≡ some n
unfolding hex_value hex_digit
hex_value-hex_digit n h = ground arith

not_space : (n : ℕ) → is_space (hex_digit n) ≡ false
unfolding hex_digit
not_space n = ground arith

-- `bytes.fromhex` reads back what `bytes.hex` wrote for a string of numbers below 256.
pub from_hex-hex : (bs : Bytes) → AllBytes bs → from_hex none (hex bs) ≡ some bs
unfolding from_hex hex
from_hex-hex [] h = refl
from_hex-hex (b ∷ bs) h =
    let high : hex_value (hex_digit (b / 16)) ≡ some (b / 16) =
      hex_value-hex_digit (b / 16) (ground arith) in
    let low : hex_value (hex_digit (b % 16)) ≡ some (b % 16) =
      hex_value-hex_digit (b % 16) (ground arith) in
    ground (arith, not_space (b / 16), high, low, from_hex-hex bs h.1)

-- What RFC 8032 says of the library's keys: a signature is a byte string that verifies under the
-- public key of its private key.
pub record IsSound (lib : Ed25519Library) : Type 0 where
  pub bytes : (k : lib.PrivateKey) (m : Bytes) → AllBytes (lib.sign_raw k m)
  pub signs :
      (k : lib.PrivateKey) (m : Bytes)
      → lib.verify_raw (lib.public_key k) (lib.sign_raw k m) m ≡ true

module _ ⦃p : Platform⦄ (lib : Ed25519Library) where
  -- Over a sound library, an authenticator that was built from a private key, given or generated,
  -- and its verifier-only copy verify what the authenticator signs under its key id.
  pub ed25519_sign-verify :
      (sound : IsSound lib) (generated : lib.PrivateKey) (key_id : Str)
      (given : Option lib.PrivateKey) (v : Value) (s : Str)
      → let a = new_ed25519 lib generated key_id given none in
        ed25519_sign lib a v ≡ ok s
        → (ed25519_verify lib a v s key_id ≡ ok true)
          × (ed25519_verify lib (verifier lib a) v s key_id ≡ ok true)
  unfolding new_ed25519 ed25519_sign ed25519_verify verifier
  ed25519_sign-verify sound generated key_id (some k) v s h =
      let (bs, eb) = value_of (canonical_bytes v) (ground arith) in
      let read = from_hex-hex (lib.sign_raw k bs) (sound.bytes k bs) in
      ground (arith, eb, read, sound.signs k bs)
  ed25519_sign-verify sound generated key_id none v s h =
      let (bs, eb) = value_of (canonical_bytes v) (ground arith) in
      let read = from_hex-hex (lib.sign_raw generated bs) (sound.bytes generated bs) in
      ground (arith, eb, read, sound.signs generated bs)

  -- A verification answers on every input, whatever the signature and the value are.
  pub ed25519_verify_answers :
      (a : Ed25519Authenticator lib) (v : Value) (s k : Str)
      → is_ok (ed25519_verify lib a v s k) ≡ true
  unfolding ed25519_verify
  ed25519_verify_answers a v s k = ground arith
