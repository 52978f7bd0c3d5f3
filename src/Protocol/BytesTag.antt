-- ===== src/Protocol/BytesTag.antt =====
-- canonical.py, line 38: what the tag of a bytes value makes of an act's digest.
use execution_finality_for_a.Prelude.{str, str_eq, true, false, [], ◌∷◌, lookup, ◌≡◌, refl, arith}
use execution_finality_for_a.Platform.{Platform, Bytes, AllBytes}
use execution_finality_for_a.Canonical.{
  Value, fields, hex, hex_digit, has_surrogate, sort_keys, insert_sorted, normalize, normalize_text,
  normalize_bytes, normalize_key, canonical_bytes, sha256_hex,
}
use execution_finality_for_a.Models.{CandidateAct, payload_digest}
use execution_finality_for_a.Crypto.{is_ascii}
use execution_finality_for_a.Crypto.Laws.{NfcFixesAscii}
use execution_finality_for_a.Crypto.Documented.{has_surrogate_ascii}

-- The dictionary that a bytes value is normalised to.
abbrev pub tagged : Bytes → Value
tagged bs = Value.dict (fields ((str "$bytes_hex", Value.text (hex bs)) ∷ []))

pub is_ascii-hex : (bs : Bytes) → AllBytes bs → is_ascii (hex bs) ≡ true
unfolding is_ascii hex hex_digit
is_ascii-hex [] h = refl
is_ascii-hex (b ∷ bs) h = ground (arith, is_ascii-hex bs h.1)

tag_ascii : is_ascii (str "$bytes_hex") ≡ true
unfolding is_ascii
tag_ascii = refl

module _ ⦃p : Platform⦄ where
  normalize-tagged :
      (bs : Bytes)
      → NfcFixesAscii p
      → AllBytes bs
      → normalize false (tagged bs) ≡ normalize false (Value.bytes bs)
  unfolding normalize normalize_text normalize_bytes normalize_key has_surrogate sort_keys
      insert_sorted lookup
  normalize-tagged bs fixes bytes =
      rw
        (
          fixes (str "$bytes_hex") tag_ascii,
          has_surrogate_ascii (hex bs) (is_ascii-hex bs bytes),
          fixes (hex bs) (is_ascii-hex bs bytes),
        )
        refl

  -- Where NFC leaves ASCII text as it is, a payload of bytes (numbers below 256) and the payload
  -- that is the dictionary `{"$bytes_hex": …}` of its hexadecimal text have one canonical form and
  -- one digest.
  pub payload_digest-tagged :
      (bs : Bytes) (c : CandidateAct)
      → NfcFixesAscii p
      → AllBytes bs
      → (canonical_bytes (tagged bs) ≡ canonical_bytes (Value.bytes bs))
        × (payload_digest (record c { payload = tagged bs })
            ≡ payload_digest (record c { payload = Value.bytes bs }))
  unfolding payload_digest sha256_hex canonical_bytes
  payload_digest-tagged bs c fixes bytes =
      let same = normalize-tagged bs fixes bytes in (rw same, rw same)
