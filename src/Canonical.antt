-- ===== src/Canonical.antt =====
-- src/finality_ref/canonical.py: the canonical bytes of a value and their digest. `normalize` is
-- `_normalize` (the deep conversion of `asdict` is made where the walk meets a dataclass), `dump`
-- is `_dump` with the `json.dumps` of its arguments.
pub mod Profiles
pub mod Scalars
pub mod Printed
pub mod Prefix
pub mod Ordered
pub mod Fields
pub mod Injective
pub mod Throughout
pub mod Inside
pub mod Clean
pub mod Encodable
pub mod Accepted
pub mod Described
mod Data
mod Text
unfoldable pub use Data.*
unfoldable pub use Text.*
use execution_finality_for_a.Prelude.{
  ℕ, ◌-◌, ◌^◌, ℤ, pos, pos_part, neg_part, Str, str, Dict, has_key, Bool, true, false, ◌&&◌, not,
  List, [], ◌∷◌, ◌++◌, if◌then◌else◌, leb,
}
use execution_finality_for_a.Errors.{
  Error, Result, ok, err, ◌>>=◌, ◌>>◌, fail_if, CanonicalizationFault,
}
use execution_finality_for_a.Platform.{Platform, Bytes}

abbrev pub max_safe_integer : ℕ
max_safe_integer = 2 ^ 53 - 1

-- -MAX_SAFE_INTEGER <= value <= MAX_SAFE_INTEGER
unfoldable pub is_safe_integer : ℤ → Bool
is_safe_integer n = leb (pos_part n) max_safe_integer && leb (neg_part n) max_safe_integer

abbrev pub canon_error : CanonicalizationFault → Error
canon_error f = Error.canonicalization_error f

-- The key of a dict entry, which must be text.
abbrev pub key_text : Value → Result Str
key_text (Value.text s) = ok s
key_text _ = err (canon_error CanonicalizationFault.key_not_string)

module _ ⦃p : Platform⦄ where
  unfoldable pub normalize_int : Bool → ℤ → Result Json
  unfolding is_safe_integer
  normalize_int portable n = do
    fail_if (portable && not (is_safe_integer n))
        (canon_error CanonicalizationFault.integer_outside_safe_range)
    ok (Json.int n)

  unfoldable pub normalize_text : Str → Result Json
  normalize_text s = do
    fail_if (has_surrogate s) (canon_error CanonicalizationFault.surrogate)
    ok (Json.text (p.nfc s))

  unfoldable pub normalize_bytes : Bool → Bytes → Result Json
  normalize_bytes portable bs = do
    fail_if portable (canon_error CanonicalizationFault.bytes_not_portable)
    ok (Json.dict (Members.member (str "$bytes_hex") (Json.text (hex bs)) Members.end))

  -- The checks on a key before its value is normalised: the normalised key.
  unfoldable pub normalize_key : Value → Dict Json → Result Str
  normalize_key key out = do
    k ← key_text key
    fail_if (has_surrogate k) (canon_error CanonicalizationFault.surrogate_in_key)
    fail_if (has_key (p.nfc k) out) (canon_error CanonicalizationFault.key_collision)
    ok (p.nfc k)

  -- `_normalize`; `normalize_entries` is its loop over `value.items()`, with `out` so far.
  unfoldable mutual
    pub normalize : Bool → Value → Result Json
    normalize portable Value.null = ok Json.null
    normalize portable (Value.bool b) = ok (Json.bool b)
    normalize portable (Value.int n) = normalize_int portable n
    normalize portable (Value.float _) = err (canon_error CanonicalizationFault.float_forbidden)
    normalize portable (Value.text s) = normalize_text s
    normalize portable (Value.bytes bs) = normalize_bytes portable bs
    normalize portable (Value.list xs) = do ok (Json.list (← normalize_items portable xs))
    normalize portable (Value.tuple xs) = do ok (Json.list (← normalize_items portable xs))
    normalize portable (Value.dict es) = do
      ok (Json.dict (members (sort_keys (← normalize_entries portable es []))))
    normalize portable (Value.dataclass es) = do
      ok (Json.dict (members (sort_keys (← normalize_entries portable es []))))
    normalize portable (Value.other _) = err (canon_error CanonicalizationFault.unsupported_type)

    pub normalize_items : Bool → Items → Result JsonItems
    normalize_items portable Items.nil = ok JsonItems.nil
    normalize_items portable (Items.cons v vs) = do
      j ← normalize portable v
      js ← normalize_items portable vs
      ok (JsonItems.cons j js)

    pub normalize_entries : Bool → Entries → Dict Json → Result (Dict Json)
    normalize_entries portable Entries.end out = ok out
    normalize_entries portable (Entries.entry key val es) out = do
      k ← normalize_key key out
      j ← normalize portable val
      normalize_entries portable es (out ++ (k, j) ∷ [])

-- The text between two quotes.
unfoldable pub quoted : Str → Str
quoted s = 34 ∷ (escape s ++ 34 ∷ [])

-- The members of an object from the printed members: `"key":value` joined by commas.
unfoldable pub join_members : List (Str × Str) → Str
unfolding quoted
join_members [] = []
join_members ((k, v) ∷ []) = quoted k ++ b':' ∷ v
join_members ((k, v) ∷ ms) = quoted k ++ b':' ∷ (v ++ b',' ∷ join_members ms)

unfoldable mutual
  -- json.dumps(…, ensure_ascii=False, sort_keys=True, separators=(",", ":"))
  pub dumps : Json → Str
  dumps Json.null = str "null"
  dumps (Json.bool true) = str "true"
  dumps (Json.bool false) = str "false"
  dumps (Json.int n) = decimal n
  dumps (Json.text s) = quoted s
  dumps (Json.list js) = b'[' ∷ (dumps_items js ++ b']' ∷ [])
  dumps (Json.dict ms) = b'{' ∷ (join_members (sort_keys (dumps_members ms)) ++ b'}' ∷ [])

  pub dumps_items : JsonItems → Str
  dumps_items JsonItems.nil = []
  dumps_items (JsonItems.cons j js) = dumps j ++ dumps_rest js

  pub dumps_rest : JsonItems → Str
  dumps_rest JsonItems.nil = []
  dumps_rest (JsonItems.cons j js) = b',' ∷ (dumps j ++ dumps_rest js)

  pub dumps_members : Members → List (Str × Str)
  dumps_members Members.end = []
  dumps_members (Members.member k j ms) = (k, dumps j) ∷ dumps_members ms

-- `_dump`
unfoldable pub dump : Json → Result Bytes
dump j = utf8 (dumps j)

module _ ⦃p : Platform⦄ where
  unfoldable pub canonical_bytes : Value → Result Bytes
  canonical_bytes v = do dump (← normalize false v)

  unfoldable pub portable_canonical_bytes : Value → Result Bytes
  portable_canonical_bytes v = do dump (← normalize true v)

  unfoldable pub sha256_hex : Value → Result Str
  sha256_hex v = do bs ← canonical_bytes v; ok (p.sha256_hexdigest bs)

  unfoldable pub sha256_bytes : Bytes → Str
  sha256_bytes bs = p.sha256_hexdigest bs
