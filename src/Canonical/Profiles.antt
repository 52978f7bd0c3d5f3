-- ===== src/Canonical/Profiles.antt =====
-- The two profiles of canonical.py: what the portable profile accepts, the local one does as well.
use execution_finality_for_a.Prelude.{true, false, [], ◌∷◌, ◌++◌, Dict, ◌≡◌, arith}
use execution_finality_for_a.Errors.{ok, value_of}
use execution_finality_for_a.Platform.{Platform, Bytes}
use execution_finality_for_a.Canonical.{
  Value, Items, Entries, Json, JsonItems, normalize, normalize_items, normalize_entries,
  normalize_int, normalize_bytes, normalize_key, canonical_bytes, portable_canonical_bytes,
}

module _ ⦃p : Platform⦄ where
  mutual
    unfolding normalize normalize_int normalize_bytes

    normalize_portable : (v : Value) (j : Json) → normalize true v ≡ ok j → normalize false v ≡ ok j
    normalize_portable Value.null j h = h
    normalize_portable (Value.bool b) j h = h
    normalize_portable (Value.int n) j h = ground arith
    normalize_portable (Value.float f) j h = h
    normalize_portable (Value.text s) j h = h
    normalize_portable (Value.bytes bs) j h = ground arith
    normalize_portable (Value.list xs) j h =
        let (js, e) = value_of (normalize_items true xs) (ground arith) in
        ground (arith, items_portable xs js e)
    normalize_portable (Value.tuple xs) j h =
        let (js, e) = value_of (normalize_items true xs) (ground arith) in
        ground (arith, items_portable xs js e)
    normalize_portable (Value.dict es) j h =
        let (d, e) = value_of (normalize_entries true es []) (ground arith) in
        ground (arith, entries_portable es [] d e)
    normalize_portable (Value.dataclass es) j h =
        let (d, e) = value_of (normalize_entries true es []) (ground arith) in
        ground (arith, entries_portable es [] d e)
    normalize_portable (Value.other x) j h = h

    items_portable :
        (xs : Items) (js : JsonItems)
        → normalize_items true xs ≡ ok js
        → normalize_items false xs ≡ ok js
    items_portable Items.nil js h = h
    items_portable (Items.cons v vs) js h =
        let (i, ei) = value_of (normalize true v) (ground arith) in
        let (is, es) = value_of (normalize_items true vs) (ground arith) in
        ground (arith, normalize_portable v i ei, items_portable vs is es)

    entries_portable :
        (es : Entries) (out d : Dict Json)
        → normalize_entries true es out ≡ ok d
        → normalize_entries false es out ≡ ok d
    entries_portable Entries.end out d h = h
    entries_portable (Entries.entry key val es) out d h =
        let (k, ek) = value_of (normalize_key key out) (ground arith) in
        let (i, ei) = value_of (normalize true val) (ground arith) in
        let rest : normalize_entries true es (out ++ (k, i) ∷ []) ≡ ok d = ground arith in
        ground (arith, normalize_portable val i ei, entries_portable es (out ++ (k, i) ∷ []) d rest)

  -- The local profile has the same bytes for every value that the portable profile accepts.
  pub canonical_bytes_portable :
      (v : Value) (bs : Bytes) → portable_canonical_bytes v ≡ ok bs → canonical_bytes v ≡ ok bs
  unfolding canonical_bytes portable_canonical_bytes
  canonical_bytes_portable v bs h =
      let (j, ej) = value_of (normalize true v) (ground arith) in
      ground (arith, normalize_portable v j ej)
