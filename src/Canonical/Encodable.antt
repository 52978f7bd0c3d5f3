-- ===== src/Canonical/Encodable.antt =====
-- The values that have canonical bytes: no float and no foreign object inside, no surrogate in a text,
-- and no two keys of a dict with one NFC form.
use execution_finality_for_a.Prelude.{
  Str, str, str_eq, contains, Dict, lookup, has_key, true, false, List, [], ◌∷◌, ◌++◌, ◌≡◌, refl,
  arith, ap, sym, ◌∙◌,
}
use execution_finality_for_a.Errors.{ok, is_ok, value_of}
use execution_finality_for_a.Platform.{Platform, Bytes, AllBytes}
use execution_finality_for_a.Canonical.{
  Value, Items, Entries, Json, JsonItems, members, has_surrogate, hex, hex_digit, sort_keys,
  normalize, normalize_items, normalize_entries, normalize_int, normalize_text, normalize_bytes,
  normalize_key, canonical_bytes, sha256_hex,
}
use execution_finality_for_a.Canonical.Clean.{Clean, dump_returns}
use execution_finality_for_a.Canonical.Throughout.{
  JsonAll, ItemsAll, DictAll, DictAll-snoc, MembersAll-sort_keys,
}

-- NFC makes no surrogate.
abbrev pub NfcKeepsClean : Platform → Type 0
NfcKeepsClean p = (s : Str) → Clean s → Clean (p.nfc s)

module _ ⦃p : Platform⦄ where
  unfoldable mutual
    pub Encodable : Value → Type 0
    Encodable (Value.float _) = ⊥
    Encodable (Value.other _) = ⊥
    Encodable (Value.text s) = Clean s
    Encodable (Value.bytes bs) = AllBytes bs
    Encodable (Value.list xs) = ItemsEncodable xs
    Encodable (Value.tuple xs) = ItemsEncodable xs
    Encodable (Value.dict es) = EntriesEncodable [] es
    Encodable (Value.dataclass es) = EntriesEncodable [] es
    Encodable _ = Unit

    pub ItemsEncodable : Items → Type 0
    ItemsEncodable Items.nil = Unit
    ItemsEncodable (Items.cons v vs) = Encodable v × ItemsEncodable vs

    -- The keys are texts, and none has the NFC form of one of `seen` or of a key before it.
    pub EntriesEncodable : List Str → Entries → Type 0
    EntriesEncodable seen Entries.end = Unit
    EntriesEncodable seen (Entries.entry (Value.text k) v es) =
        Clean k
        × (contains seen (p.nfc k) ≡ false)
        × Encodable v
        × EntriesEncodable (seen ++ p.nfc k ∷ []) es
    EntriesEncodable seen (Entries.entry _ v es) = ⊥

abbrev pub keys : Dict Json → List Str
keys [] = []
keys ((k, _) ∷ es) = k ∷ keys es

pub has_key-keys : (k : Str) (es : Dict Json) → has_key k es ≡ contains (keys es) k
unfolding lookup
has_key-keys k [] = refl
has_key-keys k ((j, v) ∷ es) = ground (arith, has_key-keys k es)

pub keys-snoc : (es : Dict Json) (k : Str) (j : Json) → keys (es ++ (k, j) ∷ []) ≡ keys es ++ k ∷ []
keys-snoc [] k j = refl
keys-snoc ((l, i) ∷ es) k j = ap (λ (ks : List Str). l ∷ ks) (keys-snoc es k j)

Clean-hex : (bs : Bytes) → AllBytes bs → Clean (hex bs)
unfolding has_surrogate hex hex_digit
Clean-hex [] h = refl
Clean-hex (b ∷ bs) h = ground (arith, Clean-hex bs h.1)

Clean-tag : Clean (str "$bytes_hex")
unfolding has_surrogate
Clean-tag = refl

module _ ⦃p : Platform⦄ (keeps : NfcKeepsClean p) where
  key_returns :
      (k : Str) (seen : List Str) (out : Dict Json)
      → seen ≡ keys out
      → Clean k
      → contains seen (p.nfc k) ≡ false
      → normalize_key (Value.text k) out ≡ ok (p.nfc k)
  unfolding normalize_key
  key_returns k seen out e hk fresh = ground (arith, has_key-keys (p.nfc k) out)

  mutual
    unfolding normalize normalize_int normalize_text normalize_bytes Encodable JsonAll

    normalize_returns :
        (v : Value) → Encodable v → (j : Json) × (normalize false v ≡ ok j) × JsonAll Clean j
    normalize_returns Value.null h = (Json.null, refl, tt)
    normalize_returns (Value.bool b) h = (Json.bool b, refl, tt)
    normalize_returns (Value.int n) h = (Json.int n, refl, tt)
    normalize_returns (Value.float f) h = absurd h
    normalize_returns (Value.text s) h = (Json.text (p.nfc s), ground arith, keeps s h)
    normalize_returns (Value.bytes bs) h = (_, refl, (Clean-tag, Clean-hex bs h, tt))
    normalize_returns (Value.list xs) h =
        let (js, e, clean) = items_return xs h in (Json.list js, ground arith, clean)
    normalize_returns (Value.tuple xs) h =
        let (js, e, clean) = items_return xs h in (Json.list js, ground arith, clean)
    normalize_returns (Value.dict es) h =
        let (d, e, clean) = entries_return es [] [] refl tt h in
        (Json.dict (members (sort_keys d)), ground arith, MembersAll-sort_keys Clean d clean)
    normalize_returns (Value.dataclass es) h =
        let (d, e, clean) = entries_return es [] [] refl tt h in
        (Json.dict (members (sort_keys d)), ground arith, MembersAll-sort_keys Clean d clean)
    normalize_returns (Value.other x) h = absurd h

    items_return :
        (xs : Items)
        → ItemsEncodable xs
        → (js : JsonItems) × (normalize_items false xs ≡ ok js) × ItemsAll Clean js
    items_return Items.nil h = (JsonItems.nil, refl, tt)
    items_return (Items.cons v vs) (hv, h) =
        let (i, ei, ci) = normalize_returns v hv in
        let (is, es, cs) = items_return vs h in (JsonItems.cons i is, ground arith, (ci, cs))

    entries_return :
        (es : Entries) (seen : List Str) (out : Dict Json)
        → seen ≡ keys out
        → DictAll Clean out
        → EntriesEncodable seen es
        → (d : Dict Json) × (normalize_entries false es out ≡ ok d) × DictAll Clean d
    entries_return Entries.end seen out e ho h = (out, refl, ho)
    entries_return (Entries.entry (Value.text k) v es) seen out e ho (hk, fresh, hv, h) =
        let (i, ei, ci) = normalize_returns v hv in
        let ek = key_returns k seen out e hk fresh in
        let grown : seen ++ p.nfc k ∷ [] ≡ keys (out ++ (p.nfc k, i) ∷ []) =
          ap (λ (ks : List Str). ks ++ p.nfc k ∷ []) e ∙ sym (keys-snoc out (p.nfc k) i) in
        let (d, ed, cd) =
          entries_return es (seen ++ p.nfc k ∷ []) (out ++ (p.nfc k, i) ∷ []) grown
            (DictAll-snoc Clean out (p.nfc k) i ho (keeps k hk) ci) h in
        (d, ground arith, cd)
    entries_return (Entries.entry _ v es) seen out e ho h = absurd h

  -- Where NFC makes no surrogate, an encodable value has canonical bytes.
  pub canonical_bytes_returns : (v : Value) → Encodable v → is_ok (canonical_bytes v) ≡ true
  unfolding canonical_bytes
  canonical_bytes_returns v h =
      let (j, ej, clean) = normalize_returns v h in ground (arith, dump_returns j clean)

  pub sha256_hex_returns : (v : Value) → Encodable v → (d : Str) × (sha256_hex v ≡ ok d)
  unfolding sha256_hex
  sha256_hex_returns v h =
      let (bs, e) = value_of (canonical_bytes v) (canonical_bytes_returns v h) in
      (p.sha256_hexdigest bs, ground arith)
