-- ===== src/Canonical/Inside.antt =====
-- A property of texts that NFC keeps: of the texts of a value, and of what the portable profile makes of it.
use execution_finality_for_a.Prelude.{Str, true, [], ◌∷◌, ◌++◌, Dict, ◌≡◌, refl, arith}
use execution_finality_for_a.Errors.{ok, is_ok}
use execution_finality_for_a.Platform.{Platform}
use execution_finality_for_a.Canonical.{
  Value, Items, Entries, Json, JsonItems, members, sort_keys, normalize, normalize_items,
  normalize_entries, normalize_int, normalize_text, normalize_bytes, normalize_key,
}
use execution_finality_for_a.Canonical.Throughout.{
  JsonAll, ItemsAll, DictAll, DictAll-snoc, MembersAll-sort_keys,
}

module _ (Q : Str → Type 0) where
  unfoldable mutual
    pub ValueAll : Value → Type 0
    ValueAll (Value.text s) = Q s
    ValueAll (Value.list xs) = ValuesAll xs
    ValueAll (Value.tuple xs) = ValuesAll xs
    ValueAll (Value.dict es) = EntriesAll es
    ValueAll (Value.dataclass es) = EntriesAll es
    ValueAll _ = Unit

    pub ValuesAll : Items → Type 0
    ValuesAll Items.nil = Unit
    ValuesAll (Items.cons v vs) = ValueAll v × ValuesAll vs

    pub EntriesAll : Entries → Type 0
    EntriesAll Entries.end = Unit
    EntriesAll (Entries.entry k v es) = ValueAll k × ValueAll v × EntriesAll es

module _ ⦃p : Platform⦄ (Q : Str → Type 0) (keeps : (s : Str) → Q s → Q (p.nfc s)) where
  key_inside :
      (k : Value) (out : Dict Json)
      → ValueAll Q k
      → is_ok (normalize_key k out) ≡ true
      → (n : Str) × (normalize_key k out ≡ ok n) × Q n
  unfolding normalize_key ValueAll
  key_inside (Value.text s) out hs h = (p.nfc s, ground arith, keeps s hs)
  key_inside _ out hs h = cc h

  mutual
    unfolding normalize normalize_int normalize_text normalize_bytes ValueAll JsonAll

    pub normalize_inside :
        (v : Value)
        → ValueAll Q v
        → is_ok (normalize true v) ≡ true
        → (j : Json) × (normalize true v ≡ ok j) × JsonAll Q j
    normalize_inside Value.null hv h = (Json.null, refl, tt)
    normalize_inside (Value.bool b) hv h = (Json.bool b, refl, tt)
    normalize_inside (Value.int n) hv h = (Json.int n, ground arith, tt)
    normalize_inside (Value.float f) hv h = cc h
    normalize_inside (Value.text s) hv h = (Json.text (p.nfc s), ground arith, keeps s hv)
    normalize_inside (Value.bytes bs) hv h = cc h
    normalize_inside (Value.list xs) hv h =
        let (js, e, all) = items_inside xs hv (ground arith) in (Json.list js, ground arith, all)
    normalize_inside (Value.tuple xs) hv h =
        let (js, e, all) = items_inside xs hv (ground arith) in (Json.list js, ground arith, all)
    normalize_inside (Value.dict es) hv h =
        let (d, e, all) = entries_inside es [] hv tt (ground arith) in
        (Json.dict (members (sort_keys d)), ground arith, MembersAll-sort_keys Q d all)
    normalize_inside (Value.dataclass es) hv h =
        let (d, e, all) = entries_inside es [] hv tt (ground arith) in
        (Json.dict (members (sort_keys d)), ground arith, MembersAll-sort_keys Q d all)
    normalize_inside (Value.other x) hv h = cc h

    items_inside :
        (xs : Items)
        → ValuesAll Q xs
        → is_ok (normalize_items true xs) ≡ true
        → (js : JsonItems) × (normalize_items true xs ≡ ok js) × ItemsAll Q js
    items_inside Items.nil hv h = (JsonItems.nil, refl, tt)
    items_inside (Items.cons v vs) (hv, hs) h =
        let (j, ej, aj) = normalize_inside v hv (ground arith) in
        let (js, es, all) = items_inside vs hs (ground arith) in
        (JsonItems.cons j js, ground arith, (aj, all))

    entries_inside :
        (es : Entries) (out : Dict Json)
        → EntriesAll Q es
        → DictAll Q out
        → is_ok (normalize_entries true es out) ≡ true
        → (d : Dict Json) × (normalize_entries true es out ≡ ok d) × DictAll Q d
    entries_inside Entries.end out hv ho h = (out, refl, ho)
    entries_inside (Entries.entry k v es) out (hk, hv, hs) ho h =
        let (n, en, an) = key_inside k out hk (ground arith) in
        let (j, ej, aj) = normalize_inside v hv (ground arith) in
        let (d, ed, ad) =
          entries_inside es (out ++ (n, j) ∷ []) hs (DictAll-snoc Q out n j ho an aj)
            (ground arith) in
        (d, ground arith, ad)
