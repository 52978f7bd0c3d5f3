-- ===== src/Canonical/Accepted.antt =====
-- Exactly which values the two profiles accept.
use execution_finality_for_a.Prelude.{
  Str, str_eq, contains, Dict, true, false, List, [], ◌∷◌, ◌++◌, ◌≡◌, ◌↔◌, inl, inr, refl, arith,
  ap, sym, ◌∙◌,
}
use execution_finality_for_a.Errors.{ok, is_ok, value_of, Result-cases}
use execution_finality_for_a.Platform.{Platform, AllBytes}
use execution_finality_for_a.Canonical.{
  Value, Items, Entries, Json, is_safe_integer, normalize, normalize_items, normalize_entries,
  normalize_int, normalize_text, normalize_bytes, normalize_key, canonical_bytes,
  portable_canonical_bytes,
}
use execution_finality_for_a.Canonical.Clean.{Clean}
use execution_finality_for_a.Canonical.Encodable.{
  NfcKeepsClean, Encodable, ItemsEncodable, EntriesEncodable, keys, has_key-keys, keys-snoc,
  canonical_bytes_returns,
}

-- A bytes value holds bytes.
unfoldable mutual
  pub HasBytes : Value → Type 0
  HasBytes (Value.bytes bs) = AllBytes bs
  HasBytes (Value.list xs) = ItemsHasBytes xs
  HasBytes (Value.tuple xs) = ItemsHasBytes xs
  HasBytes (Value.dict es) = EntriesHasBytes es
  HasBytes (Value.dataclass es) = EntriesHasBytes es
  HasBytes _ = Unit

  pub ItemsHasBytes : Items → Type 0
  ItemsHasBytes Items.nil = Unit
  ItemsHasBytes (Items.cons v vs) = HasBytes v × ItemsHasBytes vs

  pub EntriesHasBytes : Entries → Type 0
  EntriesHasBytes Entries.end = Unit
  EntriesHasBytes (Entries.entry _ v es) = HasBytes v × EntriesHasBytes es

-- What the portable profile asks beyond the local one: no bytes, and integers within the safe range.
unfoldable mutual
  pub Portable : Value → Type 0
  Portable (Value.int n) = is_safe_integer n ≡ true
  Portable (Value.bytes bs) = ⊥
  Portable (Value.list xs) = ItemsPortable xs
  Portable (Value.tuple xs) = ItemsPortable xs
  Portable (Value.dict es) = EntriesPortable es
  Portable (Value.dataclass es) = EntriesPortable es
  Portable _ = Unit

  pub ItemsPortable : Items → Type 0
  ItemsPortable Items.nil = Unit
  ItemsPortable (Items.cons v vs) = Portable v × ItemsPortable vs

  pub EntriesPortable : Entries → Type 0
  EntriesPortable Entries.end = Unit
  EntriesPortable (Entries.entry _ v es) = Portable v × EntriesPortable es

module _ ⦃p : Platform⦄ where
  key_accepted :
      (k : Str) (seen : List Str) (out : Dict Json) (n : Str)
      → seen ≡ keys out
      → normalize_key (Value.text k) out ≡ ok n
      → Clean k × (contains seen (p.nfc k) ≡ false) × (n ≡ p.nfc k)
  unfolding normalize_key
  key_accepted k seen out n e h = ground (arith, has_key-keys (p.nfc k) out)

  mutual
    unfolding normalize normalize_text normalize_key Encodable HasBytes

    accepted-Encodable : (v : Value) → HasBytes v → is_ok (normalize false v) ≡ true → Encodable v
    accepted-Encodable Value.null b h = tt
    accepted-Encodable (Value.bool x) b h = tt
    accepted-Encodable (Value.int n) b h = tt
    accepted-Encodable (Value.float f) b h = cc h
    accepted-Encodable (Value.text s) b h = ground arith
    accepted-Encodable (Value.bytes bs) b h = b
    accepted-Encodable (Value.list xs) b h = items_accepted xs b (ground arith)
    accepted-Encodable (Value.tuple xs) b h = items_accepted xs b (ground arith)
    accepted-Encodable (Value.dict es) b h = entries_accepted es [] [] refl b (ground arith)
    accepted-Encodable (Value.dataclass es) b h = entries_accepted es [] [] refl b (ground arith)
    accepted-Encodable (Value.other x) b h = cc h

    items_accepted :
        (xs : Items)
        → ItemsHasBytes xs
        → is_ok (normalize_items false xs) ≡ true
        → ItemsEncodable xs
    items_accepted Items.nil b h = tt
    items_accepted (Items.cons v vs) (bv, b) h =
        (accepted-Encodable v bv (ground arith), items_accepted vs b (ground arith))

    entries_accepted :
        (es : Entries) (seen : List Str) (out : Dict Json)
        → seen ≡ keys out
        → EntriesHasBytes es
        → is_ok (normalize_entries false es out) ≡ true
        → EntriesEncodable seen es
    entries_accepted Entries.end seen out e b h = tt
    entries_accepted (Entries.entry (Value.text k) v es) seen out e (bv, b) h =
        let (n, en) = value_of (normalize_key (Value.text k) out) (ground arith) in
        let (i, ei) = value_of (normalize false v) (ground arith) in
        let (clean, fresh, same) = key_accepted k seen out n e en in
        let grown : seen ++ p.nfc k ∷ [] ≡ keys (out ++ (n, i) ∷ []) =
          rw same
            (ap (λ (ks : List Str). ks ++ p.nfc k ∷ []) e ∙ sym (keys-snoc out (p.nfc k) i)) in
        (
          clean,
          fresh,
          accepted-Encodable v bv (ground arith),
          entries_accepted es (seen ++ p.nfc k ∷ []) (out ++ (n, i) ∷ []) grown b (ground arith),
        )
    entries_accepted (Entries.entry _ v es) seen out e b h = cc h

  mutual
    unfolding normalize normalize_int normalize_text normalize_bytes Portable

    accepted-Portable : (v : Value) → is_ok (normalize true v) ≡ true → Portable v
    accepted-Portable (Value.int n) h = ground arith
    accepted-Portable (Value.bytes bs) h = cc h
    accepted-Portable (Value.list xs) h = items_portable xs (ground arith)
    accepted-Portable (Value.tuple xs) h = items_portable xs (ground arith)
    accepted-Portable (Value.dict es) h = entries_portable es [] (ground arith)
    accepted-Portable (Value.dataclass es) h = entries_portable es [] (ground arith)
    accepted-Portable _ h = tt

    items_portable : (xs : Items) → is_ok (normalize_items true xs) ≡ true → ItemsPortable xs
    items_portable Items.nil h = tt
    items_portable (Items.cons v vs) h =
        (accepted-Portable v (ground arith), items_portable vs (ground arith))

    entries_portable :
        (es : Entries) (out : Dict Json)
        → is_ok (normalize_entries true es out) ≡ true
        → EntriesPortable es
    entries_portable Entries.end out h = tt
    entries_portable (Entries.entry key v es) out h =
        let (k, ek) = value_of (normalize_key key out) (ground arith) in
        let (j, ej) = value_of (normalize true v) (ground arith) in
        (
          accepted-Portable v (ground arith),
          entries_portable es (out ++ (k, j) ∷ []) (ground arith),
        )

  mutual
    unfolding normalize normalize_int normalize_text normalize_bytes Portable

    profiles_agree : (v : Value) → Portable v → normalize true v ≡ normalize false v
    profiles_agree (Value.int n) h = ground arith
    profiles_agree (Value.bytes bs) h = absurd h
    profiles_agree (Value.list xs) h = rw (items_agree xs h) refl
    profiles_agree (Value.tuple xs) h = rw (items_agree xs h) refl
    profiles_agree (Value.dict es) h = rw (entries_agree es [] h) refl
    profiles_agree (Value.dataclass es) h = rw (entries_agree es [] h) refl
    profiles_agree Value.null h = refl
    profiles_agree (Value.bool b) h = refl
    profiles_agree (Value.float f) h = refl
    profiles_agree (Value.text s) h = refl
    profiles_agree (Value.other x) h = refl

    items_agree :
        (xs : Items) → ItemsPortable xs → normalize_items true xs ≡ normalize_items false xs
    items_agree Items.nil h = refl
    items_agree (Items.cons v vs) (hv, h) = rw (profiles_agree v hv, items_agree vs h) refl

    entries_agree :
        (es : Entries) (out : Dict Json)
        → EntriesPortable es
        → normalize_entries true es out ≡ normalize_entries false es out
    entries_agree Entries.end out h = refl
    entries_agree (Entries.entry key v es) out (hv, h) =
        elim (Result-cases (normalize_key key out)) [
          | inr (x, ex) ↦ rw ex refl
          | inl (k, ek) ↦ elim (Result-cases (normalize false v)) [
            | inr (x, ex) ↦ ground (arith, profiles_agree v hv, ek, ex)
            | inl (j, ej) ↦
                ground (arith, profiles_agree v hv, ek, ej, entries_agree es (out ++ (k, j) ∷ []) h)
          ]
        ]

  -- Where NFC makes no surrogate: the local profile gives bytes for exactly the values, of bytes that
  -- are bytes, in which no float, foreign object or surrogate stands, and the keys of a dict are
  -- texts, no two with one NFC form; the portable profile for exactly those of them without bytes and with integers within
  -- the safe range.
  pub accepted_iff :
      NfcKeepsClean p
      → (v : Value) → HasBytes v
      → ((is_ok (canonical_bytes v) ≡ true) ↔ Encodable v)
        × ((is_ok (portable_canonical_bytes v) ≡ true) ↔ (Encodable v × Portable v))
  unfolding canonical_bytes portable_canonical_bytes
  accepted_iff keeps v b =
      let local : is_ok (canonical_bytes v) ≡ true → Encodable v =
        λ h. accepted-Encodable v b (ground arith) in
      (
        (local, canonical_bytes_returns keeps v),
        (
          λ h.
              let portable = accepted-Portable v (ground arith) in
              (local (ground (arith, profiles_agree v portable)), portable),
          λ (e, q). ground (arith, profiles_agree v q, canonical_bytes_returns keeps v e),
        ),
      )
