-- ===== src/Canonical/Described.antt =====
-- The values that a profile accepts, described by their code points, keys and integers alone.
use execution_finality_for_a.Prelude.{
  ◌<◌, Str, str_eq, contains, contains_iff, ℤ, pos, negsuc, ◌≤ℤ◌, true, false, List, [], ◌∷◌, ◌++◌,
  Elem, ◌≡◌, ◌↔◌, ◌⊎◌, inl, inr, refl, arith, Bool-cases,
}
use execution_finality_for_a.Errors.{is_ok}
use execution_finality_for_a.Platform.{Platform, AllBytes}
use execution_finality_for_a.Canonical.{
  Value, Items, Entries, is_safe_integer, has_surrogate, canonical_bytes, portable_canonical_bytes,
}
use execution_finality_for_a.Canonical.Clean.{Clean}
use execution_finality_for_a.Canonical.Encodable.{
  NfcKeepsClean, Encodable, ItemsEncodable, EntriesEncodable,
}
use execution_finality_for_a.Canonical.Accepted.{
  HasBytes, Portable, ItemsPortable, EntriesPortable, accepted_iff,
}

-- Every code point is below the surrogates, U+D800 to U+DFFF, or above them.
abbrev pub Scalars : Str → Type 0
Scalars [] = Unit
Scalars (c ∷ s) = ((c < 55296) ⊎ (57343 < c)) × Scalars s

-- The integers that a double holds exactly, -(2^53 - 1) to 2^53 - 1.
unfoldable mutual
  pub SafeIntegers : Value → Type 0
  SafeIntegers (Value.int n) = (negsuc 9007199254740990 ≤ℤ n) × (n ≤ℤ pos 9007199254740991)
  SafeIntegers (Value.bytes bs) = ⊥
  SafeIntegers (Value.list xs) = ItemsSafe xs
  SafeIntegers (Value.tuple xs) = ItemsSafe xs
  SafeIntegers (Value.dict es) = EntriesSafe es
  SafeIntegers (Value.dataclass es) = EntriesSafe es
  SafeIntegers _ = Unit

  pub ItemsSafe : Items → Type 0
  ItemsSafe Items.nil = Unit
  ItemsSafe (Items.cons v vs) = SafeIntegers v × ItemsSafe vs

  pub EntriesSafe : Entries → Type 0
  EntriesSafe Entries.end = Unit
  EntriesSafe (Entries.entry _ v es) = SafeIntegers v × EntriesSafe es

module _ ⦃p : Platform⦄ where
  -- No float and no foreign object; texts of scalars; and the keys of a dict are texts whose NFC forms
  -- are all different.
  unfoldable mutual
    pub Described : Value → Type 0
    Described (Value.float _) = ⊥
    Described (Value.other _) = ⊥
    Described (Value.text s) = Scalars s
    Described (Value.bytes bs) = AllBytes bs
    Described (Value.list xs) = ItemsDescribed xs
    Described (Value.tuple xs) = ItemsDescribed xs
    Described (Value.dict es) = EntriesDescribed [] es
    Described (Value.dataclass es) = EntriesDescribed [] es
    Described _ = Unit

    pub ItemsDescribed : Items → Type 0
    ItemsDescribed Items.nil = Unit
    ItemsDescribed (Items.cons v vs) = Described v × ItemsDescribed vs

    pub EntriesDescribed : List Str → Entries → Type 0
    EntriesDescribed seen Entries.end = Unit
    EntriesDescribed seen (Entries.entry (Value.text k) v es) =
        Scalars k
        × (¬ (Elem (p.nfc k) seen))
        × Described v
        × EntriesDescribed (seen ++ p.nfc k ∷ []) es
    EntriesDescribed seen (Entries.entry _ v es) = ⊥

Scalars-Clean : (s : Str) → Scalars s → Clean s
unfolding has_surrogate
Scalars-Clean [] h = refl
Scalars-Clean (c ∷ s) (hc, h) = ground (arith, Scalars-Clean s h, hc)

Clean-Scalars : (s : Str) → Clean s → Scalars s
unfolding has_surrogate
Clean-Scalars [] h = tt
Clean-Scalars (c ∷ s) h = (ground arith, Clean-Scalars s (ground arith))

unseen : (seen : List Str) (k : Str) → ¬ (Elem k seen) → contains seen k ≡ false
unseen seen k h = elim (Bool-cases (contains seen k)) [
  | inl there ↦ absurd (h ((contains_iff seen k).0 there))
  | inr free ↦ free
]

apart : (seen : List Str) (k : Str) → contains seen k ≡ false → ¬ (Elem k seen)
apart seen k h among = ground (arith, (contains_iff seen k).1 among, h)

module _ ⦃p : Platform⦄ where
  mutual
    unfolding Described Encodable

    described_encodable : (v : Value) → Described v → Encodable v
    described_encodable (Value.float _) h = h
    described_encodable (Value.other _) h = h
    described_encodable (Value.text s) h = Scalars-Clean s h
    described_encodable (Value.bytes bs) h = h
    described_encodable (Value.list xs) h = described_items xs h
    described_encodable (Value.tuple xs) h = described_items xs h
    described_encodable (Value.dict es) h = described_entries [] es h
    described_encodable (Value.dataclass es) h = described_entries [] es h
    described_encodable Value.null h = tt
    described_encodable (Value.bool _) h = tt
    described_encodable (Value.int _) h = tt

    described_items : (xs : Items) → ItemsDescribed xs → ItemsEncodable xs
    described_items Items.nil h = tt
    described_items (Items.cons v vs) (hv, h) = (described_encodable v hv, described_items vs h)

    described_entries :
        (seen : List Str) (es : Entries) → EntriesDescribed seen es → EntriesEncodable seen es
    described_entries seen Entries.end h = tt
    described_entries seen (Entries.entry (Value.text k) v es) (hk, new, hv, h) = (
      Scalars-Clean k hk,
      unseen seen (p.nfc k) new,
      described_encodable v hv,
      described_entries (seen ++ p.nfc k ∷ []) es h,
    )
    described_entries seen (Entries.entry _ v es) h = absurd h

  mutual
    unfolding Described Encodable

    encodable-Described : (v : Value) → Encodable v → Described v
    encodable-Described (Value.float _) h = h
    encodable-Described (Value.other _) h = h
    encodable-Described (Value.text s) h = Clean-Scalars s h
    encodable-Described (Value.bytes bs) h = h
    encodable-Described (Value.list xs) h = encodable_items xs h
    encodable-Described (Value.tuple xs) h = encodable_items xs h
    encodable-Described (Value.dict es) h = encodable_entries [] es h
    encodable-Described (Value.dataclass es) h = encodable_entries [] es h
    encodable-Described Value.null h = tt
    encodable-Described (Value.bool _) h = tt
    encodable-Described (Value.int _) h = tt

    encodable_items : (xs : Items) → ItemsEncodable xs → ItemsDescribed xs
    encodable_items Items.nil h = tt
    encodable_items (Items.cons v vs) (hv, h) = (encodable-Described v hv, encodable_items vs h)

    encodable_entries :
        (seen : List Str) (es : Entries) → EntriesEncodable seen es → EntriesDescribed seen es
    encodable_entries seen Entries.end h = tt
    encodable_entries seen (Entries.entry (Value.text k) v es) (hk, new, hv, h) = (
      Clean-Scalars k hk,
      apart seen (p.nfc k) new,
      encodable-Described v hv,
      encodable_entries (seen ++ p.nfc k ∷ []) es h,
    )
    encodable_entries seen (Entries.entry _ v es) h = absurd h

safe_integer_iff :
    (n : ℤ)
    → (is_safe_integer n ≡ true) ↔ ((negsuc 9007199254740990 ≤ℤ n) × (n ≤ℤ pos 9007199254740991))
unfolding is_safe_integer
safe_integer_iff n = ground arith

mutual
  unfolding SafeIntegers Portable

  safe-Portable : (v : Value) → (SafeIntegers v ↔ Portable v)
  safe-Portable (Value.int n) = ((safe_integer_iff n).1, (safe_integer_iff n).0)
  safe-Portable (Value.list xs) = safe_items xs
  safe-Portable (Value.tuple xs) = safe_items xs
  safe-Portable (Value.dict es) = safe_entries es
  safe-Portable (Value.dataclass es) = safe_entries es
  safe-Portable _ = (λ h. h, λ h. h)

  safe_items : (xs : Items) → (ItemsSafe xs ↔ ItemsPortable xs)
  safe_items Items.nil = (λ h. h, λ h. h)
  safe_items (Items.cons v vs) =
      let (to, back) = safe-Portable v in
      let (all_to, all_back) = safe_items vs in
      (λ h. (to h.0, all_to h.1), λ h. (back h.0, all_back h.1))

  safe_entries : (es : Entries) → (EntriesSafe es ↔ EntriesPortable es)
  safe_entries Entries.end = (λ h. h, λ h. h)
  safe_entries (Entries.entry _ v es) =
      let (to, back) = safe-Portable v in
      let (all_to, all_back) = safe_entries es in
      (λ h. (to h.0, all_to h.1), λ h. (back h.0, all_back h.1))

module _ ⦃p : Platform⦄ where
  -- Where NFC makes no surrogate: the local profile gives bytes exactly for values without a float and
  -- a foreign object, whose texts have no code point from U+D800 to U+DFFF, and whose dicts have text
  -- keys with different NFC forms; the portable profile exactly for those that have no bytes and no
  -- integer outside -(2^53 - 1) to 2^53 - 1 besides.
  pub Described-iff :
      NfcKeepsClean p
      → (v : Value) → HasBytes v
      → ((is_ok (canonical_bytes v) ≡ true) ↔ Described v)
        × ((is_ok (portable_canonical_bytes v) ≡ true) ↔ (Described v × SafeIntegers v))
  Described-iff keeps v b =
      let ((local_to, local_back), (portable_to, portable_back)) = accepted_iff keeps v b in
      let (safe_to, safe_back) = safe-Portable v in
      (
        (λ h. encodable-Described v (local_to h), λ h. local_back (described_encodable v h)),
        (
          λ h. let (e, q) = portable_to h in (encodable-Described v e, safe_back q),
          λ h. portable_back (described_encodable v h.0, safe_to h.1),
        ),
      )
