-- ===== src/Programs/Vectors/Fit.antt =====
-- Values that the portable profile encodes and whose text is decoded again: a test that computes, and
-- the dicts of the tables whose keys are not ASCII.
use execution_finality_for_a.Prelude.{
  Str, str, str_eq, contains, Bool, true, false, not, ◌&&◌, List, [], ◌∷◌, ◌++◌, pos, ◌≡◌, refl,
  arith, ℕ_discrete, Str-discrete,
}
use execution_finality_for_a.Platform.{Platform}
use execution_finality_for_a.Canonical.{
  Value, Items, Entries, fields, has_surrogate, is_safe_integer,
}
use execution_finality_for_a.Canonical.Encodable.{Encodable, ItemsEncodable, EntriesEncodable}
use execution_finality_for_a.Canonical.Accepted.{
  HasBytes, ItemsHasBytes, EntriesHasBytes, Portable, ItemsPortable, EntriesPortable,
}
use execution_finality_for_a.Canonical.Inside.{ValueAll, ValuesAll, EntriesAll}
use execution_finality_for_a.Crypto.{is_ascii}
use execution_finality_for_a.Crypto.Documented.{IsDocumented, has_surrogate_ascii}
use execution_finality_for_a.Programs.Vectors.Decoded.{beyond, InRange}

-- What NFC makes of the tables' keys that are not ASCII: it composes the first to a letter, and
-- leaves that letter and the others.
pub record KeysInNfc (p : Platform) : Type 0 where
  pub composed : p.nfc (101 ∷ 769 ∷ []) ≡ 233 ∷ []
  pub letter : p.nfc (233 ∷ []) ≡ 233 ∷ []
  pub emoji : p.nfc (128512 ∷ []) ≡ 128512 ∷ []
  pub private_use : p.nfc (57344 ∷ []) ≡ 57344 ∷ []

abbrev text_fits : Str → Bool
text_fits s = not (has_surrogate s) && not (beyond s)

unfoldable mutual
  pub fits : Value → Bool
  fits Value.null = true
  fits (Value.bool b) = true
  fits (Value.int n) = is_safe_integer n
  fits (Value.text s) = text_fits s
  fits (Value.list xs) = items_fit xs
  fits (Value.dict es) = entries_fit [] es
  fits _ = false

  pub items_fit : Items → Bool
  items_fit Items.nil = true
  items_fit (Items.cons v vs) = fits v && items_fit vs

  -- The names are ASCII, and none is one of `seen` or of those before it.
  pub entries_fit : List Str → Entries → Bool
  entries_fit seen Entries.end = true
  entries_fit seen (Entries.entry (Value.text k) v es) =
      is_ascii k
      && not (contains seen k)
      && not (beyond k)
      && fits v
      && entries_fit (seen ++ k ∷ []) es
  entries_fit seen (Entries.entry _ v es) = false

pub both : (x y : Bool) → (x && y) ≡ true → (x ≡ true) × (y ≡ true)
both true y h = (refl, h)
both false y h = cc h

none_of : (x : Bool) → not x ≡ true → x ≡ false
none_of true h = cc h
none_of false h = refl

entry_parts :
    (seen : List Str) (k : Str) (v : Value) (es : Entries)
    → entries_fit seen (Entries.entry (Value.text k) v es) ≡ true
    → (is_ascii k ≡ true)
      × (contains seen k ≡ false)
      × InRange k
      × (fits v ≡ true)
      × (entries_fit (seen ++ k ∷ []) es ≡ true)
unfolding fits
entry_parts seen k v es h =
    let (start, later) = both _ _ h in
    let (first, now) = both _ _ start in
    let (name, ranged) = both _ _ first in
    let (ascii, unseen) = both _ _ name in
    (ascii, none_of (contains seen k) unseen, none_of (beyond k) ranged, now, later)

module _ ⦃p : Platform⦄ where
  -- The portable profile encodes the value, and its texts are of code points.
  pub record IsAccepted (v : Value) : Type 0 where
    pub encodable : Encodable v
    pub has_bytes : HasBytes v
    pub portable : Portable v
    pub in_range : ValueAll InRange v

  module _ (doc : IsDocumented p) where
    mutual
      unfolding fits Encodable HasBytes Portable ValueAll

      pub fits-IsAccepted : (v : Value) → fits v ≡ true → IsAccepted v
      fits-IsAccepted Value.null h = record {
        encodable = tt;
        has_bytes = tt;
        portable = tt;
        in_range = tt;
      }
      fits-IsAccepted (Value.bool b) h = record {
        encodable = tt;
        has_bytes = tt;
        portable = tt;
        in_range = tt;
      }
      fits-IsAccepted (Value.int n) h = record {
        encodable = tt;
        has_bytes = tt;
        portable = h;
        in_range = tt;
      }
      fits-IsAccepted (Value.text s) h = record {
        encodable = ground arith;
        has_bytes = tt;
        portable = tt;
        in_range = ground arith;
      }
      fits-IsAccepted (Value.list xs) h =
          let (e, b, q, r) = items_accepted xs h in
          record { encodable = e; has_bytes = b; portable = q; in_range = r }
      fits-IsAccepted (Value.dict es) h =
          let (e, b, q, r) = entries_accepted [] es h in
          record { encodable = e; has_bytes = b; portable = q; in_range = r }
      fits-IsAccepted _ h = cc h

      items_accepted :
          (xs : Items)
          → items_fit xs ≡ true
          → ItemsEncodable xs × ItemsHasBytes xs × ItemsPortable xs × ValuesAll InRange xs
      items_accepted Items.nil h = (tt, tt, tt, tt)
      items_accepted (Items.cons v vs) h =
          let (now, later) = both (fits v) (items_fit vs) h in
          let first = fits-IsAccepted v now in
          let (e, b, q, r) = items_accepted vs later in
          ((first.encodable, e), (first.has_bytes, b), (first.portable, q), (first.in_range, r))

      entries_accepted :
          (seen : List Str) (es : Entries)
          → entries_fit seen es ≡ true
          → EntriesEncodable seen es
            × EntriesHasBytes es
            × EntriesPortable es
            × EntriesAll InRange es
      entries_accepted seen Entries.end h = (tt, tt, tt, tt)
      entries_accepted seen (Entries.entry (Value.text k) v es) h =
          let (ascii, unseen, ranged, now, later) = entry_parts seen k v es h in
          let same = doc.fixes k ascii in
          let first = fits-IsAccepted v now in
          let (e, b, q, r) = entries_accepted (seen ++ k ∷ []) es later in
          (
            rw same (has_surrogate_ascii k ascii, unseen, first.encodable, e),
            (first.has_bytes, b),
            (first.portable, q),
            (ranged, first.in_range, r),
          )
      entries_accepted seen (Entries.entry _ v es) h = cc h

    module _ (keys : KeysInNfc p) where
      -- The dicts of the tables with keys that are not ASCII.
      pub decomposed_key-IsAccepted : IsAccepted (
          Value.dict (
            fields (
              (101 ∷ 769 ∷ [], Value.text (99 ∷ 97 ∷ 102 ∷ 101 ∷ 769 ∷ []))
              ∷ (str "plain", Value.text (str "ok"))
              ∷ [])))
      unfolding Encodable HasBytes Portable ValueAll has_surrogate beyond is_ascii Str-discrete
          ℕ_discrete
      decomposed_key-IsAccepted =
          let plain = doc.fixes (str "plain") refl in
          record {
            encodable = (refl, refl, refl, (refl, rw (keys.composed, plain) refl, refl, tt));
            has_bytes = (tt, (tt, tt));
            portable = (tt, (tt, tt));
            in_range = (refl, refl, (refl, refl, tt));
          }

      pub lone_key-IsAccepted :
          IsAccepted (Value.dict (fields ((101 ∷ 769 ∷ [], Value.text (str "value")) ∷ [])))
      unfolding Encodable HasBytes Portable ValueAll has_surrogate beyond
      lone_key-IsAccepted = record {
        encodable = (refl, refl, refl, tt);
        has_bytes = (tt, tt);
        portable = (tt, tt);
        in_range = (refl, refl, tt);
      }

      pub supplementary-IsAccepted : IsAccepted (
          Value.dict (
            fields (
              (128512 ∷ [], Value.int (pos 1))
              ∷ (57344 ∷ [], Value.int (pos 2))
              ∷ (str "A", Value.int (pos 3))
              ∷ [])))
      unfolding Encodable HasBytes Portable ValueAll has_surrogate beyond is_ascii is_safe_integer
          Str-discrete ℕ_discrete
      supplementary-IsAccepted =
          let plain = doc.fixes (str "A") refl in
          record {
            encodable =
                rw (keys.emoji, keys.private_use, plain)
                  (refl, refl, tt, (refl, refl, tt, (refl, refl, tt, tt)));
            has_bytes = (tt, (tt, (tt, tt)));
            portable = (refl, (refl, (refl, tt)));
            in_range = (refl, tt, (refl, tt, (refl, tt, tt)));
          }
