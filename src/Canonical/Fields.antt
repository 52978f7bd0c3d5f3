-- ===== src/Canonical/Fields.antt =====
-- A record under digest: equal normal forms have equal normal forms at every field.
use execution_finality_for_a.Prelude.{
  Str, str_eq, Str-discrete, ◌==◌, Dict, lookup, false, List, [], ◌∷◌, ◌++◌, some, none,
  if◌then◌else◌, ◌≡◌, refl, arith, ap, map,
}
use execution_finality_for_a.Errors.{ok, value_of}
use execution_finality_for_a.Platform.{Platform}
use execution_finality_for_a.Canonical.{
  Value, Entries, Json, JsonItems, members, fields, texts, text_lt, insert_sorted, sort_keys,
  normalize, normalize_items, normalize_entries, normalize_key, normalize_text,
}

text_lt_irreflexive : (s : Str) → text_lt s s ≡ false
unfolding text_lt
text_lt_irreflexive [] = refl
text_lt_irreflexive (c ∷ s) = ground (arith, text_lt_irreflexive s)

module _ {A : Type 0} where
  lookup-insert_sorted :
      (k j : Str) (a : A) (es : Dict A)
      → lookup k (insert_sorted j a es) ≡ (if k == j then some a else lookup k es)
  unfolding insert_sorted lookup
  lookup-insert_sorted k j a [] = refl
  lookup-insert_sorted k j a ((l, b) ∷ es) =
      ground (arith, lookup-insert_sorted k j a es, text_lt_irreflexive l)

  -- Sorting a dict does not change what it holds.
  pub lookup-sort_keys : (k : Str) (es : Dict A) → lookup k (sort_keys es) ≡ lookup k es
  unfolding sort_keys lookup
  lookup-sort_keys k [] = refl
  lookup-sort_keys k ((j, a) ∷ es) =
      ground (arith, lookup-insert_sorted k j a (sort_keys es), lookup-sort_keys k es)

  lookup-append :
      (k : Str) (es ds : Dict A) (a : A) → lookup k es ≡ some a → lookup k (es ++ ds) ≡ some a
  unfolding lookup
  lookup-append k [] ds a h = cc
  lookup-append k ((j, b) ∷ es) ds a h = ground (arith, lookup-append k es ds a)

  lookup-snoc :
      (k : Str) (es : Dict A) (a : A) → lookup k es ≡ none → lookup k (es ++ (k, a) ∷ []) ≡ some a
  unfolding lookup
  lookup-snoc k [] a h = ground arith
  lookup-snoc k ((j, b) ∷ es) a h = ground (arith, lookup-snoc k es a)

members_injective : (ds es : Dict Json) → members ds ≡ members es → ds ≡ es
members_injective [] [] h = refl
members_injective [] (_ ∷ es) h = ground arith
members_injective (_ ∷ ds) [] h = ground arith
members_injective ((k, i) ∷ ds) ((l, j) ∷ es) h = ground (arith, members_injective ds es)

module _ ⦃p : Platform⦄ where
  -- The names of the fields are in NFC.
  abbrev pub NamesNormal : List (Str × Value) → Type 0
  NamesNormal [] = Unit
  NamesNormal ((k, _) ∷ es) = (p.nfc k ≡ k) × NamesNormal es

  entries_kept :
      (es : Entries) (out d : Dict Json) (k : Str) (j : Json)
      → normalize_entries false es out ≡ ok d
      → lookup k out ≡ some j
      → lookup k d ≡ some j
  unfolding normalize
  entries_kept Entries.end out d k j h g = ground arith
  entries_kept (Entries.entry key val es) out d k j h g =
      let (l, el) = value_of (normalize_key key out) (ground arith) in
      let (i, ei) = value_of (normalize false val) (ground arith) in
      entries_kept es (out ++ (l, i) ∷ []) d k j (ground arith)
        (lookup-append k out ((l, i) ∷ []) j g)

  fresh_key :
      (k l : Str) (out : Dict Json)
      → normalize_key (Value.text k) out ≡ ok l
      → p.nfc k ≡ k
      → (l ≡ k) × (lookup k out ≡ none)
  unfolding normalize_key
  fresh_key k l out h g = ground arith

  -- The loop over the fields keeps each value's normal form under its name.
  entries_field :
      (es : List (Str × Value)) (out d : Dict Json) (k : Str) (v : Value)
      → NamesNormal es
      → normalize_entries false (fields es) out ≡ ok d
      → lookup k es ≡ some v
      → (j : Json) × (normalize false v ≡ ok j) × (lookup k d ≡ some j)
  unfolding normalize lookup
  entries_field [] out d k v hn h g = cc
  entries_field ((l, w) ∷ es) out d k v (hl, hn) h g =
      let (m, em) = value_of (normalize_key (Value.text l) out) (ground arith) in
      let (i, ei) = value_of (normalize false w) (ground arith) in
      let (same, free) = fresh_key l m out em hl in
      let rest : normalize_entries false (fields es) (out ++ (m, i) ∷ []) ≡ ok d = ground arith in
      elim (Str-discrete k l) [
        | yes here ↦ (
          i,
          ground arith,
          entries_kept (fields es) (out ++ (m, i) ∷ []) d k i rest
              (rw (here, same) (lookup-snoc l out i free)),
        )
        | no there ↦ entries_field es (out ++ (m, i) ∷ []) d k v hn rest (ground arith)
      ]

  -- Two records with the same normal form have the same normal form at every field.
  pub field_agrees :
      (es fs : List (Str × Value)) (k : Str) (v w : Value) (j : Json)
      → NamesNormal es
      → NamesNormal fs
      → normalize false (Value.dataclass (fields es)) ≡ ok j
      → normalize false (Value.dataclass (fields fs)) ≡ ok j
      → lookup k es ≡ some v
      → lookup k fs ≡ some w
      → (i : Json) × (normalize false v ≡ ok i) × (normalize false w ≡ ok i)
  unfolding normalize
  field_agrees es fs k v w j hn hm he hf gv gw =
      let (c, ec) = value_of (normalize_entries false (fields es) []) (ground arith) in
      let (d, ed) = value_of (normalize_entries false (fields fs) []) (ground arith) in
      let same = members_injective (sort_keys c) (sort_keys d) (ground arith) in
      let (a, ea, la) = entries_field es [] c k v hn ec gv in
      let (b, eb, lb) = entries_field fs [] d k w hm ed gw in
      (a, ea, ground (arith, lookup-sort_keys k c, lookup-sort_keys k d, ap (lookup k) same))

  -- Texts, numbers and tuples of texts from their normal forms.
  pub text_agrees :
      (s t : Str) (i : Json)
      → normalize false (Value.text s) ≡ ok i
      → normalize false (Value.text t) ≡ ok i
      → p.nfc s ≡ p.nfc t
  unfolding normalize normalize_text
  text_agrees s t i hs ht = ground arith

  texts_agree :
      (ss ts : List Str) (is : JsonItems)
      → normalize_items false (texts ss) ≡ ok is
      → normalize_items false (texts ts) ≡ ok is
      → map p.nfc ss ≡ map p.nfc ts
  unfolding normalize
  texts_agree [] [] is hs ht = refl
  texts_agree [] (t ∷ ts) is hs ht =
      let (j, ej) = value_of (normalize false (Value.text t)) (ground arith) in
      let (js, ejs) = value_of (normalize_items false (texts ts)) (ground arith) in ground arith
  texts_agree (s ∷ ss) [] is hs ht =
      let (i, ei) = value_of (normalize false (Value.text s)) (ground arith) in
      let (js, ejs) = value_of (normalize_items false (texts ss)) (ground arith) in ground arith
  texts_agree (s ∷ ss) (t ∷ ts) is hs ht =
      let (i, ei) = value_of (normalize false (Value.text s)) (ground arith) in
      let (j, ej) = value_of (normalize false (Value.text t)) (ground arith) in
      let (xs, exs) = value_of (normalize_items false (texts ss)) (ground arith) in
      let (ys, eys) = value_of (normalize_items false (texts ts)) (ground arith) in
      ground (arith, text_agrees s t i ei, texts_agree ss ts xs exs)

  pub tuple_agrees :
      (ss ts : List Str) (i : Json)
      → normalize false (Value.tuple (texts ss)) ≡ ok i
      → normalize false (Value.tuple (texts ts)) ≡ ok i
      → map p.nfc ss ≡ map p.nfc ts
  unfolding normalize
  tuple_agrees ss ts i hs ht =
      let (xs, exs) = value_of (normalize_items false (texts ss)) (ground arith) in
      let (ys, eys) = value_of (normalize_items false (texts ts)) (ground arith) in
      texts_agree ss ts xs exs (ground arith)
