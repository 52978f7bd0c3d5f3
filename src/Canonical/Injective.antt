-- ===== src/Canonical/Injective.antt =====
-- Canonical bytes determine what was encoded: the normal form of the value.
use execution_finality_for_a.Prelude.{
  Str, true, false, [], ◌∷◌, ◌++◌, append_assoc, ◌≡◌, refl, arith, ap, sym, ◌∙◌,
}
use execution_finality_for_a.Errors.{ok, value_of}
use execution_finality_for_a.Platform.{Platform, Bytes}
use execution_finality_for_a.Canonical.{
  Value, Json, JsonItems, Members, insert_sorted, sort_keys, normalize, quoted, join_members, dumps,
  dumps_items, dumps_rest, dumps_members, dump, canonical_bytes,
}
use execution_finality_for_a.Canonical.Scalars.{
  put_escaped, put_escaped-append, escape-put_escaped, decimal-put_int, utf8_injective,
}
use execution_finality_for_a.Canonical.Printed.{put, put_items, put_rest, put_members, put_more}
use execution_finality_for_a.Canonical.Prefix.{put_prefix}
use execution_finality_for_a.Canonical.Ordered.{
  Ordered, ItemsOrdered, MembersOrdered, normalize-Ordered,
}

sort_keys-dumps_members :
    (ms : Members) → MembersOrdered ms → sort_keys (dumps_members ms) ≡ dumps_members ms
unfolding sort_keys insert_sorted dumps Ordered
sort_keys-dumps_members Members.end h = refl
sort_keys-dumps_members (Members.member k j Members.end) h = refl
sort_keys-dumps_members (Members.member k j (Members.member l i ms)) (b, hj, h) =
    rw (sort_keys-dumps_members (Members.member l i ms) h, b) refl

quoted_append : (s r : Str) → quoted s ++ r ≡ 34 ∷ put_escaped s r
unfolding quoted
quoted_append s r = rw (append_assoc, escape-put_escaped) refl

mutual
  unfolding put dumps Ordered join_members

  -- A value in order is printed as `put` writes it.
  dumps-put : (j : Json) (r : Str) → Ordered j → dumps j ++ r ≡ put j r
  dumps-put Json.null r h = refl
  dumps-put (Json.bool true) r h = refl
  dumps-put (Json.bool false) r h = refl
  dumps-put (Json.int n) r h = decimal-put_int n r
  dumps-put (Json.text s) r h = quoted_append s r
  dumps-put (Json.list js) r h = simp (append_assoc, items-put js r h)
  dumps-put (Json.dict ms) r h =
      rw (sort_keys-dumps_members ms h)
        (simp append_assoc (ap (λ (s : Str). 123 ∷ s) (members-put ms r h)))

  items-put :
      (js : JsonItems) (r : Str) → ItemsOrdered js → dumps_items js ++ 93 ∷ r ≡ put_items js r
  items-put JsonItems.nil r h = refl
  items-put (JsonItems.cons j js) r (hj, h) =
      simp (append_assoc, rest-put js r h, dumps-put j (put_rest js r) hj)

  rest-put : (js : JsonItems) (r : Str) → ItemsOrdered js → dumps_rest js ++ 93 ∷ r ≡ put_rest js r
  rest-put JsonItems.nil r h = refl
  rest-put (JsonItems.cons j js) r (hj, h) =
      simp (append_assoc, rest-put js r h, dumps-put j (put_rest js r) hj)

  members-put :
      (ms : Members) (r : Str)
      → MembersOrdered ms
      → join_members (dumps_members ms) ++ 125 ∷ r ≡ put_members ms r
  members-put Members.end r h = refl
  members-put (Members.member k j Members.end) r (_, hj, _) =
      simp (escape-put_escaped, put_escaped-append, dumps-put j (125 ∷ r) hj)
  members-put (Members.member k j (Members.member l i ms)) r (_, hj, h) = simp (
    append_assoc,
    escape-put_escaped,
    put_escaped-append,
    members-put (Members.member l i ms) r h,
    dumps-put j (put_more (Members.member l i ms) r) hj,
  )

-- Values in order with the same text are the same.
dumps_injective : (i j : Json) → Ordered i → Ordered j → dumps i ≡ dumps j → i ≡ j
dumps_injective i j hi hj h =
    (put_prefix i j [] [] tt tt
      (sym (dumps-put i [] hi) ∙ ap (λ (s : Str). s ++ []) h ∙ dumps-put j [] hj)).0

module _ ⦃p : Platform⦄ where
  -- Two values with the same canonical bytes have the same normal form, whatever they are.
  pub canonical_bytes_injective :
      (v w : Value) (b : Bytes)
      → canonical_bytes v ≡ ok b
      → canonical_bytes w ≡ ok b
      → (j : Json) × (normalize false v ≡ ok j) × (normalize false w ≡ ok j)
  unfolding canonical_bytes dump
  canonical_bytes_injective v w b hv hw =
      let (i, ei) = value_of (normalize false v) (ground arith) in
      let (j, ej) = value_of (normalize false w) (ground arith) in
      let same =
        dumps_injective i j (normalize-Ordered false v i ei) (normalize-Ordered false w j ej)
          (utf8_injective (dumps i) (dumps j) b (ground arith) (ground arith)) in
      (i, ei, rw same ej)
