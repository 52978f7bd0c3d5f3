-- ===== src/Canonical/Throughout.antt =====
-- A property of texts: of every text inside a value, and of the JSON that is printed for it.
use execution_finality_for_a.Prelude.{
  ℕ, zero, suc, ◌+◌, ◌/◌, ◌%◌, ltb, ℤ, pos, negsuc, Str, str, true, false, List, [], ◌∷◌, ◌++◌,
  Dict, ◌≡◌, refl, arith,
}
use execution_finality_for_a.Canonical.{
  Json, JsonItems, Members, members, insert_sorted, sort_keys, is_ascii, escape, digits, decimal,
  quoted, join_members, dumps, dumps_items, dumps_rest, dumps_members,
}

pub is_ascii-digits : (f n : ℕ) (r : Str) → is_ascii r ≡ true → is_ascii (digits f n r) ≡ true
unfolding is_ascii digits
is_ascii-digits zero n r h = h
is_ascii-digits (suc f) n r h = ground (arith, is_ascii-digits f (n / 10) ((48 + n % 10) ∷ r))

pub is_ascii-decimal : (n : ℤ) → is_ascii (decimal n) ≡ true
unfolding is_ascii decimal
is_ascii-decimal (pos n) = is_ascii-digits (n + 1) n [] refl
is_ascii-decimal (negsuc n) = is_ascii-digits (n + 2) (n + 1) [] refl

-- The property holds of ASCII, of what is put together from texts that have it, and of their escapes.
pub record IsClosed (Q : Str → Type 0) : Type 0 where
  pub plain : (s : Str) → is_ascii s ≡ true → Q s
  pub append : (s t : Str) → Q s → Q t → Q (s ++ t)
  pub escaped : (s : Str) → Q s → Q (escape s)

module _ (Q : Str → Type 0) where
  unfoldable mutual
    pub JsonAll : Json → Type 0
    JsonAll (Json.text s) = Q s
    JsonAll (Json.list js) = ItemsAll js
    JsonAll (Json.dict ms) = MembersAll ms
    JsonAll _ = Unit

    pub ItemsAll : JsonItems → Type 0
    ItemsAll JsonItems.nil = Unit
    ItemsAll (JsonItems.cons j js) = JsonAll j × ItemsAll js

    pub MembersAll : Members → Type 0
    MembersAll Members.end = Unit
    MembersAll (Members.member k j ms) = Q k × JsonAll j × MembersAll ms

  abbrev PairsAll : List (Str × Str) → Type 0
  PairsAll [] = Unit
  PairsAll ((k, v) ∷ es) = Q k × Q v × PairsAll es

  abbrev pub DictAll : Dict Json → Type 0
  DictAll [] = Unit
  DictAll ((k, j) ∷ es) = Q k × JsonAll j × DictAll es

  PairsAll-insert_sorted :
      (k v : Str) (es : List (Str × Str))
      → Q k
      → Q v
      → PairsAll es
      → PairsAll (insert_sorted k v es)
  unfolding insert_sorted
  PairsAll-insert_sorted k v [] hk hv h = (hk, hv, tt)
  PairsAll-insert_sorted k v ((l, w) ∷ es) hk hv h =
      ground (arith, PairsAll-insert_sorted k v es hk hv)

  PairsAll-sort_keys : (es : List (Str × Str)) → PairsAll es → PairsAll (sort_keys es)
  unfolding sort_keys
  PairsAll-sort_keys [] h = tt
  PairsAll-sort_keys ((k, v) ∷ es) (hk, hv, h) =
      PairsAll-insert_sorted k v (sort_keys es) hk hv (PairsAll-sort_keys es h)

  pub DictAll-snoc :
      (es : Dict Json) (k : Str) (j : Json)
      → DictAll es
      → Q k
      → JsonAll j
      → DictAll (es ++ (k, j) ∷ [])
  DictAll-snoc [] k j h hk hj = (hk, hj, tt)
  DictAll-snoc ((l, i) ∷ es) k j (hl, hi, h) hk hj = (hl, hi, DictAll-snoc es k j h hk hj)

  MembersAll-insert_sorted :
      (k : Str) (j : Json) (es : Dict Json)
      → Q k
      → JsonAll j
      → MembersAll (members es)
      → MembersAll (members (insert_sorted k j es))
  unfolding insert_sorted JsonAll
  MembersAll-insert_sorted k j [] hk hj h = (hk, hj, tt)
  MembersAll-insert_sorted k j ((l, i) ∷ es) hk hj h =
      ground (arith, MembersAll-insert_sorted k j es hk hj)

  pub MembersAll-sort_keys : (es : Dict Json) → DictAll es → MembersAll (members (sort_keys es))
  unfolding sort_keys JsonAll
  MembersAll-sort_keys [] h = tt
  MembersAll-sort_keys ((k, j) ∷ es) (hk, hj, h) =
      MembersAll-insert_sorted k j (sort_keys es) hk hj (MembersAll-sort_keys es h)

module _ (Q : Str → Type 0) (closed : IsClosed Q) where
  quoted-All : (s : Str) → Q s → Q (quoted s)
  unfolding quoted is_ascii
  quoted-All s h =
      closed.append (34 ∷ []) (escape s ++ 34 ∷ []) (closed.plain (34 ∷ []) refl)
        (closed.append (escape s) (34 ∷ []) (closed.escaped s h) (closed.plain (34 ∷ []) refl))

  -- An ASCII character before.
  cons_plain : (c : ℕ) (s : Str) → ltb c 128 ≡ true → Q s → Q (c ∷ s)
  unfolding is_ascii
  cons_plain c s h hs = closed.append (c ∷ []) s (closed.plain (c ∷ []) (ground arith)) hs

  join_members-All : (es : List (Str × Str)) → PairsAll Q es → Q (join_members es)
  unfolding join_members is_ascii
  join_members-All [] h = closed.plain [] refl
  join_members-All ((k, v) ∷ []) (hk, hv, h) =
      closed.append (quoted k) (58 ∷ v) (quoted-All k hk) (cons_plain 58 v refl hv)
  join_members-All ((k, v) ∷ (l, w) ∷ es) (hk, hv, h) =
      closed.append (quoted k) (58 ∷ (v ++ 44 ∷ join_members ((l, w) ∷ es))) (quoted-All k hk) (
        cons_plain 58 (v ++ 44 ∷ join_members ((l, w) ∷ es)) refl (
          closed.append v (44 ∷ join_members ((l, w) ∷ es)) hv
            (cons_plain 44 (join_members ((l, w) ∷ es)) refl (join_members-All ((l, w) ∷ es) h))))

  mutual
    unfolding dumps JsonAll is_ascii

    pub dumps-All : (j : Json) → JsonAll Q j → Q (dumps j)
    dumps-All Json.null h = closed.plain (str "null") refl
    dumps-All (Json.bool true) h = closed.plain (str "true") refl
    dumps-All (Json.bool false) h = closed.plain (str "false") refl
    dumps-All (Json.int n) h = closed.plain (decimal n) (is_ascii-decimal n)
    dumps-All (Json.text s) h = quoted-All s h
    dumps-All (Json.list js) h =
        cons_plain 91 (dumps_items js ++ 93 ∷ []) refl
          (closed.append (dumps_items js) (93 ∷ []) (items-All js h) (closed.plain (93 ∷ []) refl))
    dumps-All (Json.dict ms) h =
        cons_plain 123 (join_members (sort_keys (dumps_members ms)) ++ 125 ∷ []) refl (
          closed.append (join_members (sort_keys (dumps_members ms))) (125 ∷ [])
            (join_members-All (sort_keys (dumps_members ms))
              (PairsAll-sort_keys Q (dumps_members ms) (dumps_members-All ms h)))
            (closed.plain (125 ∷ []) refl))

    items-All : (js : JsonItems) → ItemsAll Q js → Q (dumps_items js)
    items-All JsonItems.nil h = closed.plain [] refl
    items-All (JsonItems.cons j js) (hj, h) =
        closed.append (dumps j) (dumps_rest js) (dumps-All j hj) (rest-All js h)

    rest-All : (js : JsonItems) → ItemsAll Q js → Q (dumps_rest js)
    rest-All JsonItems.nil h = closed.plain [] refl
    rest-All (JsonItems.cons j js) (hj, h) =
        cons_plain 44 (dumps j ++ dumps_rest js) refl
          (closed.append (dumps j) (dumps_rest js) (dumps-All j hj) (rest-All js h))

    dumps_members-All : (ms : Members) → MembersAll Q ms → PairsAll Q (dumps_members ms)
    dumps_members-All Members.end h = tt
    dumps_members-All (Members.member k j ms) (hk, hj, h) =
        (hk, dumps-All j hj, dumps_members-All ms h)
