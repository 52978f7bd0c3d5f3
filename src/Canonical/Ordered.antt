-- ===== src/Canonical/Ordered.antt =====
-- `_normalize` returns every dict with its keys in order, so the sort of `json.dumps` changes nothing.
use execution_finality_for_a.Prelude.{
  Str, Dict, Bool, true, false, [], ◌∷◌, ◌++◌, ◌≡◌, refl, arith, Bool-cases, inl, inr,
}
use execution_finality_for_a.Errors.{ok, value_of}
use execution_finality_for_a.Platform.{Platform}
use execution_finality_for_a.Canonical.{
  Value, Items, Entries, Json, JsonItems, Members, members, text_lt, insert_sorted, sort_keys,
  normalize, normalize_items, normalize_entries, normalize_int, normalize_text, normalize_bytes,
  normalize_key,
}

-- The key does not come after the first of the members.
abbrev pub Before : Str → Members → Type 0
Before k Members.end = Unit
Before k (Members.member l _ _) = text_lt l k ≡ false

-- Every dict inside has its keys in order.
unfoldable mutual
  pub Ordered : Json → Type 0
  Ordered (Json.list js) = ItemsOrdered js
  Ordered (Json.dict ms) = MembersOrdered ms
  Ordered _ = Unit

  pub ItemsOrdered : JsonItems → Type 0
  ItemsOrdered JsonItems.nil = Unit
  ItemsOrdered (JsonItems.cons j js) = Ordered j × ItemsOrdered js

  pub MembersOrdered : Members → Type 0
  MembersOrdered Members.end = Unit
  MembersOrdered (Members.member k j ms) = Before k ms × Ordered j × MembersOrdered ms

text_lt_asym : (s t : Str) → text_lt s t ≡ true → text_lt t s ≡ false
unfolding text_lt
text_lt_asym [] [] h = refl
text_lt_asym [] (d ∷ t) h = refl
text_lt_asym (c ∷ s) [] h = cc
text_lt_asym (c ∷ s) (d ∷ t) h = ground (arith, text_lt_asym s t)

Before-insert_sorted :
    (l k : Str) (a : Json) (es : Dict Json)
    → text_lt k l ≡ false
    → Before l (members es)
    → Before l (members (insert_sorted k a es))
unfolding insert_sorted
Before-insert_sorted l k a [] h b = h
Before-insert_sorted l k a ((j, x) ∷ es) h b = ground arith

MembersOrdered-insert_sorted :
    (k : Str) (a : Json) (es : Dict Json)
    → Ordered a
    → MembersOrdered (members es)
    → MembersOrdered (members (insert_sorted k a es))
unfolding insert_sorted Ordered
MembersOrdered-insert_sorted k a [] ha h = (tt, ha, tt)
MembersOrdered-insert_sorted k a ((j, x) ∷ es) ha (b, hx, h) = elim (Bool-cases (text_lt j k)) [
  | inl e ↦ rw e (
    Before-insert_sorted j k a es (text_lt_asym j k e) b,
    hx,
    MembersOrdered-insert_sorted k a es ha h,
  )
  | inr e ↦ rw e (e, ha, (b, hx, h))
]

abbrev AllOrdered : Dict Json → Type 0
AllOrdered [] = Unit
AllOrdered ((_, j) ∷ es) = Ordered j × AllOrdered es

AllOrdered-append : (es ds : Dict Json) → AllOrdered es → AllOrdered ds → AllOrdered (es ++ ds)
AllOrdered-append [] ds h g = g
AllOrdered-append ((k, j) ∷ es) ds (hj, h) g = (hj, AllOrdered-append es ds h g)

MembersOrdered-sort_keys :
    (es : Dict Json) → AllOrdered es → MembersOrdered (members (sort_keys es))
unfolding sort_keys Ordered
MembersOrdered-sort_keys [] h = tt
MembersOrdered-sort_keys ((k, j) ∷ es) (hj, h) =
    MembersOrdered-insert_sorted k j (sort_keys es) hj (MembersOrdered-sort_keys es h)

module _ ⦃p : Platform⦄ where
  mutual
    unfolding normalize normalize_int normalize_text normalize_bytes Ordered

    -- A normalised value has all its dicts in order.
    pub normalize-Ordered : (b : Bool) (v : Value) (j : Json) → normalize b v ≡ ok j → Ordered j
    normalize-Ordered b Value.null j h = ground arith
    normalize-Ordered b (Value.bool x) j h = ground arith
    normalize-Ordered b (Value.int n) j h = ground arith
    normalize-Ordered b (Value.float f) j h = cc
    normalize-Ordered b (Value.text s) j h = ground arith
    normalize-Ordered b (Value.bytes bs) j h = ground arith
    normalize-Ordered b (Value.list xs) j h =
        let (js, e) = value_of (normalize_items b xs) (ground arith) in
        ground (arith, items-Ordered b xs js e)
    normalize-Ordered b (Value.tuple xs) j h =
        let (js, e) = value_of (normalize_items b xs) (ground arith) in
        ground (arith, items-Ordered b xs js e)
    normalize-Ordered b (Value.dict es) j h =
        let (d, e) = value_of (normalize_entries b es []) (ground arith) in
        ground (arith, MembersOrdered-sort_keys d (entries-AllOrdered b es [] d tt e))
    normalize-Ordered b (Value.dataclass es) j h =
        let (d, e) = value_of (normalize_entries b es []) (ground arith) in
        ground (arith, MembersOrdered-sort_keys d (entries-AllOrdered b es [] d tt e))
    normalize-Ordered b (Value.other x) j h = cc

    items-Ordered :
        (b : Bool) (xs : Items) (js : JsonItems) → normalize_items b xs ≡ ok js → ItemsOrdered js
    items-Ordered b Items.nil js h = ground arith
    items-Ordered b (Items.cons v vs) js h =
        let (i, ei) = value_of (normalize b v) (ground arith) in
        let (is, es) = value_of (normalize_items b vs) (ground arith) in
        ground (arith, normalize-Ordered b v i ei, items-Ordered b vs is es)

    entries-AllOrdered :
        (b : Bool) (es : Entries) (out d : Dict Json)
        → AllOrdered out
        → normalize_entries b es out ≡ ok d
        → AllOrdered d
    entries-AllOrdered b Entries.end out d ho h = ground arith
    entries-AllOrdered b (Entries.entry key val es) out d ho h =
        let (k, ek) = value_of (normalize_key key out) (ground arith) in
        let (i, ei) = value_of (normalize b val) (ground arith) in
        entries-AllOrdered b es (out ++ (k, i) ∷ []) d
          (AllOrdered-append out ((k, i) ∷ []) ho (normalize-Ordered b val i ei, tt)) (ground arith)
