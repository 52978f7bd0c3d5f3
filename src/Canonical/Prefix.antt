-- ===== src/Canonical/Prefix.antt =====
-- The JSON text of a normalised value is a prefix code.
use execution_finality_for_a.Prelude.{Str, true, false, ◌∷◌, ◌≡◌, sym, arith}
use execution_finality_for_a.Canonical.{Json, JsonItems, Members}
use execution_finality_for_a.Canonical.Scalars.{Ends, put_int_prefix, put_escaped_prefix}
use execution_finality_for_a.Canonical.Printed.{
  put, put_items, put_rest, put_members, put_more, same_shape, not_closed, Ends-put_rest,
  Ends-put_more,
}

-- A value and the values behind it, each told from the front of what is left.
cons_prefix :
    {i j : Json} {is js : JsonItems} {a b x y : Str}
    → (i ≡ j) × (a ≡ b)
    → (a ≡ b → (is ≡ js) × (x ≡ y))
    → (JsonItems.cons i is ≡ JsonItems.cons j js) × (x ≡ y)
cons_prefix (same, rest) next = ground (arith, next rest)

member_prefix :
    {k l : Str} {i j : Json} {ms ns : Members} {a b c d x y : Str}
    → (k ≡ l) × (58 ∷ a ≡ 58 ∷ b)
    → (a ≡ b → (i ≡ j) × (c ≡ d))
    → (c ≡ d → (ms ≡ ns) × (x ≡ y))
    → (Members.member k i ms ≡ Members.member l j ns) × (x ≡ y)
member_prefix (same, value) first next = ground (arith, first (ground arith), next)

mutual
  unfolding put

  pub put_prefix :
      (i j : Json) (x y : Str) → Ends x → Ends y → put i x ≡ put j y → (i ≡ j) × (x ≡ y)
  put_prefix Json.null Json.null x y hx hy h = ground arith
  put_prefix (Json.bool true) (Json.bool true) x y hx hy h = ground arith
  put_prefix (Json.bool false) (Json.bool false) x y hx hy h = ground arith
  put_prefix (Json.int m) (Json.int n) x y hx hy h = ground (arith, put_int_prefix m n x y hx hy h)
  put_prefix (Json.text s) (Json.text t) x y hx hy h = ground (arith, put_escaped_prefix s t x y)
  put_prefix (Json.list is) (Json.list js) x y hx hy h =
      ground (arith, items_prefix is js x y hx hy)
  put_prefix (Json.dict ms) (Json.dict ns) x y hx hy h =
      ground (arith, members_prefix ms ns x y hx hy)
  put_prefix i j x y hx hy h = ground (arith, same_shape i j x y h)

  items_prefix :
      (is js : JsonItems) (x y : Str)
      → Ends x
      → Ends y
      → put_items is x ≡ put_items js y
      → (is ≡ js) × (x ≡ y)
  items_prefix JsonItems.nil JsonItems.nil x y hx hy h = ground arith
  items_prefix JsonItems.nil (JsonItems.cons j js) x y hx hy h =
      absurd (not_closed j (put_rest js y) x (sym h))
  items_prefix (JsonItems.cons i is) JsonItems.nil x y hx hy h =
      absurd (not_closed i (put_rest is x) y h)
  items_prefix (JsonItems.cons i is) (JsonItems.cons j js) x y hx hy h =
      cons_prefix
        (put_prefix i j (put_rest is x) (put_rest js y) (Ends-put_rest is x) (Ends-put_rest js y) h)
        (rest_prefix is js x y hx hy)

  rest_prefix :
      (is js : JsonItems) (x y : Str)
      → Ends x
      → Ends y
      → put_rest is x ≡ put_rest js y
      → (is ≡ js) × (x ≡ y)
  rest_prefix JsonItems.nil JsonItems.nil x y hx hy h = ground arith
  rest_prefix JsonItems.nil (JsonItems.cons j js) x y hx hy h = ground arith
  rest_prefix (JsonItems.cons i is) JsonItems.nil x y hx hy h = ground arith
  rest_prefix (JsonItems.cons i is) (JsonItems.cons j js) x y hx hy h =
      cons_prefix
        (put_prefix i j (put_rest is x) (put_rest js y) (Ends-put_rest is x) (Ends-put_rest js y)
          (ground arith))
        (rest_prefix is js x y hx hy)

  members_prefix :
      (ms ns : Members) (x y : Str)
      → Ends x
      → Ends y
      → put_members ms x ≡ put_members ns y
      → (ms ≡ ns) × (x ≡ y)
  members_prefix Members.end Members.end x y hx hy h = ground arith
  members_prefix Members.end (Members.member l j ns) x y hx hy h = ground arith
  members_prefix (Members.member k i ms) Members.end x y hx hy h = ground arith
  members_prefix (Members.member k i ms) (Members.member l j ns) x y hx hy h =
      member_prefix
        (put_escaped_prefix k l (58 ∷ put i (put_more ms x)) (58 ∷ put j (put_more ns y))
          (ground arith))
        (put_prefix i j (put_more ms x) (put_more ns y) (Ends-put_more ms x) (Ends-put_more ns y))
        (more_prefix ms ns x y hx hy)

  more_prefix :
      (ms ns : Members) (x y : Str)
      → Ends x
      → Ends y
      → put_more ms x ≡ put_more ns y
      → (ms ≡ ns) × (x ≡ y)
  more_prefix Members.end Members.end x y hx hy h = ground arith
  more_prefix Members.end (Members.member l j ns) x y hx hy h = ground arith
  more_prefix (Members.member k i ms) Members.end x y hx hy h = ground arith
  more_prefix (Members.member k i ms) (Members.member l j ns) x y hx hy h =
      member_prefix
        (put_escaped_prefix k l (58 ∷ put i (put_more ms x)) (58 ∷ put j (put_more ns y))
          (ground arith))
        (put_prefix i j (put_more ms x) (put_more ns y) (Ends-put_more ms x) (Ends-put_more ns y))
        (more_prefix ms ns x y hx hy)
