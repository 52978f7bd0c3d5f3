-- ===== src/Canonical/Printed.antt =====
-- The JSON text of a normalised value, written before what follows it, is a prefix code: the value
-- and what follows can be told from the whole.
use execution_finality_for_a.Prelude.{
  ℕ, ℤ, Str, str, true, false, eqb, [], ◌∷◌, ◌++◌, if◌then◌else◌, ◌≡◌, refl, arith, ap, sym, ◌∙◌,
}
use execution_finality_for_a.Canonical.{Json, JsonItems, Members}
use execution_finality_for_a.Canonical.Scalars.{put_int, put_escaped, Ends, Opens, digits-Opens}

-- The text of a value whose members stand in order, and what follows.
unfoldable mutual
  pub put : Json → Str → Str
  put Json.null r = str "null" ++ r
  put (Json.bool true) r = str "true" ++ r
  put (Json.bool false) r = str "false" ++ r
  put (Json.int n) r = put_int n r
  put (Json.text s) r = 34 ∷ put_escaped s r
  put (Json.list js) r = 91 ∷ put_items js r
  put (Json.dict ms) r = 123 ∷ put_members ms r

  pub put_items : JsonItems → Str → Str
  put_items JsonItems.nil r = 93 ∷ r
  put_items (JsonItems.cons j js) r = put j (put_rest js r)

  pub put_rest : JsonItems → Str → Str
  put_rest JsonItems.nil r = 93 ∷ r
  put_rest (JsonItems.cons j js) r = 44 ∷ put j (put_rest js r)

  pub put_members : Members → Str → Str
  put_members Members.end r = 125 ∷ r
  put_members (Members.member k j ms) r = 34 ∷ put_escaped k (58 ∷ put j (put_more ms r))

  pub put_more : Members → Str → Str
  put_more Members.end r = 125 ∷ r
  put_more (Members.member k j ms) r = 44 ∷ 34 ∷ put_escaped k (58 ∷ put j (put_more ms r))

-- The constructor of a value, and how its text shows it.
abbrev pub shape : Json → ℕ
shape Json.null = 1
shape (Json.bool true) = 2
shape (Json.bool false) = 3
shape (Json.int _) = 4
shape (Json.text _) = 5
shape (Json.list _) = 6
shape (Json.dict _) = 7

unfoldable look : Str → ℕ
look [] = 0
look (c ∷ _) =
    if eqb c 110
    then 1
    else if eqb c 116
    then 2
    else if eqb c 102
    then 3
    else if eqb c 34
    then 5
    else if eqb c 91
    then 6
    else if eqb c 123
    then 7
    else if eqb c 93
    then 8
    else 4

look-Opens : (s : Str) → Opens s → look s ≡ 4
unfolding look
look-Opens [] h = absurd h
look-Opens (c ∷ s) h = ground arith

look-put_int : (n : ℤ) (r : Str) → look (put_int n r) ≡ 4
unfolding put_int
look-put_int (ℤ.pos n) r = look-Opens _ (digits-Opens _ _ r (omega arith))
look-put_int (ℤ.negsuc n) r = unfold look in refl

look-put : (j : Json) (r : Str) → look (put j r) ≡ shape j
unfolding put look
look-put Json.null r = refl
look-put (Json.bool true) r = refl
look-put (Json.bool false) r = refl
look-put (Json.int n) r = look-put_int n r
look-put (Json.text s) r = refl
look-put (Json.list js) r = refl
look-put (Json.dict ms) r = refl

pub same_shape : (i j : Json) (x y : Str) → put i x ≡ put j y → shape i ≡ shape j
same_shape i j x y h = sym (look-put i x) ∙ ap look h ∙ look-put j y

pub not_closed : (j : Json) (x y : Str) → put j x ≡ 93 ∷ y → ⊥
unfolding look
not_closed j x y h = shapes j (sym (look-put j x) ∙ ap look h)
  where
    shapes : (j : Json) → shape j ≡ 8 → ⊥
    shapes Json.null e = omega arith
    shapes (Json.bool true) e = omega arith
    shapes _ e = omega arith

pub Ends-put_rest : (js : JsonItems) (r : Str) → Ends (put_rest js r)
unfolding put
Ends-put_rest JsonItems.nil r = refl
Ends-put_rest (JsonItems.cons j js) r = refl

pub Ends-put_more : (ms : Members) (r : Str) → Ends (put_more ms r)
unfolding put
Ends-put_more Members.end r = refl
Ends-put_more (Members.member k j ms) r = refl
