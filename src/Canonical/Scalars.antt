-- ===== src/Canonical/Scalars.antt =====
-- The encodings of single characters, texts and integers are prefix codes: what was written, and what
-- follows it, can be told from the whole.
use execution_finality_for_a.Prelude.{
  ℕ, zero, suc, ◌+◌, ◌*◌, ◌/◌, ◌%◌, ◌<◌, ℤ, pos, negsuc, Str, Bool, true, false, ◌&&◌, leb, [], ◌∷◌,
  ◌++◌, ◌≡◌, sym, append_assoc, ◌-◌, refl, arith, if◌then◌else◌, ap, ◌∙◌,
}
use execution_finality_for_a.Errors.{ok, value_of}
use execution_finality_for_a.Platform.{Bytes}
use execution_finality_for_a.Canonical.{
  utf8, utf8_char, escape, escape_char, hex_digit, digits, decimal,
}

utf8_char_prefix : (c d : ℕ) (x y : Bytes) → utf8_char c ++ x ≡ utf8_char d ++ y → (c ≡ d) × (x ≡ y)
unfolding utf8_char
utf8_char_prefix c d x y h = ground arith

utf8_char_nonempty : (c : ℕ) (x : Bytes) → utf8_char c ++ x ≡ [] → ⊥
unfolding utf8_char
utf8_char_nonempty c x h = ground arith

-- No two texts have the same UTF-8 bytes.
pub utf8_injective : (s t : Str) (b : Bytes) → utf8 s ≡ ok b → utf8 t ≡ ok b → s ≡ t
unfolding utf8
utf8_injective [] [] b hs ht = refl
utf8_injective [] (d ∷ t) b hs ht =
    let (y, ey) = value_of (utf8 t) (ground arith) in absurd (utf8_char_nonempty d y (ground arith))
utf8_injective (c ∷ s) [] b hs ht =
    let (x, ex) = value_of (utf8 s) (ground arith) in absurd (utf8_char_nonempty c x (ground arith))
utf8_injective (c ∷ s) (d ∷ t) b hs ht =
    let (x, ex) = value_of (utf8 s) (ground arith) in
    let (y, ey) = value_of (utf8 t) (ground arith) in
    let (same, rest) = utf8_char_prefix c d x y (ground arith) in
    ground (arith, utf8_injective s t x ex (ground arith))

escape_char_prefix :
    (c d : ℕ) (x y : Str) → escape_char c ++ x ≡ escape_char d ++ y → (c ≡ d) × (x ≡ y)
unfolding escape_char hex_digit
escape_char_prefix c d x y h = ground arith

-- An escaped character does not begin with the closing quote.
escape_char_open : (c : ℕ) (x y : Str) → escape_char c ++ x ≡ 34 ∷ y → ⊥
unfolding escape_char hex_digit
escape_char_open c x y h = ground arith

-- An escaped text, its closing quote, and what follows.
unfoldable pub put_escaped : Str → Str → Str
put_escaped [] r = 34 ∷ r
put_escaped (c ∷ s) r = escape_char c ++ put_escaped s r

pub put_escaped_prefix : (s t x y : Str) → put_escaped s x ≡ put_escaped t y → (s ≡ t) × (x ≡ y)
unfolding put_escaped
put_escaped_prefix [] [] x y h = ground arith
put_escaped_prefix [] (d ∷ t) x y h = absurd (escape_char_open d (put_escaped t y) x (ground arith))
put_escaped_prefix (c ∷ s) [] x y h = absurd (escape_char_open c (put_escaped s x) y h)
put_escaped_prefix (c ∷ s) (d ∷ t) x y h =
    let (same, rest) = escape_char_prefix c d (put_escaped s x) (put_escaped t y) h in
    ground (arith, put_escaped_prefix s t x y rest)

pub escape-put_escaped : (s r : Str) → escape s ++ 34 ∷ r ≡ put_escaped s r
unfolding escape put_escaped
escape-put_escaped [] r = refl
escape-put_escaped (c ∷ s) r = simp (append_assoc, escape-put_escaped s r)

abbrev pub is_digit : ℕ → Bool
is_digit c = leb 48 c && leb c 57

-- What follows a number does not go on with a digit.
abbrev pub Ends : Str → Type 0
Ends [] = Unit
Ends (c ∷ r) = is_digit c ≡ false

-- The number that the digits at the front of a text write after `n`, and the rest of the text.
unfoldable pub read_digits : ℕ → Str → ℕ × Str
read_digits n [] = (n, [])
read_digits n (c ∷ r) =
    let rest = read_digits (n * 10 + c - 48) r in if is_digit c then rest else (n, c ∷ r)

read_digits-Ends : (n : ℕ) (r : Str) → Ends r → read_digits n r ≡ (n, r)
unfolding read_digits
read_digits-Ends n [] h = refl
read_digits-Ends n (c ∷ r) h = rw h

read_digit :
    (n k : ℕ) (r : Str) → k < 10 → read_digits n ((48 + k) ∷ r) ≡ read_digits (n * 10 + k) r
unfolding read_digits
read_digit n k r h = ground arith

-- Fuel above the number is enough to write all its digits.
read_digits-digits : (f n : ℕ) (r : Str) → n < f → read_digits 0 (digits f n r) ≡ read_digits n r
unfolding digits
read_digits-digits zero n r h = absurd (omega arith)
read_digits-digits (suc f) n r h = ground (
  arith,
  read_digit 0 n r,
  read_digits-digits f (n / 10) ((48 + n % 10) ∷ r),
  read_digit (n / 10) (n % 10) r,
)

digits-append : (f n : ℕ) (acc r : Str) → digits f n acc ++ r ≡ digits f n (acc ++ r)
unfolding digits
digits-append zero n acc r = refl
digits-append (suc f) n acc r = ground (arith, digits-append f (n / 10) ((48 + n % 10) ∷ acc) r)

-- The text begins with a digit.
abbrev pub Opens : Str → Type 0
Opens [] = ⊥
Opens (c ∷ r) = is_digit c ≡ true

pub digits-Opens : (f n : ℕ) (r : Str) → n < f → Opens (digits f n r)
unfolding digits
digits-Opens zero n r h = absurd (omega arith)
digits-Opens (suc f) n r h = ground (arith, digits-Opens f (n / 10) ((48 + n % 10) ∷ r))

digits_prefix :
    (m n : ℕ) (x y : Str)
    → Ends x
    → Ends y
    → digits (m + 1) m x ≡ digits (n + 1) n y
    → (m ≡ n) × (x ≡ y)
digits_prefix m n x y hx hy h = ground (
  arith,
  read_digits-digits (m + 1) m x (omega arith),
  read_digits-digits (n + 1) n y (omega arith),
  read_digits-Ends m x hx,
  read_digits-Ends n y hy,
  ap (read_digits 0) h,
)

digits_fuel : (f g n : ℕ) (r : Str) → n < f → n < g → digits f n r ≡ digits g n r
unfolding digits
digits_fuel zero g n r hf hg = absurd (omega arith)
digits_fuel (suc f) zero n r hf hg = absurd (omega arith)
digits_fuel (suc f) (suc g) n r hf hg = ground (arith, digits_fuel f g (n / 10) ((48 + n % 10) ∷ r))

-- The rounds in which a number is printed do not run out: every number of rounds above the number
-- prints the same digits, and they read back as the number.
pub digits_enough :
    (f n : ℕ)
    → n < f
    → (digits f n [] ≡ decimal (pos n)) × (read_digits 0 (digits f n []) ≡ (n, []))
unfolding decimal
digits_enough f n h = (
  digits_fuel f (n + 1) n [] h (omega arith),
  read_digits-digits f n [] h ∙ read_digits-Ends n [] tt,
)

sign_apart : (s r : Str) → Opens s → s ≡ 45 ∷ r → ⊥
sign_apart [] r h e = h
sign_apart (c ∷ s) r h e = ground arith

-- An integer in decimal, and what follows.
unfoldable pub put_int : ℤ → Str → Str
put_int (pos n) r = digits (n + 1) n r
put_int (negsuc n) r = 45 ∷ digits (n + 2) (n + 1) r

pub decimal-put_int : (n : ℤ) (r : Str) → decimal n ++ r ≡ put_int n r
unfolding decimal put_int
decimal-put_int (pos n) r = digits-append (n + 1) n [] r
decimal-put_int (negsuc n) r = ap (λ (s : Str). 45 ∷ s) (digits-append (n + 2) (n + 1) [] r)

pub put_int_prefix :
    (m n : ℤ) (x y : Str) → Ends x → Ends y → put_int m x ≡ put_int n y → (m ≡ n) × (x ≡ y)
unfolding put_int
put_int_prefix (pos m) (pos n) x y hx hy h = ground (arith, digits_prefix m n x y hx hy h)
put_int_prefix (pos m) (negsuc n) x y hx hy h =
    absurd (sign_apart _ _ (digits-Opens (m + 1) m x (omega arith)) h)
put_int_prefix (negsuc m) (pos n) x y hx hy h =
    absurd (sign_apart _ _ (digits-Opens (n + 1) n y (omega arith)) (sym h))
put_int_prefix (negsuc m) (negsuc n) x y hx hy h =
    ground (arith, digits_prefix (m + 1) (n + 1) x y hx hy)

pub put_escaped-append : (s x y : Str) → put_escaped s x ++ y ≡ put_escaped s (x ++ y)
unfolding put_escaped
put_escaped-append [] x y = refl
put_escaped-append (c ∷ s) x y = simp (append_assoc, put_escaped-append s x y)
