-- ===== src/Canonical/Text.antt =====
-- Text as `_normalize` and `json.dumps` treat it: surrogates, key order, string escapes, decimal
-- integers, UTF-8. Code points are numbers.
use execution_finality_for_a.Prelude.{
  ℕ, zero, suc, ◌+◌, ◌/◌, ◌%◌, ℤ, pos, negsuc, Str, Bool, true, false, ◌&&◌, ◌||◌, List, [], ◌∷◌,
  ◌++◌, if◌then◌else◌, ltb, leb, eqb,
}
use execution_finality_for_a.Errors.{Error, Result, ok, err, ◌>>=◌}
use execution_finality_for_a.Platform.{Bytes}

-- 0xD800 <= ord(ch) <= 0xDFFF
abbrev pub is_surrogate : ℕ → Bool
is_surrogate c = leb 0xd800 c && leb c 0xdfff

-- any(0xD800 <= ord(ch) <= 0xDFFF for ch in s)
unfoldable pub has_surrogate : Str → Bool
has_surrogate [] = false
has_surrogate (c ∷ s) = is_surrogate c || has_surrogate s

-- s.isascii()
unfoldable pub is_ascii : Str → Bool
is_ascii [] = true
is_ascii (c ∷ s) = ltb c 128 && is_ascii s

-- Python's order on text, by code points.
unfoldable pub text_lt : Str → Str → Bool
text_lt s [] = false
text_lt [] (_ ∷ _) = true
text_lt (c ∷ s) (d ∷ t) = ltb c d || (leb c d && text_lt s t)

-- `sorted` on the keys of a dict: a stable insertion sort.
module _ {A : Type 0} where
  unfoldable pub insert_sorted : Str → A → List (Str × A) → List (Str × A)
  insert_sorted k a [] = (k, a) ∷ []
  insert_sorted k a ((j, b) ∷ es) =
      if text_lt j k then (j, b) ∷ insert_sorted k a es else (k, a) ∷ (j, b) ∷ es

  unfoldable pub sort_keys : List (Str × A) → List (Str × A)
  unfolding insert_sorted
  sort_keys [] = []
  sort_keys ((k, a) ∷ es) = insert_sorted k a (sort_keys es)

-- A digit of lower-case hexadecimal.
unfoldable pub hex_digit : ℕ → ℕ
hex_digit n = if ltb n 10 then 48 + n else 87 + n

-- bytes.hex()
unfoldable pub hex : Bytes → Str
unfolding hex_digit
hex [] = []
hex (b ∷ bs) = hex_digit (b / 16) ∷ hex_digit (b % 16) ∷ hex bs

-- One character of a JSON string under ensure_ascii=False.
unfoldable pub escape_char : ℕ → Str
unfolding hex_digit
escape_char c =
    if leb 32 c
    then (if eqb c 34 then 92 ∷ 34 ∷ [] else if eqb c 92 then 92 ∷ 92 ∷ [] else c ∷ [])
    else if eqb c 10
    then 92 ∷ b'n' ∷ []
    else if eqb c 13
    then 92 ∷ b'r' ∷ []
    else if eqb c 9
    then 92 ∷ b't' ∷ []
    else if eqb c 12
    then 92 ∷ b'f' ∷ []
    else if eqb c 8
    then 92 ∷ b'b' ∷ []
    else 92 ∷ b'u' ∷ 48 ∷ 48 ∷ hex_digit (c / 16) ∷ hex_digit (c % 16) ∷ []

unfoldable pub escape : Str → Str
unfolding escape_char
escape [] = []
escape (c ∷ s) = escape_char c ++ escape s

-- The decimal digits of `n` before `acc`, on fuel: n + 1 is enough.
unfoldable pub digits : ℕ → ℕ → Str → Str
digits zero n acc = acc
digits (suc f) n acc =
    let rest = digits f (n / 10) ((48 + n % 10) ∷ acc) in if ltb n 10 then (48 + n) ∷ acc else rest

-- int.__repr__
unfoldable pub decimal : ℤ → Str
unfolding digits
decimal (pos n) = digits (n + 1) n []
decimal (negsuc n) = 45 ∷ digits (n + 2) (n + 1) []

-- The UTF-8 bytes of one code point that is no surrogate.
unfoldable pub utf8_char : ℕ → Bytes
utf8_char c =
    if ltb c 128
    then c ∷ []
    else if ltb c 2048
    then (192 + c / 64) ∷ (128 + c % 64) ∷ []
    else if ltb c 65536
    then (224 + c / 4096) ∷ (128 + c / 64 % 64) ∷ (128 + c % 64) ∷ []
    else (240 + c / 262144) ∷ (128 + c / 4096 % 64) ∷ (128 + c / 64 % 64) ∷ (128 + c % 64) ∷ []

-- s.encode("utf-8")
unfoldable pub utf8 : Str → Result Bytes
unfolding utf8_char
utf8 [] = ok []
utf8 (c ∷ s) =
    if is_surrogate c then err Error.unicode_encode_error else do ok (utf8_char c ++ (← utf8 s))
