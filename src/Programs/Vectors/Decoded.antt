-- ===== src/Programs/Vectors/Decoded.antt =====
-- `bytes.decode("utf-8")` on what `str.encode` made, and the numbers that are code points.
use execution_finality_for_a.Prelude.{
  ℕ, suc, ◌+◌, ◌-◌, ◌*◌, ◌/◌, ◌%◌, ◌<◌, ◌≤◌, ltb, leb, Str, Bool, true, false, ◌||◌, [], ◌∷◌, ◌++◌,
  if◌then◌else◌, ◌≡◌, refl, arith, ap, ◌∙◌, inl, inr, Bool-cases,
}
use execution_finality_for_a.Errors.{Result, ok, value_of, ◌>>=◌}
use execution_finality_for_a.Platform.{Bytes}
use execution_finality_for_a.Canonical.{
  is_ascii, utf8, utf8_char, is_surrogate, escape_char, escape, hex_digit,
}
use execution_finality_for_a.Canonical.Throughout.{IsClosed}
use execution_finality_for_a.Programs.Vectors.Decoding.{lead, is_refused, decode_from, decode}

-- Some number is no code point.
unfoldable pub beyond : Str → Bool
beyond [] = false
beyond (c ∷ s) = leb 1114112 c || beyond s

-- The numbers are code points.
abbrev pub InRange : Str → Type 0
InRange s = beyond s ≡ false

-- The state between two code points.
fresh_state : (c least : ℕ) (bs : Bytes) → decode_from 0 c least bs ≡ decode_from 0 0 0 bs
unfolding decode_from
fresh_state c least [] = refl
fresh_state c least (b ∷ bs) = refl

passed_over : {A : Type 0} (x : Bool) (r s : A) → x ≡ false → (if x then r else s) ≡ s
passed_over x r s h = rw h refl

-- A following byte, by the six bits that it adds.
last_step :
    (h l d least : ℕ) (bs : Bytes)
    → l < 64
    → h * 64 + l ≡ d
    → is_refused least d ≡ false
    → decode_from 1 h least ((128 + l) ∷ bs) ≡ (decode_from 0 0 0 bs >>= λ t. ok (d ∷ t))
unfolding decode_from
last_step h l d least bs u same fits =
    let share : h * 64 + (128 + l - 128) ≡ d = omega (arith, same) in
    rw share (
      passed_over (ltb (128 + l) 128 || leb 192 (128 + l) || is_refused least d) _ _
        (rw fits (ground arith))
      ∙ ap (λ (r : Result Str). r >>= λ t. ok (d ∷ t)) (fresh_state d least bs))

middle_step :
    (more h l d least : ℕ) (bs : Bytes)
    → l < 64
    → h * 64 + l ≡ d
    → decode_from (suc (suc more)) h least ((128 + l) ∷ bs) ≡ decode_from (suc more) d least bs
unfolding decode_from
middle_step more h l d least bs u same =
    let share : h * 64 + (128 + l - 128) ≡ d = omega (arith, same) in
    rw share (passed_over (ltb (128 + l) 128 || leb 192 (128 + l)) _ _ (ground arith))

first_step :
    (n least more b : ℕ) (bs : Bytes)
    → lead b ≡ (more, n, least)
    → 194 ≤ b
    → b < 245
    → decode_from 0 0 0 (b ∷ bs) ≡ decode_from more n least bs
unfolding decode_from
first_step n least more b bs led l u =
    passed_over (ltb b 128) _ _ (ground arith)
    ∙ passed_over (ltb b 194 || leb 245 b) _ _ (ground arith)
    ∙ ap (λ (t : ℕ × ℕ × ℕ). decode_from t.0 t.1 t.2 bs) led

two_lead : (c : ℕ) → 128 ≤ c → c < 2048 → lead (192 + c / 64) ≡ (1, c / 64, 128)
two_lead c l u = let share : 192 + c / 64 - 192 ≡ c / 64 = omega arith in ground (arith, share)

three_lead : (c : ℕ) → c < 65536 → lead (224 + c / 4096) ≡ (2, c / 4096, 2048)
three_lead c u = let share : 224 + c / 4096 - 224 ≡ c / 4096 = omega arith in ground (arith, share)

four_lead : (c : ℕ) → lead (240 + c / 262144) ≡ (3, c / 262144, 65536)
four_lead c = let share : 240 + c / 262144 - 240 ≡ c / 262144 = omega arith in ground (arith, share)

ascii_decoded :
    (c : ℕ) (bs : Bytes)
    → c < 128
    → decode_from 0 0 0 (c ∷ bs) ≡ (decode_from 0 0 0 bs >>= λ t. ok (c ∷ t))
unfolding decode_from
ascii_decoded c bs u = let low : ltb c 128 ≡ true = ground arith in rw low refl

-- One code point.
char_decoded :
    (c : ℕ) (bs : Bytes)
    → c < 1114112
    → is_surrogate c ≡ false
    → decode_from 0 0 0 (utf8_char c ++ bs) ≡ (decode_from 0 0 0 bs >>= λ t. ok (c ∷ t))
unfolding utf8_char
char_decoded c bs u h = elim (Bool-cases (ltb c 128)) [
  | inl one ↦ rw one (ascii_decoded c bs (ground arith))
  | inr more ↦ elim (Bool-cases (ltb c 2048)) [
    | inl two ↦
        rw (more, two)
          (first_step (c / 64) 128 1 (192 + c / 64) _ (two_lead c (ground arith) (ground arith))
              (ground arith) (ground arith)
            ∙ last_step (c / 64) (c % 64) c 128 bs (omega arith) (omega arith) (ground arith))
    | inr rest ↦ elim (Bool-cases (ltb c 65536)) [
      | inl three ↦
          rw (more, rest, three)
            (first_step (c / 4096) 2048 2 (224 + c / 4096) _ (three_lead c (ground arith))
                (ground arith) (ground arith)
              ∙ middle_step 0 (c / 4096) (c / 64 % 64) (c / 64) 2048 _ (omega arith) (omega arith)
              ∙ last_step (c / 64) (c % 64) c 2048 bs (omega arith) (omega arith) (ground arith))
      | inr four ↦
          rw (more, rest, four)
            (first_step (c / 262144) 65536 3 (240 + c / 262144) _ (four_lead c) (ground arith)
                (ground arith)
              ∙ middle_step 1 (c / 262144) (c / 4096 % 64) (c / 4096) 65536 _ (omega arith)
                  (omega arith)
              ∙ middle_step 0 (c / 4096) (c / 64 % 64) (c / 64) 65536 _ (omega arith) (omega arith)
              ∙ last_step (c / 64) (c % 64) c 65536 bs (omega arith) (omega arith) (ground arith))
    ]
  ]
]

-- Text in range that `utf8` encodes is decoded again.
pub utf8-decode : (s : Str) (bs : Bytes) → InRange s → utf8 s ≡ ok bs → decode bs ≡ ok s
unfolding utf8 beyond decode decode_from
utf8-decode [] bs h e = ground (arith, e)
utf8-decode (c ∷ s) bs h e =
    let (rest, er) = value_of (utf8 s) (ground arith) in
    let again : decode_from 0 0 0 rest ≡ ok s = utf8-decode s rest (ground arith) er in
    let whole : bs ≡ utf8_char c ++ rest = ground arith in
    rw whole (
      char_decoded c rest (ground arith) (ground arith)
      ∙ ap (λ (r : Result Str). r >>= λ t. ok (c ∷ t)) again)

InRange-append : (s t : Str) → InRange s → InRange t → InRange (s ++ t)
unfolding beyond
InRange-append [] t hs ht = ht
InRange-append (c ∷ s) t hs ht = ground (arith, InRange-append s t)

InRange-plain : (s : Str) → is_ascii s ≡ true → InRange s
unfolding is_ascii beyond
InRange-plain [] h = refl
InRange-plain (c ∷ s) h = ground (arith, InRange-plain s)

InRange-escape_char : (c : ℕ) → leb 1114112 c ≡ false → InRange (escape_char c)
unfolding beyond escape_char hex_digit
InRange-escape_char c h = ground arith

InRange-escape : (s : Str) → InRange s → InRange (escape s)
unfolding beyond escape
InRange-escape [] h = refl
InRange-escape (c ∷ s) h =
    InRange-append (escape_char c) (escape s) (InRange-escape_char c (ground arith))
      (InRange-escape s (ground arith))

pub InRange-IsClosed : IsClosed InRange
InRange-IsClosed = record {
  plain = InRange-plain;
  append = InRange-append;
  escaped = InRange-escape;
}
