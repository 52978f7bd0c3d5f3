-- ===== src/Programs/Vectors/Encoded.antt =====
-- The strict decoder, read backwards: the bytes that each of its states stands for.
use execution_finality_for_a.Prelude.{
  ℕ, zero, suc, ◌+◌, ◌-◌, ◌*◌, ◌/◌, ◌%◌, ◌<◌, ◌≤◌, ltb, leb, eqb, Str, Bool, true, false, ◌||◌,
  ◌&&◌, [], ◌∷◌, ◌++◌, if◌then◌else◌, ◌≡◌, refl, arith, ap, ◌∙◌, ◌⊎◌, inl, inr, Bool-cases,
  append_assoc,
}
use execution_finality_for_a.Errors.{Error, Result, ok, err, value_of}
use execution_finality_for_a.Platform.{Bytes}
use execution_finality_for_a.Canonical.{utf8, utf8_char, is_surrogate}
use execution_finality_for_a.Programs.Vectors.Decoding.{is_refused, decode_from, decode}

-- The bytes that a state stands for.
unfoldable before : ℕ → ℕ → ℕ → Bytes
before zero c least = []
before (suc zero) c least =
    if ltb least 2048
    then (192 + c) ∷ []
    else if ltb least 65536
    then (224 + c / 64) ∷ (128 + c % 64) ∷ []
    else (240 + c / 4096) ∷ (128 + c / 64 % 64) ∷ (128 + c % 64) ∷ []
before (suc (suc zero)) c least =
    if ltb least 65536 then (224 + c) ∷ [] else (240 + c / 64) ∷ (128 + c % 64) ∷ []
before (suc (suc (suc more))) c least = (240 + c) ∷ []

-- The states that can be reached.
unfoldable reached : ℕ → ℕ → ℕ → Bool
reached zero c least = true
reached (suc zero) c least =
    (eqb least 128 && ltb c 32) || (eqb least 2048 && ltb c 1024) || eqb least 65536
reached (suc (suc zero)) c least = (eqb least 2048 && ltb c 16) || eqb least 65536
reached (suc (suc (suc zero))) c least = eqb least 65536
reached (suc (suc (suc (suc more)))) c least = false

-- The six bits that a following byte adds, taken off again.
shares :
    (c b : ℕ)
    → 128 ≤ b
    → b < 192
    → let d = c * 64 + (b - 128) in
      (d / 64 ≡ c) × (128 + d % 64 ≡ b) × (d / 4096 ≡ c / 64) × (d / 262144 ≡ c / 4096)
shares c b l u = (omega arith, omega arith, omega arith, omega arith)

last_byte :
    (c least b : ℕ)
    → reached 1 c least ≡ true
    → 128 ≤ b
    → b < 192
    → is_refused least (c * 64 + (b - 128)) ≡ false
    → utf8_char (c * 64 + (b - 128)) ≡ before 1 c least ++ b ∷ []
unfolding before reached utf8_char
last_byte c least b r l u h = let (e, f, g, i) = shares c b l u in ground (arith, e, f, g, i)

utf8_cons :
    (c : ℕ) (s : Str) (bs : Bytes)
    → is_surrogate c ≡ false
    → utf8 s ≡ ok bs
    → utf8 (c ∷ s) ≡ ok (utf8_char c ++ bs)
unfolding utf8
utf8_cons c s bs h e = ground arith

ascii_scalar : (c : ℕ) → c < 128 → is_surrogate c ≡ false
ascii_scalar c h = ground arith

fits_scalar : (least c : ℕ) → is_refused least c ≡ false → is_surrogate c ≡ false
fits_scalar least c h = ground arith

utf8_ascii : (c : ℕ) → c < 128 → utf8_char c ≡ c ∷ []
unfolding utf8_char
utf8_ascii c h = ground arith

-- What the last byte of a code point gives.
emitted :
    (c least b : ℕ) (bs : Bytes) (s : Str)
    → decode_from 1 c least (b ∷ bs) ≡ ok s
    → let d = c * 64 + (b - 128) in
      (t : Str) × (decode_from 0 d least bs ≡ ok t)
      × (128 ≤ b)
      × (b < 192)
      × (is_refused least d ≡ false)
      × (s ≡ d ∷ t)
unfolding decode_from
emitted c least b bs s h =
    let (t, e) = value_of (decode_from 0 (c * 64 + (b - 128)) least bs) (ground arith) in
    (t, e, ground arith, ground arith, ground arith, ground arith)

-- What a leading byte gives: an ASCII character, or a state from which the rest is decoded.
led :
    (c least b : ℕ) (bs : Bytes) (s : Str)
    → decode_from 0 c least (b ∷ bs) ≡ ok s
    → ((t : Str) × (decode_from 0 0 0 bs ≡ ok t) × (b < 128) × (s ≡ b ∷ t))
      ⊎ ((194 ≤ b) × (b < 224) × (decode_from 1 (b - 192) 128 bs ≡ ok s))
      ⊎ ((224 ≤ b) × (b < 240) × (decode_from 2 (b - 224) 2048 bs ≡ ok s))
      ⊎ ((240 ≤ b) × (decode_from 3 (b - 240) 65536 bs ≡ ok s))
unfolding decode_from
led c least b bs s h = elim (Bool-cases (ltb b 128)) [
  | inl ascii ↦
      let (t, e) = value_of (decode_from 0 0 0 bs) (ground arith) in
      inl (t, e, ground arith, ground arith)
  | inr more ↦ elim (Bool-cases (ltb b 224)) [
    | inl two ↦ inr (inl (ground arith, ground arith, ground arith))
    | inr rest ↦ elim (Bool-cases (ltb b 240)) [
      | inl three ↦ inr (inr (inl (ground arith, ground arith, ground arith)))
      | inr four ↦ inr (inr (inr (ground arith, ground arith)))
    ]
  ]
]

first_byte : (n b : ℕ) (bs : Bytes) → n ≤ b → Result.ok ((n + (b - n)) ∷ bs) ≡ ok (b ∷ bs)
first_byte n b bs h = let same : n + (b - n) ≡ b = omega arith in rw same refl

two_reached : (b : ℕ) → 194 ≤ b → b < 224 → reached 1 (b - 192) 128 ≡ true
unfolding reached
two_reached b l u = ground arith

three_reached : (b : ℕ) → 224 ≤ b → b < 240 → reached 2 (b - 224) 2048 ≡ true
unfolding reached
three_reached b l u = ground arith

-- A byte in the middle of a code point.
not_raised :
    (x : Bool) (r : Result Str) (s : Str)
    → (if x then err Error.unicode_decode_error else r) ≡ ok s
    → (x ≡ false) × (r ≡ ok s)
not_raised true r s h = cc h
not_raised false r s h = (refl, h)

appended : (b : ℕ) (x y bs : Bytes) → x ≡ y ++ b ∷ [] → Result.ok (x ++ bs) ≡ ok (y ++ b ∷ bs)
appended b x y bs h =
    ap (λ (w : Bytes). ok (w ++ bs)) h ∙ ap (λ (w : Bytes). ok w) (append_assoc y (b ∷ []) bs)

second_reached :
    (c least b : ℕ) → reached 3 c least ≡ true → reached 2 (c * 64 + (b - 128)) least ≡ true
unfolding reached
second_reached c least b r = ground arith

passed :
    (more c least b : ℕ) (bs : Bytes) (s : Str)
    → decode_from (suc (suc more)) c least (b ∷ bs) ≡ ok s
    → (128 ≤ b) × (b < 192) × (decode_from (suc more) (c * 64 + (b - 128)) least bs ≡ ok s)
unfolding decode_from
passed more c least b bs s h =
    let (fits, rest) = not_raised (ltb b 128 || leb 192 b) _ s h in
    (ground arith, ground arith, rest)

third_reached :
    (c least b : ℕ)
    → reached 2 c least ≡ true
    → b < 192
    → reached 1 (c * 64 + (b - 128)) least ≡ true
unfolding reached
third_reached c least b r u = ground arith

middle_byte :
    (c least b : ℕ)
    → reached 2 c least ≡ true
    → 128 ≤ b
    → b < 192
    → before 1 (c * 64 + (b - 128)) least ≡ before 2 c least ++ b ∷ []
unfolding before reached
middle_byte c least b r l u = let (e, f, g, i) = shares c b l u in ground (arith, e, f, g, i)

second_byte :
    (c least b : ℕ)
    → reached 3 c least ≡ true
    → 128 ≤ b
    → b < 192
    → before 2 (c * 64 + (b - 128)) least ≡ before 3 c least ++ b ∷ []
unfolding before reached
second_byte c least b r l u = let (e, f, g, i) = shares c b l u in ground (arith, e, f, g, i)

decoded :
    (more c least : ℕ) (bs : Bytes) (s : Str)
    → reached more c least ≡ true
    → decode_from more c least bs ≡ ok s
    → utf8 s ≡ ok (before more c least ++ bs)
unfolding decode_from before reached utf8
decoded zero c least [] s r h = ground arith
decoded (suc more) c least [] s r h = cc h
decoded zero c least (b ∷ bs) s r h = elim (led c least b bs s h) [
  | inl (t, e, ascii, same) ↦
      let rest = decoded 0 0 0 bs t refl e in
      ap utf8 same
      ∙ utf8_cons b t bs (ascii_scalar b ascii) rest
      ∙ ap (λ (w : Bytes). ok (w ++ bs)) (utf8_ascii b ascii)
  | inr (inl (l, u, e)) ↦
      decoded 1 (b - 192) 128 bs s (two_reached b l u) e ∙ first_byte 192 b bs (omega arith)
  | inr (inr (inl (l, u, e))) ↦
      decoded 2 (b - 224) 2048 bs s (three_reached b l u) e ∙ first_byte 224 b bs l
  | inr (inr (inr (l, e))) ↦ decoded 3 (b - 240) 65536 bs s refl e ∙ first_byte 240 b bs l
]
decoded (suc zero) c least (b ∷ bs) s r h =
    let d = c * 64 + (b - 128) in
    let (t, e, l, u, fits, same) = emitted c least b bs s h in
    let rest = decoded 0 d least bs t refl e in
    ap utf8 same
    ∙ utf8_cons d t bs (fits_scalar least d fits) rest
    ∙ appended b _ (before 1 c least) bs (last_byte c least b r l u fits)
decoded (suc (suc zero)) c least (b ∷ bs) s r h =
    let (l, u, e) = passed 0 c least b bs s h in
    decoded 1 (c * 64 + (b - 128)) least bs s (third_reached c least b r u) e
    ∙ appended b _ (before 2 c least) bs (middle_byte c least b r l u)
decoded (suc (suc (suc zero))) c least (b ∷ bs) s r h =
    let (l, u, e) = passed 1 c least b bs s h in
    decoded 2 (c * 64 + (b - 128)) least bs s (second_reached c least b r) e
    ∙ appended b _ (before 3 c least) bs (second_byte c least b r l u)
decoded (suc (suc (suc (suc more)))) c least (b ∷ bs) s r h = cc r

-- What is decoded, `utf8` encodes to the same bytes.
pub decode-utf8 : (bs : Bytes) (s : Str) → decode bs ≡ ok s → utf8 s ≡ ok bs
unfolding decode before reached
decode-utf8 bs s h = decoded 0 0 0 bs s refl h
