-- ===== src/Programs/Vectors/Decoding.antt =====
-- `bytes.decode("utf-8")`, strictly: an overlong, cut or foreign sequence is refused.
use execution_finality_for_a.Prelude.{
  ℕ, zero, suc, ◌+◌, ◌-◌, ◌*◌, ltb, leb, Str, Bool, ◌||◌, [], ◌∷◌, if◌then◌else◌,
}
use execution_finality_for_a.Errors.{Error, Result, ok, err, ◌>>=◌}
use execution_finality_for_a.Platform.{Bytes}
use execution_finality_for_a.Canonical.{is_surrogate}

-- A leading byte: how many bytes follow, its share of the code point, and the least code point that
-- needs so many.
abbrev pub lead : ℕ → ℕ × ℕ × ℕ
lead b =
    if ltb b 128
    then (0, 0, 0)
    else if ltb b 224
    then (1, b - 192, 128)
    else if ltb b 240
    then (2, b - 224, 2048)
    else (3, b - 240, 65536)

-- No code point, or a surrogate.
abbrev pub is_refused : ℕ → ℕ → Bool
is_refused least c = ltb c least || (is_surrogate c) || leb 1114112 c

-- Decode where `more` bytes of a code point are to come after the share `c`.
unfoldable pub decode_from : ℕ → ℕ → ℕ → Bytes → Result Str
decode_from zero c least [] = ok []
decode_from (suc more) c least [] = err Error.unicode_decode_error
decode_from zero c least (b ∷ bs) =
    let (m, d, l) = lead b in
    let rest = decode_from m d l bs in
    if ltb b 128
    then (do ok (b ∷ (← rest)))
    else if ltb b 194 || leb 245 b
    then err Error.unicode_decode_error
    else rest
decode_from (suc zero) c least (b ∷ bs) =
    let d = c * 64 + (b - 128) in
    let rest = decode_from 0 d least bs in
    if ltb b 128 || leb 192 b || is_refused least d
    then err Error.unicode_decode_error
    else (do ok (d ∷ (← rest)))
decode_from (suc (suc more)) c least (b ∷ bs) =
    let rest = decode_from (suc more) (c * 64 + (b - 128)) least bs in
    if ltb b 128 || leb 192 b then err Error.unicode_decode_error else rest

-- data.decode("utf-8")
unfoldable pub decode : Bytes → Result Str
decode bs = decode_from 0 0 0 bs
