-- ===== src/Canonical/Clean.antt =====
-- A normalised value without surrogates is printed and encoded without an error.
use execution_finality_for_a.Prelude.{ℕ, Str, true, false, [], ◌∷◌, ◌++◌, ◌≡◌, refl, arith}
use execution_finality_for_a.Errors.{is_ok}
use execution_finality_for_a.Canonical.{
  is_ascii, Json, is_surrogate, has_surrogate, hex_digit, escape_char, escape, utf8, dumps, dump,
}
use execution_finality_for_a.Canonical.Throughout.{IsClosed, JsonAll, dumps-All}

-- No code point of the text is a surrogate.
abbrev pub Clean : Str → Type 0
Clean s = has_surrogate s ≡ false

pub Clean-append : (s t : Str) → Clean s → Clean t → Clean (s ++ t)
unfolding has_surrogate
Clean-append [] t hs ht = ht
Clean-append (c ∷ s) t hs ht = ground (arith, Clean-append s t)

Clean-escape_char : (c : ℕ) → is_surrogate c ≡ false → Clean (escape_char c)
unfolding has_surrogate escape_char hex_digit
Clean-escape_char c h = ground arith

Clean-escape : (s : Str) → Clean s → Clean (escape s)
unfolding has_surrogate escape
Clean-escape [] h = refl
Clean-escape (c ∷ s) h =
    Clean-append (escape_char c) (escape s) (Clean-escape_char c (ground arith))
      (Clean-escape s (ground arith))

pub has_surrogate_ascii : (s : Str) → is_ascii s ≡ true → has_surrogate s ≡ false
unfolding is_ascii has_surrogate
has_surrogate_ascii [] h = refl
has_surrogate_ascii (c ∷ s) h = ground (arith, has_surrogate_ascii s)

Clean-IsClosed : IsClosed Clean
Clean-IsClosed = record {
  plain = has_surrogate_ascii;
  append = Clean-append;
  escaped = Clean-escape;
}

utf8_returns : (s : Str) → Clean s → is_ok (utf8 s) ≡ true
unfolding utf8 has_surrogate
utf8_returns [] h = refl
utf8_returns (c ∷ s) h = ground (arith, utf8_returns s)

pub dump_returns : (j : Json) → JsonAll Clean j → is_ok (dump j) ≡ true
unfolding dump
dump_returns j h = utf8_returns (dumps j) (dumps-All Clean Clean-IsClosed j h)
