-- ===== src/Programs/Cases/Script.antt =====
-- vectors/generate_finality_case.py: the two calls of `build_case`. The second has decomposed letters
-- in its purpose, destination, payload and context; text outside ASCII is by its code points.
use execution_finality_for_a.Prelude.{Str, str, pos, List, [], ◌∷◌, ◌++◌}
use execution_finality_for_a.Errors.{Result, ok, ◌>>=◌}
use execution_finality_for_a.Platform.{Platform}
use execution_finality_for_a.Canonical.{Value, fields}
use execution_finality_for_a.Models.{CandidateAct}
use execution_finality_for_a.Programs.Cases.{Bundle, candidate, build_case}

-- The payload and the context of the first case.
abbrev pub plain_payload : List (Str × Value)
plain_payload =
    (str "amount_minor", Value.int (pos 12345))
    ∷ (str "currency", Value.text (str "EUR"))
    ∷ (str "beneficiary", Value.text (str "B1"))
    ∷ []

abbrev pub plain_context : List (Str × Value)
plain_context = (str "runtime", Value.text (str "portable-demo")) ∷ []

-- "settlement-cafe\u0301", "ledger://demo/beneficiary-Jose\u0301"
abbrev pub unicode_purpose : Str
unicode_purpose = str "settlement-cafe" ++ 769 ∷ []

abbrev pub unicode_destination : Str
unicode_destination = str "ledger://demo/beneficiary-Jose" ++ 769 ∷ []

-- The payload and the context of the second case.
abbrev pub unicode_payload : List (Str × Value)
unicode_payload =
    (str "amount_minor", Value.int (pos 54321))
    ∷ (str "currency", Value.text (str "EUR"))
    ∷ (str "beneficiary", Value.text (str "Jose" ++ 769 ∷ []))
    ∷ (str "memo", Value.text (str "re" ++ 769 ∷ (str "sume" ++ 769 ∷ [])))
    ∷ []

abbrev pub unicode_context : List (Str × Value)
unicode_context =
    (str "runtime", Value.text (str "portable-demo"))
    ∷ (str "label", Value.text (str "cafe" ++ 769 ∷ []))
    ∷ []

abbrev pub plain_candidate : CandidateAct
plain_candidate =
    candidate (str "portable-act-1") (str "portable-nonce-1") (str "settlement-demo")
      (str "ledger://demo/beneficiary-B1") (fields plain_payload) (fields plain_context)

abbrev pub unicode_candidate : CandidateAct
unicode_candidate =
    candidate (str "portable-act-unicode-1") (str "portable-nonce-unicode-1") unicode_purpose
      unicode_destination (fields unicode_payload) (fields unicode_context)

module _ ⦃p : Platform⦄ where
  unfoldable pub plain_case : Result Bundle
  plain_case =
      build_case (str "portable-act-1") (str "portable-nonce-1") (str "settlement-demo")
        (str "ledger://demo/beneficiary-B1") (fields plain_payload) (fields plain_context)

  unfoldable pub unicode_case : Result Bundle
  unicode_case =
      build_case (str "portable-act-unicode-1") (str "portable-nonce-unicode-1") unicode_purpose
        unicode_destination (fields unicode_payload) (fields unicode_context)

  -- The script, up to the files that it writes.
  unfoldable pub finality_cases : Result (Bundle × Bundle)
  unfolding plain_case unicode_case
  finality_cases = do plain ← plain_case; unicode ← unicode_case; ok (plain, unicode)
