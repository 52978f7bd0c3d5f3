-- ===== src/Programs/Vectors/Tables.antt =====
-- vectors/generate_vectors.py: the tables `VALUES` and `positive_values`. Text outside ASCII, and text
-- with escapes, is by its code points.
use execution_finality_for_a.Prelude.{Str, str, pos, negsuc, true, List, [], ◌∷◌}
use execution_finality_for_a.Canonical.{Value, Items, fields}

-- VALUES, each a dict by its entries.
abbrev pub values : List (List (Str × Value))
values =
    ((str "act", Value.text (str "send"))
      ∷ (str "amount", Value.int (pos 1000))
      ∷ (str "currency", Value.text (str "EUR"))
      ∷ [])
    ∷ ((str "scope", Value.list (Items.cons (Value.text (str "SEND")) (Items.nil)))
        ∷ (str "sink", Value.text (str "sink-A"))
        ∷ (str "boundary", Value.text (str "b-A"))
        ∷ (str "nonce", Value.text (str "n-1"))
        ∷ [])
    ∷ ((
      str "nested",
      Value.dict (fields ((str "a", Value.int (pos 1)) ∷ (str "b", Value.int (pos 2)) ∷ [])),
    )
        ∷ (
          str "list",
          Value.list (
              Items.cons (Value.int (pos 1))
                (Items.cons (Value.int (pos 2)) (Items.cons (Value.int (pos 3)) (Items.nil)))),
        )
        ∷ [])
    ∷ ((str "unicode", Value.text (99 ∷ 97 ∷ 102 ∷ 233 ∷ []))
        ∷ (str "purpose", Value.text (114 ∷ 233 ∷ 115 ∷ 117 ∷ 109 ∷ 233 ∷ []))
        ∷ [])
    ∷ ((str "unicode", Value.text (26085 ∷ 26412 ∷ 35486 ∷ []))
        ∷ (str "purpose", Value.text (str "test"))
        ∷ [])
    ∷ ((str "unicode", Value.text (2361 ∷ 2367 ∷ 2344 ∷ 2381 ∷ 2342 ∷ 2368 ∷ []))
        ∷ (str "purpose", Value.text (str "test"))
        ∷ [])
    ∷ ((str "unicode", Value.text (1575 ∷ 1604 ∷ 1593 ∷ 1585 ∷ 1576 ∷ 1610 ∷ 1577 ∷ []))
        ∷ (str "purpose", Value.text (str "test"))
        ∷ [])
    ∷ ((str "emoji", Value.text (128272 ∷ []))
        ∷ (str "ok", Value.bool true)
        ∷ (str "none", Value.null)
        ∷ [])
    ∷ ((str "n", Value.int (pos 0))
        ∷ (str "neg", Value.int (negsuc 0))
        ∷ (str "max_safe", Value.int (pos 9007199254740991))
        ∷ [])
    ∷ ((str "destination", Value.text (str "https://example.invalid/api"))
        ∷ (str "method", Value.text (str "POST"))
        ∷ [])
    ∷ ((str "effect_class", Value.text (str "storage-write"))
        ∷ (str "path", Value.text (str "/records/1"))
        ∷ (str "scope", Value.list (Items.cons (Value.text (str "WRITE:/records")) (Items.nil)))
        ∷ [])
    ∷ ((str "effect_class", Value.text (str "renderer"))
        ∷ (str "surface", Value.text (str "display-0"))
        ∷ (str "scope", Value.list (Items.cons (Value.text (str "DISPLAY")) (Items.nil)))
        ∷ [])
    ∷ ((str "policy_epoch", Value.int (pos 7))
        ∷ (str "runtime_evidence", Value.text (str "abc123"))
        ∷ (str "freshness_ns", Value.int (pos 5000000000))
        ∷ [])
    ∷ ((
      str "payload",
      Value.dict (
          fields (
            (str "beneficiary", Value.text (str "B1"))
            ∷ (str "amount_minor", Value.int (pos 1000))
            ∷ [])),
    )
        ∷ (str "purpose", Value.text (str "approved-purpose"))
        ∷ [])
    ∷ ((str "z", Value.int (pos 3))
        ∷ (str "m", Value.int (pos 2))
        ∷ (str "a", Value.int (pos 1))
        ∷ (
          str "nested",
          Value.dict (fields ((str "z", Value.int (pos 0)) ∷ (str "a", Value.int (pos 9)) ∷ [])),
        )
        ∷ [])
    ∷ ((str "unicode", Value.text (99 ∷ 97 ∷ 102 ∷ 101 ∷ 769 ∷ []))
        ∷ (str "purpose", Value.text (114 ∷ 101 ∷ 769 ∷ 115 ∷ 117 ∷ 109 ∷ 101 ∷ 769 ∷ []))
        ∷ [])
    ∷ (((101 ∷ 769 ∷ []), Value.text (99 ∷ 97 ∷ 102 ∷ 101 ∷ 769 ∷ []))
        ∷ (str "plain", Value.text (str "ok"))
        ∷ [])
    ∷ (((128512 ∷ []), Value.int (pos 1))
        ∷ ((57344 ∷ []), Value.int (pos 2))
        ∷ (str "A", Value.int (pos 3))
        ∷ [])
    ∷ ((str "json", Value.text (60 ∷ 62 ∷ 38 ∷ 8232 ∷ 8233 ∷ 8 ∷ 11 ∷ 92 ∷ 34 ∷ [])) ∷ [])
    ∷ ((str "marks", Value.text (65 ∷ 778 ∷ []))
        ∷ (str "angstrom", Value.text (8491 ∷ []))
        ∷ (str "precomposed", Value.text (197 ∷ []))
        ∷ [])
    ∷ []

abbrev pub positive_values : List (Str × List (Str × Value))
positive_values =
    (str "decomposed-string", (str "v", Value.text (99 ∷ 97 ∷ 102 ∷ 101 ∷ 769 ∷ [])) ∷ [])
    ∷ (str "decomposed-key", ((101 ∷ 769 ∷ []), Value.text (str "value")) ∷ [])
    ∷ (
      str "supplementary-key-order",
      ((128512 ∷ []), Value.int (pos 1))
          ∷ ((57344 ∷ []), Value.int (pos 2))
          ∷ (str "A", Value.int (pos 3))
          ∷ [],
    )
    ∷ (
      str "json-string-escaping",
      (str "v", Value.text (60 ∷ 62 ∷ 38 ∷ 8232 ∷ 8233 ∷ 8 ∷ 11 ∷ 92 ∷ 34 ∷ [])) ∷ [],
    )
    ∷ (
      str "canonical-equivalence",
      (str "angstrom", Value.text (8491 ∷ []))
          ∷ (str "ring", Value.text (65 ∷ 778 ∷ []))
          ∷ (str "pre", Value.text (197 ∷ []))
          ∷ [],
    )
    ∷ []
