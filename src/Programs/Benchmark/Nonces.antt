-- ===== src/Programs/Benchmark/Nonces.antt =====
-- scripts/benchmark.py: the nonces of the acts, and the acts before a number.
use execution_finality_for_a.Prelude.{
  ℕ, zero, suc, ◌≤◌, str, ℤ, pos, negsuc, [], ◌∷◌, ◌++◌, List, append-nil, ◌≡◌, arith, sym, ◌∙◌,
}
use execution_finality_for_a.Platform.{Platform}
use execution_finality_for_a.Models.{CandidateAct}
use execution_finality_for_a.Canonical.{decimal}
use execution_finality_for_a.Canonical.Scalars.{put_int_prefix, decimal-put_int}
use execution_finality_for_a.Crypto.{is_ascii}
use execution_finality_for_a.Crypto.Documented.{IsDocumented, is_ascii-decimal}
use execution_finality_for_a.Protocol.Agreement.{SameText}
use execution_finality_for_a.Programs.Trail.{Apart}
use execution_finality_for_a.Programs.Benchmark.{make_candidate}

-- Two numbers with the same digits are the same.
pub decimal_injective : (i j : ℤ) → decimal i ≡ decimal j → i ≡ j
decimal_injective i j h =
    let shown = λ (k : ℤ). sym (append-nil (decimal k)) ∙ decimal-put_int k [] in
    (put_int_prefix i j [] [] tt tt (sym (shown i) ∙ h ∙ shown j)).0

-- The candidates of the numbers before `n`, the last of them first, and the first candidate of `run`.
abbrev pub done_upto : ℕ → List CandidateAct
done_upto zero = make_candidate (negsuc 0) ∷ []
done_upto (suc n) = make_candidate (pos n) ∷ done_upto n

module _ ⦃p : Platform⦄ (doc : IsDocumented p) where
  same_number : (i j : ℤ) → SameText (make_candidate i).nonce (make_candidate j).nonce → i ≡ j
  unfolding make_candidate is_ascii
  same_number i j h =
      let fixed =
        λ (k : ℤ). doc.fixes (str "n-" ++ decimal k) (ground (arith, is_ascii-decimal k)) in
      let same : (str "n-" ++ decimal i) ≡ (str "n-" ++ decimal j) = sym (fixed i) ∙ h ∙ fixed j in
      decimal_injective i j (ground (arith, same))

  -- A number's candidate is apart from those of the numbers before it.
  pub Apart-upto : (k n : ℕ) → n ≤ k → Apart (make_candidate (pos k)) (done_upto n)
  Apart-upto k zero h = ((λ same. ground (arith, same_number (pos k) (negsuc 0) same)), tt)
  Apart-upto k (suc n) h = (
    (λ same. ground (arith, same_number (pos k) (pos n) same)),
    Apart-upto k n (omega (arith, h)),
  )
