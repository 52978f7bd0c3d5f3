-- ===== src/Programs/Benchmark/Summary/Sorted.antt =====
-- `sorted` on measured values: the same values, as many, in order.
use execution_finality_for_a.Prelude.{
  suc, ℤ, ltb_ℤ, ◌≤ℤ◌, List, [], ◌∷◌, length, Elem, if◌then◌else◌, ◌≡◌, ◌⊎◌, inl, inr, refl, arith,
  ap, ◌∙◌, subst, Bool-cases,
}
use execution_finality_for_a.Programs.Benchmark.Summary.{insert_int, sorted}

length-insert_int : (n : ℤ) (ms : List ℤ) → length (insert_int n ms) ≡ suc (length ms)
unfolding insert_int
length-insert_int n [] = refl
length-insert_int n (m ∷ ms) = ground (arith, length-insert_int n ms)

pub length-sorted : (ns : List ℤ) → length (sorted ns) ≡ length ns
unfolding sorted
length-sorted [] = refl
length-sorted (n ∷ ns) = length-insert_int n (sorted ns) ∙ ap suc (length-sorted ns)

Elem-insert_int : (a n : ℤ) (ms : List ℤ) → Elem a (insert_int n ms) → (a ≡ n) ⊎ Elem a ms
unfolding insert_int
Elem-insert_int a n [] h = ground (arith, h)
Elem-insert_int a n (m ∷ ms) h = elim (Bool-cases (ltb_ℤ m n)) [
  | inl later ↦ elim (subst (λ t. Elem a (if t then m ∷ insert_int n ms else n ∷ m ∷ ms)) later h) [
    | inl same ↦ inr (inl same)
    | inr rest ↦ elim (Elem-insert_int a n ms rest) [
      | inl same ↦ inl same
      | inr old ↦ inr (inr old)
    ]
  ]
  | inr here ↦ elim (subst (λ t. Elem a (if t then m ∷ insert_int n ms else n ∷ m ∷ ms)) here h) [
    | inl same ↦ inl same
    | inr old ↦ inr old
  ]
]

pub Elem-sorted : (a : ℤ) (ns : List ℤ) → Elem a (sorted ns) → Elem a ns
unfolding sorted
Elem-sorted a [] h = h
Elem-sorted a (n ∷ ns) h = elim (Elem-insert_int a n (sorted ns) h) [
  | inl same ↦ inl same
  | inr old ↦ inr (Elem-sorted a ns old)
]

-- No number is less than the one before it.
abbrev pub From : ℤ → List ℤ → Type 0
From n [] = Unit
From n (m ∷ ms) = (n ≤ℤ m) × From m ms

From-insert_int : (k n : ℤ) (ms : List ℤ) → k ≤ℤ n → From k ms → From k (insert_int n ms)
unfolding insert_int
From-insert_int k n [] h hs = (h, tt)
From-insert_int k n (m ∷ ms) h (hm, hs) = elim (Bool-cases (ltb_ℤ m n)) [
  | inl later ↦ rw later (hm, From-insert_int m n ms (ground arith) hs)
  | inr here ↦ rw here (h, (ground arith, hs))
]

abbrev pub InOrder : List ℤ → Type 0
InOrder [] = Unit
InOrder (n ∷ ns) = From n ns

InOrder-insert_int : (n : ℤ) (ms : List ℤ) → InOrder ms → InOrder (insert_int n ms)
unfolding insert_int
InOrder-insert_int n [] h = tt
InOrder-insert_int n (m ∷ ms) h = elim (Bool-cases (ltb_ℤ m n)) [
  | inl later ↦ rw later (From-insert_int m n ms (ground arith) h)
  | inr here ↦ rw here (ground arith, h)
]

pub InOrder-sorted : (ns : List ℤ) → InOrder (sorted ns)
unfolding sorted
InOrder-sorted [] = tt
InOrder-sorted (n ∷ ns) = InOrder-insert_int n (sorted ns) (InOrder-sorted ns)
