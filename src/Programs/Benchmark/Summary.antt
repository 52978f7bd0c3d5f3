-- ===== src/Programs/Benchmark/Summary.antt =====
-- scripts/benchmark.py: `percentile` and `summary`. Floats, and what is computed with them, are a
-- parameter.
pub mod Ordered
pub mod Sorted
use execution_finality_for_a.Prelude.{
  ℕ, zero, suc, ◌-◌, ltb, ℤ, pos, negsuc, ltb_ℤ, ◌-ℤ◌, min_ℤ, Option, none, some, List, [], ◌∷◌,
  length, if◌then◌else◌,
}

-- An exception ends the function.
infixl 10 ◌>>=◌
abbrev pub ◌>>=◌ : {A B : Type 0} → Option A → (A → Option B) → Option B
none >>= next = none
some value >>= next = next value

-- Python's floats, as the script uses them.
pub record Floats : Type 1 where
  pub Float : Type 0
  -- int(round(n * p)), for `p` in hundredths
  pub rounded : ℤ → ℕ → ℤ
  -- n / 1000.0
  pub thousandth : ℤ → Float
  -- statistics.fmean(values) / 1000.0, for values that are not empty
  pub mean : List ℤ → Float

-- `sorted(values)`
unfoldable pub insert_int : ℤ → List ℤ → List ℤ
insert_int n [] = n ∷ []
insert_int n (m ∷ ms) = if ltb_ℤ m n then m ∷ insert_int n ms else n ∷ m ∷ ms

unfoldable pub sorted : List ℤ → List ℤ
unfolding insert_int
sorted [] = []
sorted (n ∷ ns) = insert_int n (sorted ns)

-- `max(a, b)`: the first unless the second is larger.
unfoldable pub max_ℤ : ℤ → ℤ → ℤ
max_ℤ a b = if ltb_ℤ a b then b else a

-- `min(values)` and `max(values)` of a first value and others.
unfoldable pub least : ℤ → List ℤ → ℤ
unfolding min_ℤ
least n [] = n
least n (m ∷ ms) = least (min_ℤ n m) ms

unfoldable pub greatest : ℤ → List ℤ → ℤ
unfolding max_ℤ
greatest n [] = n
greatest n (m ∷ ms) = greatest (max_ℤ n m) ms

abbrev pub item_from : List ℤ → ℕ → Option ℤ
item_from [] i = none
item_from (n ∷ ns) zero = some n
item_from (n ∷ ns) (suc i) = item_from ns i

-- `v[idx]`: a negative index counts from the end; `none` is an IndexError.
unfoldable pub item : List ℤ → ℤ → Option ℤ
item v (pos i) = item_from v i
item v (negsuc i) = if ltb i (length v) then item_from v (length v - 1 - i) else none

module _ (f : Floats) where
  -- `idx`, for a list of this length.
  unfoldable pub index : ℕ → ℕ → ℤ
  unfolding ◌-ℤ◌ min_ℤ max_ℤ
  index n p = min_ℤ (pos n -ℤ pos 1) (max_ℤ (pos 0) (f.rounded (pos n -ℤ pos 1) p))

  -- `percentile`, before its division.
  unfoldable pub quantile : List ℤ → ℕ → Option ℤ
  unfolding sorted item index
  quantile values p = let v = sorted values in item v (index (length v) p)

  unfoldable pub percentile : List ℤ → ℕ → Option f.Float
  unfolding quantile
  percentile values p = do n ← quantile values p; some (f.thousandth n)

  pub record Summary : Type 0 where
    pub n : ℕ
    pub mean_us : f.Float
    pub p50_us : f.Float
    pub p95_us : f.Float
    pub p99_us : f.Float
    pub min_us : f.Float
    pub max_us : f.Float

  -- `summary`; `none` is the StatisticsError of `fmean` on no values, or an IndexError.
  unfoldable pub summary : List ℤ → Option Summary
  unfolding percentile least greatest
  summary [] = none
  summary (n ∷ ns) = do
    p50 ← percentile (n ∷ ns) 50
    p95 ← percentile (n ∷ ns) 95
    p99 ← percentile (n ∷ ns) 99
    some (record {
      n = length (n ∷ ns);
      mean_us = f.mean (n ∷ ns);
      p50_us = p50;
      p95_us = p95;
      p99_us = p99;
      min_us = f.thousandth (least n ns);
      max_us = f.thousandth (greatest n ns);
    })
