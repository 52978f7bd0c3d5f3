-- ===== src/Programs/Benchmark/Summary/Ordered.antt =====
-- scripts/benchmark.py: the order of the percentiles of a summary.
use execution_finality_for_a.Prelude.{
  ℕ, zero, suc, ◌≤◌, ◌<◌, ℤ, pos, pos_part, ◌-ℤ◌, ◌≤ℤ◌, min_ℤ, some, List, [], ◌∷◌, length, Elem,
  ◌≡◌, inl, inr, refl, arith, int_laws, eq_of_parts,
}
use execution_finality_for_a.Programs.Benchmark.Summary.{
  Floats, sorted, max_ℤ, least, greatest, item_from, item, index, quantile, percentile, Summary,
  summary,
}
use execution_finality_for_a.Programs.Benchmark.Summary.Sorted.{
  length-sorted, Elem-sorted, From, InOrder, InOrder-sorted,
}

-- A place within the list has an item.
item_found : (ns : List ℤ) (i : ℕ) → i < length ns → (a : ℤ) × (item_from ns i ≡ some a) × Elem a ns
item_found [] i h = absurd (omega (arith, h))
item_found (n ∷ ns) zero h = (n, refl, inl refl)
item_found (n ∷ ns) (suc i) h =
    let (a, e, among) = item_found ns i (omega (arith, h)) in (a, e, inr among)

From-item : (n : ℤ) (ns : List ℤ) (i : ℕ) (a : ℤ) → From n ns → item_from ns i ≡ some a → n ≤ℤ a
From-item n [] i a h e = cc e
From-item n (m ∷ ms) zero a (h, hs) e = ground (arith, e)
From-item n (m ∷ ms) (suc i) a (h, hs) e =
    let rest = From-item m ms i a hs e in omega (arith, h, rest)

-- A later item is not less.
items_ordered :
    (ns : List ℤ) (i j : ℕ) (a b : ℤ)
    → InOrder ns
    → i ≤ j
    → item_from ns i ≡ some a
    → item_from ns j ≡ some b
    → a ≤ℤ b
items_ordered [] i j a b h le ea eb = cc ea
items_ordered (n ∷ ns) zero zero a b h le ea eb = ground (arith, ea, eb)
items_ordered (n ∷ ns) zero (suc j) a b h le ea eb =
    let first = From-item n ns j b h eb in ground (arith, ea, first)
items_ordered (n ∷ ns) (suc i) zero a b h le ea eb = absurd (omega (arith, le))
items_ordered (n ∷ m ∷ ms) (suc i) (suc j) a b (h, hs) le ea eb =
    items_ordered (m ∷ ms) i j a b hs (omega (arith, le)) ea eb
items_ordered (n ∷ []) (suc i) (suc j) a b h le ea eb = cc ea

least_below : (n : ℤ) (ns : List ℤ) (a : ℤ) → Elem a (n ∷ ns) → least n ns ≤ℤ a
unfolding least min_ℤ
least_below n [] a (inl same) = ground (arith, same)
least_below n [] a (inr other) = absurd other
least_below n (m ∷ ms) a (inl same) =
    let first = least_below (min_ℤ n m) ms (min_ℤ n m) (inl refl) in ground (arith, same, first)
least_below n (m ∷ ms) a (inr (inl same)) =
    let first = least_below (min_ℤ n m) ms (min_ℤ n m) (inl refl) in ground (arith, same, first)
least_below n (m ∷ ms) a (inr (inr later)) = least_below (min_ℤ n m) ms a (inr later)

greatest_above : (n : ℤ) (ns : List ℤ) (a : ℤ) → Elem a (n ∷ ns) → a ≤ℤ greatest n ns
unfolding greatest max_ℤ
greatest_above n [] a (inl same) = ground (arith, same)
greatest_above n [] a (inr other) = absurd other
greatest_above n (m ∷ ms) a (inl same) =
    let first = greatest_above (max_ℤ n m) ms (max_ℤ n m) (inl refl) in ground (arith, same, first)
greatest_above n (m ∷ ms) a (inr (inl same)) =
    let first = greatest_above (max_ℤ n m) ms (max_ℤ n m) (inl refl) in ground (arith, same, first)
greatest_above n (m ∷ ms) a (inr (inr later)) = greatest_above (max_ℤ n m) ms a (inr later)

-- A summary of these values: its percentiles are of three of them, in order between the least and the
-- greatest.
pub record IsSummary (f : Floats) (n : ℤ) (ns : List ℤ) (r : Summary f) : Type 0 where
  pub at_50 : ℤ
  pub at_95 : ℤ
  pub at_99 : ℤ
  pub among_50 : Elem at_50 (n ∷ ns)
  pub among_95 : Elem at_95 (n ∷ ns)
  pub among_99 : Elem at_99 (n ∷ ns)
  pub from_least : least n ns ≤ℤ at_50
  pub to_95 : at_50 ≤ℤ at_95
  pub to_99 : at_95 ≤ℤ at_99
  pub to_greatest : at_99 ≤ℤ greatest n ns
  pub shape : r ≡ record {
    n = length (n ∷ ns);
    mean_us = f.mean (n ∷ ns);
    p50_us = f.thousandth at_50;
    p95_us = f.thousandth at_95;
    p99_us = f.thousandth at_99;
    min_us = f.thousandth (least n ns);
    max_us = f.thousandth (greatest n ns);
  }

module _ (f : Floats) where
  -- The place that `percentile` computes is one of the list.
  index_within : (k p : ℕ) → (i : ℕ) × (index f (suc k) p ≡ pos i) × (i ≤ k)
  unfolding index min_ℤ max_ℤ ◌-ℤ◌
  index_within k p = (pos_part (index f (suc k) p), ground arith, ground arith)

  index_ordered :
      (k p q : ℕ)
      → f.rounded (pos k) p ≤ℤ f.rounded (pos k) q
      → index f (suc k) p ≤ℤ index f (suc k) q
  unfolding index min_ℤ max_ℤ
  index_ordered k p q h =
      let last : pos (suc k) -ℤ pos 1 ≡ pos k = eq_of_parts _ _ (omega int_laws) in
      rw last (ground (arith, h))

  module _ (n : ℤ) (ns : List ℤ) where
    -- Of values that are not empty, a percentile is one.
    quantile_found :
        (p : ℕ)
        → (a : ℤ) × (i : ℕ) × (quantile f (n ∷ ns) p ≡ some a)
          × Elem a (n ∷ ns)
          × (item_from (sorted (n ∷ ns)) i ≡ some a)
          × (index f (length (sorted (n ∷ ns))) p ≡ pos i)
    unfolding quantile item
    quantile_found p =
        let many = length-sorted (n ∷ ns) in
        let (i, ei, le) = index_within (length ns) p in
        let (a, ea, among) = item_found (sorted (n ∷ ns)) i (omega (arith, many, le)) in
        let at : index f (length (sorted (n ∷ ns))) p ≡ pos i = rw many ei in
        (a, i, rw at ea, Elem-sorted a (n ∷ ns) among, ea, at)

    module _
        (monotone : (p q : ℕ)
          → p ≤ q
          → f.rounded (pos (length ns)) p ≤ℤ f.rounded (pos (length ns)) q) where
      -- A larger fraction gives no smaller percentile.
      quantiles_ordered :
          (p q : ℕ) (a b : ℤ)
          → p ≤ q
          → quantile f (n ∷ ns) p ≡ some a
          → quantile f (n ∷ ns) q ≡ some b
          → a ≤ℤ b
      quantiles_ordered p q a b le ea eb =
          let (x, i, ex, _, fx, px) = quantile_found p in
          let (y, j, ey, _, fy, py) = quantile_found q in
          let many = length-sorted (n ∷ ns) in
          let places = index_ordered (length ns) p q (monotone p q le) in
          let here : i ≤ j = ground (arith, many, px, py, places) in
          let apart =
            items_ordered (sorted (n ∷ ns)) i j x y (InOrder-sorted (n ∷ ns)) here fx fy in
          ground (arith, ea, eb, ex, ey, apart)

      -- Where the rounded product of a fraction and of the number of values less one is monotone in
      -- the fraction, `summary` of measured values does not raise. Its percentiles are three of the
      -- values, in order, none below the least and none above the greatest.
      pub summary_ordered : (r : Summary f) × (summary f (n ∷ ns) ≡ some r) × IsSummary f n ns r
      unfolding summary percentile
      summary_ordered =
          let (a, _, ea, ha, _, _) = quantile_found 50 in
          let (b, _, eb, hb, _, _) = quantile_found 95 in
          let (c, _, ec, hc, _, _) = quantile_found 99 in
          (
            _,
            rw (ea, eb, ec) refl,
            record {
              at_50 = a;
              at_95 = b;
              at_99 = c;
              among_50 = ha;
              among_95 = hb;
              among_99 = hc;
              from_least = least_below n ns a ha;
              to_95 = quantiles_ordered 50 95 a b (omega arith) ea eb;
              to_99 = quantiles_ordered 95 99 b c (omega arith) eb ec;
              to_greatest = greatest_above n ns c hc;
              shape = refl;
            },
          )
