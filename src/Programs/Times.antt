-- ===== src/Programs/Times.antt =====
-- Readings of a clock that does not go back, and the tests that they pass.
use execution_finality_for_a.Prelude.{
  ℕ, ℤ, pos, ◌+ℤ◌, ◌-ℤ◌, ◌≤ℤ◌, ◌≤◌, min_ℤ, abs, ltb_ℤ, int_laws, +ℤ_parts, -ℤ_parts, false, ◌≡◌,
  arith,
}

module _ (start now : ℤ) (limit : ℕ) where
  pub not_early : start ≤ℤ now → ltb_ℤ now (start -ℤ pos limit) ≡ false
  not_early h = ground (arith, -ℤ_parts start (pos limit))

  pub not_stale : now ≤ℤ start +ℤ pos limit → ltb_ℤ (start +ℤ pos limit) now ≡ false
  not_stale h = ground (arith, +ℤ_parts start (pos limit))

  pub after_skew : start ≤ℤ now → start -ℤ pos limit ≤ℤ now
  after_skew h = omega int_laws

-- From the start to the issue to the presentation, which is within the limit of the start.
module _ (start issued at : ℤ) (limit : ℕ) (first : start ≤ℤ issued)
    (last : at ≤ℤ start +ℤ pos limit) where
  pub issued_fresh : issued ≤ℤ at → issued ≤ℤ start +ℤ pos limit
  issued_fresh second = omega arith

  pub unexpired :
      (freshness ttl : ℕ)
      → limit ≤ freshness
      → limit ≤ ttl
      → at ≤ℤ min_ℤ (start +ℤ pos freshness) (issued +ℤ pos ttl)
  unfolding min_ℤ
  unexpired freshness ttl f t =
      ground (
        arith,
        +ℤ_parts start (pos freshness),
        +ℤ_parts issued (pos ttl),
        +ℤ_parts start (pos limit),
      )

-- A reading within the limit of one before it differs from it by the limit at most.
pub near :
    (before now : ℤ) (limit : ℕ)
    → before ≤ℤ now
    → now ≤ℤ before +ℤ pos limit
    → abs (now -ℤ before) ≤ℤ pos limit
unfolding abs ◌-ℤ◌
near before now limit h l = ground (arith, +ℤ_parts before (pos limit))
