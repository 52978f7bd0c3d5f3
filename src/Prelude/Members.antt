-- ===== src/Prelude/Members.antt =====
-- Membership, inclusion and distinctness as predicates, and the tests that decide them.
use Prim.Native.Nat.{◌≤◌}
use mathlib.Core.Path.{◌≡◌, refl}
use mathlib.Core.Logic.{◌⊎◌, ◌↔◌}
use mathlib.Core.Bool.{true}
use mathlib.Core.List.{List, [], ◌∷◌}
use native.Mathlib.Omega.{arith}
use execution_finality_for_a.Prelude.Tests.{if◌then◌else◌, length, eqb}
use execution_finality_for_a.Prelude.Equality.{Eq, contains, is_subset}

module _ {A : Type 0} where
  abbrev pub Elem : A → List A → Type 0
  Elem a [] = ⊥
  Elem a (x ∷ xs) = (a ≡ x) ⊎ Elem a xs

  abbrev pub Subset : List A → List A → Type 0
  Subset [] ys = Unit
  Subset (x ∷ xs) ys = Elem x ys × Subset xs ys

  abbrev pub Distinct : List A → Type 0
  Distinct [] = Unit
  Distinct (x ∷ xs) = ¬ (Elem x xs) × Distinct xs

module _ {A : Type 0} ⦃e : Eq A⦄ where
  pub contains_iff : (xs : List A) (a : A) → (contains xs a ≡ true) ↔ Elem a xs
  contains_iff [] a = (λ h. cc, λ h. absurd h)
  contains_iff (x ∷ xs) a = ground (arith, contains_iff xs a)

  pub is_subset_iff : (xs ys : List A) → (is_subset xs ys ≡ true) ↔ Subset xs ys
  is_subset_iff [] ys = (λ _. tt, λ _. refl)
  is_subset_iff (x ∷ xs) ys = ground (arith, contains_iff ys x, is_subset_iff xs ys)

  -- The elements of `set(xs)`, each once.
  unfoldable pub to_set : List A → List A
  to_set [] = []
  to_set (x ∷ xs) = let rest = to_set xs in if contains rest x then rest else x ∷ rest

  pub contains-to_set : (xs : List A) (a : A) → contains (to_set xs) a ≡ contains xs a
  unfolding to_set
  contains-to_set [] a = refl
  contains-to_set (x ∷ xs) a = ground (arith, contains-to_set xs a, contains-to_set xs x)

  pub length-to_set : (xs : List A) → length (to_set xs) ≤ length xs
  unfolding to_set
  length-to_set [] = omega arith
  length-to_set (x ∷ xs) = ground (arith, length-to_set xs)

  -- `len(set(xs)) == len(xs)`: nothing occurs twice.
  pub length-to_set_iff :
      (xs : List A) → (eqb (length (to_set xs)) (length xs) ≡ true) ↔ Distinct xs
  unfolding to_set
  length-to_set_iff [] = (λ _. tt, λ _. refl)
  length-to_set_iff (x ∷ xs) =
      ground
        (arith, length-to_set_iff xs, length-to_set xs, contains-to_set xs x, contains_iff xs x)
