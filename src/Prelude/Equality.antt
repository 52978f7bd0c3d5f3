-- ===== src/Prelude/Equality.antt =====
-- Python's `==` and `in`, for the types whose equality the program tests.
use Prim.Native.Nat.{ℕ}
use Prim.Native.Char.{code}
use Prim.Native.String.{String}
use mathlib.Core.Path.{◌≡◌, refl}
use mathlib.Core.Logic.{ite, ◌↔◌}
use mathlib.Core.Bool.{Bool, true, false, ◌||◌, ◌&&◌}
use mathlib.Core.List.{List, [], ◌∷◌}
use native.Mathlib.Omega.{arith}
use native.Mathlib.Decide.{ℕ_discrete}
use execution_finality_for_a.Prelude.Int.{ℤ}

-- A Python `str`: its code points, surrogates included.
abbrev pub Str : Type 0
Str = List ℕ

-- A text literal of the source.
abbrev pub str : String → Str
str String.[] = []
str (String.◌∷◌ c s) = code c ∷ str s

pub record Eq {ℓ} (A : Type ℓ) : Type ℓ where
  pub dec : Discrete A

module _ {ℓ} {A : Type ℓ} ⦃e : Eq A⦄ where
  infix 50 ◌==◌
  abbrev pub ◌==◌ : A → A → Bool
  a == b = ite (e.dec a b) true false

  -- `a in xs`
  abbrev pub contains : List A → A → Bool
  contains [] a = false
  contains (x ∷ xs) a = a == x || contains xs a

  -- `set(xs).issubset(ys)`
  abbrev pub is_subset : List A → List A → Bool
  is_subset [] ys = true
  is_subset (x ∷ xs) ys = contains ys x && is_subset xs ys

  pub ==_iff : (a b : A) → ((a == b) ≡ true) ↔ (a ≡ b)
  ==_iff a b = ground arith

  pub ==_refl : (a : A) → (a == a) ≡ true
  ==_refl a = (==_iff a a).1 refl

unfoldable pub Str-discrete : Discrete Str
Str-discrete = hlevel ℕ_discrete

unfoldable pub ℤ-discrete : Discrete ℤ
ℤ-discrete = hlevel ℕ_discrete

unfoldable pub Strs-discrete : Discrete (List Str)
Strs-discrete = hlevel ℕ_discrete

instance abbrev pub str_eq : Eq Str
str_eq = record { dec = Str-discrete }

instance abbrev pub int_eq : Eq ℤ
int_eq = record { dec = ℤ-discrete }

instance abbrev pub strs_eq : Eq (List Str)
strs_eq = record { dec = Strs-discrete }
