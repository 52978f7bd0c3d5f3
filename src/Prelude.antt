-- ===== src/Prelude.antt =====
-- The names that every module shares: the libraries', passed on, and those of the children:
-- tests and conditionals, integers, decidable equality, Python's text and dictionaries.
mod Tests
mod Int
mod Equality
mod Dicts
mod Members
pub use Tests.*
unfoldable pub use Int.{◌+ℤ◌, ◌-ℤ◌, min_ℤ, abs}
pub use Int.*
unfoldable pub use Equality.{Str-discrete, ℤ-discrete, Strs-discrete}
pub use Equality.*
unfoldable pub use native.Mathlib.Decide.{ℕ_discrete}
unfoldable pub use Dicts.{lookup, insert}
pub use Dicts.*
unfoldable pub use Members.{to_set}
pub use Members.*
pub use Prim.Native.Nat.{ℕ, zero, suc, ◌+◌, ◌-◌, ◌*◌, ◌/◌, ◌%◌, ◌^◌, ◌≤◌, ◌<◌}
pub use Prim.Native.String.{String}
pub use mathlib.Core.Path.{◌≡◌, refl, sym, ap, ◌∙◌, subst}
pub use mathlib.Core.Logic.{◌≢◌, ◌↔◌, ◌⊎◌, inl, inr}
pub use mathlib.Core.Bool.{Bool, true, false, not, cond, ◌&&◌, ◌||◌}
pub use mathlib.Core.Option.{Option, none, some}
pub use mathlib.Core.List.{List, [], ◌∷◌, ◌++◌, map, append_assoc, append-nil}
pub use native.Mathlib.Omega.{arith}
