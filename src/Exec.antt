-- ===== src/Exec.antt =====
-- Methods that change their object: the object's next state is given back with the value or the
-- exception, so that a raise does not undo a write.
use execution_finality_for_a.Prelude.{Bool, cond}
use execution_finality_for_a.Errors.{Error, Result, ok, err}

abbrev pub Exec : Type 0 → Type 0 → Type 0
Exec S A = S → Result A × S

module _ {S A : Type 0} where
  abbrev pub pure : A → Exec S A
  pure a s = (ok a, s)

  abbrev pub lift : Result A → Exec S A
  lift r s = (r, s)

  abbrev pub gets : (S → A) → Exec S A
  gets f s = (ok (f s), s)

module _ {S : Type 0} where
  -- `if c: raise e`
  abbrev pub raise_if : Bool → Error → Exec S (Unit {0})
  raise_if c e s = (cond c (err e) (ok tt), s)

  abbrev pub modify : (S → S) → Exec S (Unit {0})
  modify f s = (ok tt, f s)

module _ {S A B : Type 0} where
  abbrev pub continue : Result A → (A → Exec S B) → Exec S B
  continue (err raised) next s = (err raised, s)
  continue (ok value) next s = next value s

  infixl 10 ◌>>=◌ ◌>>◌
  abbrev pub ◌>>=◌ : Exec S A → (A → Exec S B) → Exec S B
  ◌>>=◌ method next s = let (r, after) = method s in continue r next after

  abbrev pub ◌>>◌ : Exec S A → Exec S B → Exec S B
  method >> rest = method >>= λ _. rest
