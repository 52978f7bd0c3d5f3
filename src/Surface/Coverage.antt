-- ===== src/Surface/Coverage.antt =====
-- What a deployment that passes the audit looks like, said without the audit.
use execution_finality_for_a.Prelude.{
  Str, str_eq, ◌&&◌, true, false, List, [], ◌∷◌, ◌++◌, is_empty, ◌≡◌, ◌↔◌, refl, arith,
}
use execution_finality_for_a.Errors.{ok}
use execution_finality_for_a.Surface.{
  EffectSurface, SurfaceFinding, is_blank, exposure, audit_from, audit, severe, assert_complete,
}

-- Every externally effective path goes through a sink, at a privileged and named boundary.
pub record IsGuarded (s : EffectSurface) : Type 0 where
  pub mediated : s.sink_mediated ≡ true
  pub privileged : s.privileged ≡ true
  pub named : is_blank s.enforcement_boundary ≡ false

abbrev pub AllGuarded : List EffectSurface → Type 0
AllGuarded [] = Unit
AllGuarded (s ∷ ss) = (s.externally_effective ≡ true → IsGuarded s) × AllGuarded ss

is_empty-severe_append :
    (fs gs : List SurfaceFinding)
    → is_empty (severe (fs ++ gs)) ≡ (is_empty (severe fs) && is_empty (severe gs))
unfolding severe
is_empty-severe_append [] gs = refl
is_empty-severe_append (f ∷ fs) gs = ground (arith, is_empty-severe_append fs gs)

exposure-IsGuarded : (s : EffectSurface) → (is_empty (severe (exposure s)) ≡ true) ↔ IsGuarded s
unfolding exposure severe
exposure-IsGuarded s = ground arith

audit_from-AllGuarded :
    (seen : List (Str × Str)) (ss : List EffectSurface)
    → (is_empty (severe (audit_from seen ss)) ≡ true) ↔ AllGuarded ss
unfolding audit_from severe
audit_from-AllGuarded seen [] = (λ _. tt, λ _. refl)
audit_from-AllGuarded seen (s ∷ ss) = ground (
  arith,
  exposure-IsGuarded s,
  is_empty-severe_append (exposure s) (audit_from ((s.name, s.channel) ∷ seen) ss),
  audit_from-AllGuarded ((s.name, s.channel) ∷ seen) ss,
)

-- `assert_complete` returns exactly for a deployment in which every externally effective surface is
-- mediated by a sink, privileged, and has an enforcement boundary with a name that is not blank.
pub assert_complete_iff : (ss : List EffectSurface) → (assert_complete ss ≡ ok tt) ↔ AllGuarded ss
unfolding assert_complete audit
assert_complete_iff ss = ground (arith, audit_from-AllGuarded [] ss)
