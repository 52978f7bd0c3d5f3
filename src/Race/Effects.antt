-- ===== src/Race/Effects.antt =====
-- The effects of a race at one guarded effector: one record for each thread whose effect was made.
use execution_finality_for_a.Prelude.{
  ℕ, zero, suc, ◌+◌, ◌≤◌, Str, str_eq, ◌==◌, ◌&&◌, Bool, true, false, List, [], ◌∷◌, ◌++◌, length,
  ◌≡◌, refl, arith, ap, sym, ◌∙◌, append_assoc, append-nil, inl, inr, Str-discrete,
}
use execution_finality_for_a.Errors.{Result, ok, err, Result-cases}
use execution_finality_for_a.Platform.{Platform}
use execution_finality_for_a.Consumption.{ConsumptionStore, IsSingleUse}
use execution_finality_for_a.Effectors.{EffectRecord, GuardedEffector, bound_handle, guarded_commit}
use execution_finality_for_a.Effectors.Laws.{commit-ok, commit-err}
use execution_finality_for_a.Race.{Phase, Contender, advance, step_at, run}
use execution_finality_for_a.Race.Winners.{one_if, winners, any_asked, race_at_most_one}

abbrev pub is_effective : Phase → Bool
is_effective (Phase.effective _) = true
is_effective _ = false

-- How many threads have had their effect made, at all and for one capability.
abbrev pub effects : List Contender → ℕ
effects [] = 0
effects (k ∷ ks) = one_if (is_effective k.phase) + effects ks

abbrev pub effects_of : Str → List Contender → ℕ
effects_of j [] = 0
effects_of j (k ∷ ks) =
    one_if (j == k.token.capability_id && is_effective k.phase) + effects_of j ks

length-snoc : (es : List EffectRecord) (r : EffectRecord) → length (es ++ r ∷ []) ≡ length es + 1
length-snoc [] r = refl
length-snoc (x ∷ es) r = omega (arith, length-snoc es r)

effects_of-le-winners : (j : Str) (ks : List Contender) → effects_of j ks ≤ winners j ks
effects_of-le-winners j [] = omega arith
effects_of-le-winners j (k ∷ ks) = ground (arith, effects_of-le-winners j ks)

length-append : (xs ys : List EffectRecord) → length (xs ++ ys) ≡ length xs + length ys
length-append [] ys = omega arith
length-append (x ∷ xs) ys = omega (arith, length-append xs ys)

-- All threads present this capability.
abbrev pub AllPresent : Str → List Contender → Type 0
AllPresent j [] = Unit
AllPresent j (k ∷ ks) = (k.token.capability_id ≡ j) × AllPresent j ks

effects-effects_of :
    (j : Str) (ks : List Contender) → AllPresent j ks → effects ks ≡ effects_of j ks
unfolding Str-discrete
effects-effects_of j [] all = refl
effects-effects_of j (k ∷ ks) (here, there) = ground (arith, here, effects-effects_of j ks there)

module _ ⦃p : Platform⦄ {S : Type 0} (store : ConsumptionStore S) (marker : ℕ) where
  abbrev recorded : GuardedEffector → ℕ
  recorded e = length e.records

  recorded-commit :
      (k : Contender) (e : GuardedEffector) (r : Result EffectRecord)
      → (guarded_commit k.candidate marker e).0 ≡ r
      → recorded (guarded_commit k.candidate marker e).1
        ≡ recorded e + one_if (elim r [ ok _ ↦ true | err _ ↦ false ])
  recorded-commit k e (ok effect) h =
      ground (arith, commit-ok k.candidate marker e h, length-snoc e.records effect)
  recorded-commit k e (err x) h = ground (arith, commit-err k.candidate marker e h)

  recorded-advance :
      (k : Contender) (s : S) (e : GuardedEffector)
      → let (k', _, e') = advance store (bound_handle marker) k s e in
        recorded e' + one_if (is_effective k.phase) ≡ recorded e + one_if (is_effective k'.phase)
  unfolding advance bound_handle
  recorded-advance k s e = conserved k.phase refl
    where
      conserved :
          (ph : Phase)
          → k.phase ≡ ph
          → let (k', _, e') = advance store (bound_handle marker) k s e in
            recorded e' + one_if (is_effective k.phase)
            ≡ recorded e + one_if (is_effective k'.phase)
      conserved Phase.verified h = ground arith
      conserved Phase.claimed h =
          ground (arith, recorded-commit k e (guarded_commit k.candidate marker e).0 refl)
      conserved (Phase.refused x) h = ground arith
      conserved (Phase.effective x) h = ground arith
      conserved (Phase.failed x) h = ground arith

  recorded-step_at :
      (i : ℕ) (ks : List Contender) (s : S) (e : GuardedEffector)
      → let (ks', _, e') = step_at store (bound_handle marker) i ks s e in
        recorded e' + effects ks ≡ recorded e + effects ks'
  unfolding step_at
  recorded-step_at i [] s e = refl
  recorded-step_at zero (k ∷ ks) s e = omega (arith, recorded-advance k s e)
  recorded-step_at (suc i) (k ∷ ks) s e = omega (arith, recorded-step_at i ks s e)

  -- Under any schedule the effector has one more record for each thread whose effect was made.
  pub recorded-run :
      (is : List ℕ) (ks : List Contender) (s : S) (e : GuardedEffector)
      → let (ks', _, e') = run store (bound_handle marker) is ks s e in
        length e'.records + effects ks ≡ length e.records + effects ks'
  unfolding run
  recorded-run [] ks s e = refl
  recorded-run (i ∷ is) ks s e =
      let (ks', s', e') = step_at store (bound_handle marker) i ks s e in
      omega (arith, recorded-step_at i ks s e, recorded-run is ks' s' e')

  AllPresent-step_at :
      (j : Str) (i : ℕ) (ks : List Contender) (s : S) (e : GuardedEffector)
      → AllPresent j ks
      → AllPresent j (step_at store (bound_handle marker) i ks s e).0
  unfolding step_at advance
  AllPresent-step_at j i [] s e all = tt
  AllPresent-step_at j zero (k ∷ ks) s e (here, there) = (here, there)
  AllPresent-step_at j (suc i) (k ∷ ks) s e (here, there) =
      (here, AllPresent-step_at j i ks s e there)

  AllPresent-run :
      (j : Str) (is : List ℕ) (ks : List Contender) (s : S) (e : GuardedEffector)
      → AllPresent j ks
      → AllPresent j (run store (bound_handle marker) is ks s e).0
  unfolding run
  AllPresent-run j [] ks s e all = all
  AllPresent-run j (i ∷ is) ks s e all =
      let (ks', s', e') = step_at store (bound_handle marker) i ks s e in
      AllPresent-run j is ks' s' e' (AllPresent-step_at j i ks s e all)

  -- The records of the effector before a run stay, with those of the run behind them.
  pub Appends : GuardedEffector → GuardedEffector → Type 0
  Appends e after = (made : List EffectRecord) × (after.records ≡ e.records ++ made)

  Appends-trans : (e f g : GuardedEffector) → Appends e f → Appends f g → Appends e g
  unfolding Appends
  Appends-trans e f g (xs, ex) (ys, ey) =
      (xs ++ ys, ey ∙ ap (λ (rs : List EffectRecord). rs ++ ys) ex ∙ append_assoc e.records xs ys)

  Appends-advance :
      (k : Contender) (s : S) (e : GuardedEffector)
      → Appends e (advance store (bound_handle marker) k s e).2
  unfolding advance bound_handle Appends
  Appends-advance k s e = grown k.phase refl
    where
      grown : (ph : Phase) → k.phase ≡ ph → Appends e (advance store (bound_handle marker) k s e).2
      grown Phase.claimed h = elim (Result-cases (guarded_commit k.candidate marker e).0) [
        | inl (r, er) ↦ (r ∷ [], ground (arith, commit-ok k.candidate marker e er))
        | inr (x, ex) ↦
            ([], ground (arith, commit-err k.candidate marker e ex, append-nil e.records))
      ]
      grown Phase.verified h = ([], ground (arith, append-nil e.records))
      grown (Phase.refused x) h = ([], ground (arith, append-nil e.records))
      grown (Phase.effective x) h = ([], ground (arith, append-nil e.records))
      grown (Phase.failed x) h = ([], ground (arith, append-nil e.records))

  Appends-step_at :
      (i : ℕ) (ks : List Contender) (s : S) (e : GuardedEffector)
      → Appends e (step_at store (bound_handle marker) i ks s e).2
  unfolding step_at Appends
  Appends-step_at i [] s e = ([], sym (append-nil e.records))
  Appends-step_at zero (k ∷ ks) s e = Appends-advance k s e
  Appends-step_at (suc i) (k ∷ ks) s e = Appends-step_at i ks s e

  Appends-run :
      (is : List ℕ) (ks : List Contender) (s : S) (e : GuardedEffector)
      → Appends e (run store (bound_handle marker) is ks s e).2
  unfolding run Appends
  Appends-run [] ks s e = ([], sym (append-nil e.records))
  Appends-run (i ∷ is) ks s e =
      let (ks', s', e') = step_at store (bound_handle marker) i ks s e in
      Appends-trans e e' (run store (bound_handle marker) is ks' s' e').2 (Appends-step_at i ks s e)
        (Appends-run is ks' s' e')

  -- Over a store that keeps the contract of single use and one guarded effector, under any
  -- schedule, from threads that all present one capability and of which none has asked for it yet:
  -- the effector's records stay, and behind them is at most one more, and none where the capability
  -- was claimed before.
  pub race_one_effect :
      (single : IsSingleUse store) (j : Str) (is : List ℕ) (ks : List Contender) (s : S)
      (e : GuardedEffector)
      → AllPresent j ks
      → any_asked j ks ≡ false
      → let after = (run store (bound_handle marker) is ks s e).2 in
        (made : List EffectRecord) × (after.records ≡ e.records ++ made)
        × (length made + one_if (store.is_claimed j s) ≤ 1)
  unfolding Appends
  race_one_effect single j is ks s e all h =
      let (made, em) = Appends-run is ks s e in
      let after = run store (bound_handle marker) is ks s e in
      let counted = recorded-run is ks s e in
      let most = race_at_most_one store (bound_handle marker) single j is ks s e h in
      let few = effects_of-le-winners j after.0 in
      let theirs = effects-effects_of j after.0 (AllPresent-run j is ks s e all) in
      let many = ap (λ (rs : List EffectRecord). length rs) em ∙ length-append e.records made in
      (made, em, omega (arith, counted, most, few, theirs, many))
