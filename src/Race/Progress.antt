-- ===== src/Race/Progress.antt =====
-- No thread waits for another: two steps of its own end it, however the others are scheduled.
use execution_finality_for_a.Prelude.{
  ℕ, zero, suc, ◌+◌, ◌-◌, ◌≤◌, ◌<◌, Str, str_eq, ◌==◌, ◌||◌, eqb, if◌then◌else◌, Bool, true, false,
  List, [], ◌∷◌, length, ◌≡◌, refl, arith,
}
use execution_finality_for_a.Consumption.{ConsumptionStore, IsSingleUse}
use execution_finality_for_a.Effectors.{EffectHandle}
use execution_finality_for_a.Race.{Phase, Contender, advance, step_at, run}
use execution_finality_for_a.Race.Winners.{has_asked, winners, any_asked, race_exactly_one}

-- The steps that a thread has left at most.
abbrev pub steps_left : Phase → ℕ
steps_left Phase.verified = 2
steps_left Phase.claimed = 1
steps_left _ = 0

abbrev pub left_at : ℕ → List Contender → ℕ
left_at i [] = 0
left_at zero (k ∷ ks) = steps_left k.phase
left_at (suc i) (k ∷ ks) = left_at i ks

abbrev pub total_left : List Contender → ℕ
total_left [] = 0
total_left (k ∷ ks) = steps_left k.phase + total_left ks

-- How often the schedule names the place.
abbrev pub turns : ℕ → List ℕ → ℕ
turns i [] = 0
turns i (h ∷ is) = if eqb i h then suc (turns i is) else turns i is

-- Some thread presents the capability.
abbrev pub presented : Str → List Contender → Bool
presented j [] = false
presented j (k ∷ ks) = j == k.token.capability_id || presented j ks

none_left : (ks : List Contender) → ((i : ℕ) → i < length ks → left_at i ks ≡ 0) → total_left ks ≡ 0
none_left [] h = refl
none_left (k ∷ ks) h =
    ground (arith, h 0 (omega arith), none_left ks (λ i l. h (suc i) (omega arith)))

ended_asked : (ph : Phase) → steps_left ph ≡ 0 → has_asked ph ≡ true
ended_asked Phase.verified h = absurd (omega (arith, h))
ended_asked _ h = refl

all_asked :
    (j : Str) (ks : List Contender)
    → total_left ks ≡ 0
    → presented j ks ≡ true
    → any_asked j ks ≡ true
all_asked j [] h p = p
all_asked j (k ∷ ks) h p =
    let asked = ended_asked k.phase (omega arith) in
    let others = all_asked j ks (omega arith) in ground (arith, asked, others)

module _ {S E : Type 0} (store : ConsumptionStore S) (handle : EffectHandle E) where
  left-advance :
      (k : Contender) (s : S) (e : E)
      → steps_left (advance store handle k s e).0.phase ≤ steps_left k.phase - 1
  unfolding advance
  left-advance k s e = shorter k.phase refl
    where
      shorter :
          (ph : Phase)
          → k.phase ≡ ph
          → steps_left (advance store handle k s e).0.phase ≤ steps_left k.phase - 1
      shorter Phase.verified h = ground arith
      shorter Phase.claimed h = ground arith
      shorter (Phase.refused x) h = ground arith
      shorter (Phase.effective x) h = ground arith
      shorter (Phase.failed x) h = ground arith

  token-advance : (k : Contender) (s : S) (e : E) → (advance store handle k s e).0.token ≡ k.token
  unfolding advance
  token-advance k s e = refl

  left-step_at :
      (i j : ℕ) (ks : List Contender) (s : S) (e : E)
      → left_at i (step_at store handle j ks s e).0
        ≤ (if eqb i j then left_at i ks - 1 else left_at i ks)
  unfolding step_at
  left-step_at i j [] s e = ground arith
  left-step_at zero zero (k ∷ ks) s e = ground (arith, left-advance k s e)
  left-step_at zero (suc j) (k ∷ ks) s e = ground arith
  left-step_at (suc i) zero (k ∷ ks) s e = ground arith
  left-step_at (suc i) (suc j) (k ∷ ks) s e = ground (arith, left-step_at i j ks s e)

  left-run :
      (i : ℕ) (is : List ℕ) (ks : List Contender) (s : S) (e : E)
      → left_at i (run store handle is ks s e).0 ≤ left_at i ks - turns i is
  unfolding run
  left-run i [] ks s e = omega arith
  left-run i (h ∷ is) ks s e =
      let (ks', s', e') = step_at store handle h ks s e in
      ground (arith, left-step_at i h ks s e, left-run i is ks' s' e')

  left_at-le : (i : ℕ) (ks : List Contender) → left_at i ks ≤ 2
  left_at-le i [] = omega arith
  left_at-le zero (k ∷ ks) = bound k.phase
    where
      bound : (ph : Phase) → steps_left ph ≤ 2
      bound Phase.verified = omega arith
      bound Phase.claimed = omega arith
      bound _ = omega arith
  left_at-le (suc i) (k ∷ ks) = left_at-le i ks

  kept-step_at :
      (j : Str) (i : ℕ) (ks : List Contender) (s : S) (e : E)
      → let ks' = (step_at store handle i ks s e).0 in
        (length ks' ≡ length ks) × (presented j ks' ≡ presented j ks)
  unfolding step_at
  kept-step_at j i [] s e = (refl, refl)
  kept-step_at j zero (k ∷ ks) s e = ground (arith, token-advance k s e)
  kept-step_at j (suc i) (k ∷ ks) s e = ground (arith, kept-step_at j i ks s e)

  kept-run :
      (j : Str) (is : List ℕ) (ks : List Contender) (s : S) (e : E)
      → let ks' = (run store handle is ks s e).0 in
        (length ks' ≡ length ks) × (presented j ks' ≡ presented j ks)
  unfolding run
  kept-run j [] ks s e = (refl, refl)
  kept-run j (i ∷ is) ks s e =
      let (ks', s', e') = step_at store handle i ks s e in
      ground (arith, kept-step_at j i ks s e, kept-run j is ks' s' e')

  -- Over a store that keeps the contract of single use, under any schedule that gives each thread at
  -- least two steps, in any order: every thread has ended, and of the threads that presented a
  -- capability that was unclaimed, and for which none had asked before, exactly one has got past the
  -- claim.
  pub fair_run :
      (single : IsSingleUse store) (j : Str) (is : List ℕ) (ks : List Contender) (s : S) (e : E)
      → ((i : ℕ) → i < length ks → 2 ≤ turns i is)
      → presented j ks ≡ true
      → any_asked j ks ≡ false
      → store.is_claimed j s ≡ false
      → (total_left (run store handle is ks s e).0 ≡ 0)
        × (winners j (run store handle is ks s e).0 ≡ 1)
  fair_run single j is ks s e fair here fresh free =
      let (ks', s', e') = run store handle is ks s e in
      let (size, same) = kept-run j is ks s e in
      let ended = none_left ks' (λ i l.
        omega (arith, left-run i is ks s e, left_at-le i ks, fair i (omega (arith, size)))) in
      (
        ended,
        race_exactly_one store handle single j is ks s e fresh free
            (all_asked j ks' ended (cc (same, here))),
      )
