-- ===== src/Race/Winners.antt =====
-- Of all threads that present one capability, exactly one gets past the claim.
use execution_finality_for_a.Prelude.{
  ◌⊎◌, inl, inr, ℕ, zero, suc, ◌+◌, ◌≤◌, Str, str_eq, ◌==◌, ◌||◌, ◌&&◌, Bool, true, false, List, [],
  ◌∷◌, ◌≡◌, refl, arith,
}
use execution_finality_for_a.Consumption.{ConsumptionStore, IsSingleUse}
use execution_finality_for_a.Effectors.{EffectHandle}
use execution_finality_for_a.Sink.Effectuate.{claim_of}
use execution_finality_for_a.Race.{Phase, Contender, advance, step_at, run}

-- The claim of the thread has been granted.
abbrev pub is_past : Phase → Bool
is_past Phase.verified = false
is_past (Phase.refused _) = false
is_past _ = true

-- The thread has asked for its claim.
abbrev pub has_asked : Phase → Bool
has_asked Phase.verified = false
has_asked _ = true

abbrev pub one_if : Bool → ℕ
one_if true = 1
one_if false = 0

abbrev pub wins : Str → Contender → ℕ
wins j k = one_if (j == k.token.capability_id && is_past k.phase)

-- How many threads got past the claim of this capability.
abbrev pub winners : Str → List Contender → ℕ
winners j [] = 0
winners j (k ∷ ks) = wins j k + winners j ks

-- Some thread has asked for a claim of this capability.
abbrev pub any_asked : Str → List Contender → Bool
any_asked j [] = false
any_asked j (k ∷ ks) = (j == k.token.capability_id && has_asked k.phase) || any_asked j ks

or_left : (b c : Bool) → b ≡ true → (b || c) ≡ true
or_left b c h = ground arith

or_right : (b c : Bool) → c ≡ true → (b || c) ≡ true
or_right b c h = ground arith

or-cases : (b c : Bool) → (b || c) ≡ true → (b ≡ true) ⊎ (c ≡ true)
or-cases b c h = ground arith

one_if-le : (b : Bool) → one_if b ≤ 1
one_if-le b = ground arith

winners_none : (j : Str) (ks : List Contender) → any_asked j ks ≡ false → winners j ks ≡ 0
winners_none j [] h = refl
winners_none j (k ∷ ks) h = ground (arith, winners_none j ks)

module _ {S E : Type 0} (store : ConsumptionStore S) (handle : EffectHandle E)
    (single : IsSingleUse store) (j : Str) where
  abbrev claims : S → ℕ
  claims s = one_if (store.is_claimed j s)

  wins-advance :
      (k : Contender) (s : S) (e : E)
      → let (k', s', _) = advance store handle k s e in wins j k' + claims s ≡ wins j k + claims s'
  unfolding advance
  wins-advance k s e = conserved k.phase refl
    where
      conserved :
          (ph : Phase)
          → k.phase ≡ ph
          → let (k', s', _) = advance store handle k s e in
            wins j k' + claims s ≡ wins j k + claims s'
      conserved Phase.verified h = ground (
        arith,
        single.claim-result k.token.capability_id (claim_of k.sink k.token k.now) s,
        single.claimed-claim j k.token.capability_id (claim_of k.sink k.token k.now) s,
      )
      conserved Phase.claimed h = ground arith
      conserved (Phase.refused x) h = ground arith
      conserved (Phase.effective x) h = ground arith
      conserved (Phase.failed x) h = ground arith

  winners-step_at :
      (i : ℕ) (ks : List Contender) (s : S) (e : E)
      → let (ks', s', _) = step_at store handle i ks s e in
        winners j ks' + claims s ≡ winners j ks + claims s'
  unfolding step_at
  winners-step_at i [] s e = refl
  winners-step_at zero (k ∷ ks) s e = omega (arith, wins-advance k s e)
  winners-step_at (suc i) (k ∷ ks) s e = omega (arith, winners-step_at i ks s e)

  winners-run :
      (is : List ℕ) (ks : List Contender) (s : S) (e : E)
      → let (ks', s', _) = run store handle is ks s e in
        winners j ks' + claims s ≡ winners j ks + claims s'
  unfolding run
  winners-run [] ks s e = refl
  winners-run (i ∷ is) ks s e =
      let (ks', s', e') = step_at store handle i ks s e in
      omega (arith, winners-step_at i ks s e, winners-run is ks' s' e')

  -- Whoever has asked for a claim of the capability finds it claimed.
  abbrev Settled : Bool → S → Type 0
  Settled asked s = asked ≡ true → store.is_claimed j s ≡ true

  Settled-advance :
      (k : Contender) (s : S) (e : E) (others : Bool)
      → Settled ((j == k.token.capability_id && has_asked k.phase) || others) s
      → let (k', s', _) = advance store handle k s e in
        Settled ((j == k'.token.capability_id && has_asked k'.phase) || others) s'
  unfolding advance
  Settled-advance k s e others h = settled k.phase refl
    where
      settled :
          (ph : Phase)
          → k.phase ≡ ph
          → let (k', s', _) = advance store handle k s e in
            Settled ((j == k'.token.capability_id && has_asked k'.phase) || others) s'
      settled Phase.verified q = ground (
        arith,
        single.claim-result k.token.capability_id (claim_of k.sink k.token k.now) s,
        single.claimed-claim j k.token.capability_id (claim_of k.sink k.token k.now) s,
      )
      settled Phase.claimed q = ground arith
      settled (Phase.refused x) q = ground arith
      settled (Phase.effective x) q = ground arith
      settled (Phase.failed x) q = ground arith

  claimed-step_at :
      (i : ℕ) (ks : List Contender) (s : S) (e : E)
      → store.is_claimed j s ≡ true
      → store.is_claimed j (step_at store handle i ks s e).1 ≡ true
  unfolding step_at
  claimed-step_at i [] s e h = h
  claimed-step_at zero (k ∷ ks) s e h = Settled-advance k s e true (λ _. h) (or_right _ true refl)
  claimed-step_at (suc i) (k ∷ ks) s e h = claimed-step_at i ks s e h

  Settled-step_at :
      (i : ℕ) (ks : List Contender) (s : S) (e : E)
      → Settled (any_asked j ks) s
      → let (ks', s', _) = step_at store handle i ks s e in Settled (any_asked j ks') s'
  unfolding step_at
  Settled-step_at i [] s e h = λ q. cc
  Settled-step_at zero (k ∷ ks) s e h = Settled-advance k s e (any_asked j ks) h
  Settled-step_at (suc i) (k ∷ ks) s e h = λ q.
      elim (or-cases _ (any_asked j (step_at store handle i ks s e).0) q) [
        | inl own ↦ claimed-step_at i ks s e (h (or_left _ (any_asked j ks) own))
        | inr other ↦ Settled-step_at i ks s e (λ x. h (or_right _ (any_asked j ks) x)) other
      ]

  Settled-run :
      (is : List ℕ) (ks : List Contender) (s : S) (e : E)
      → Settled (any_asked j ks) s
      → let (ks', s', _) = run store handle is ks s e in Settled (any_asked j ks') s'
  unfolding run
  Settled-run [] ks s e h = h
  Settled-run (i ∷ is) ks s e h =
      let (ks', s', e') = step_at store handle i ks s e in
      Settled-run is ks' s' e' (Settled-step_at i ks s e h)

  -- Under any schedule, from threads of which none has asked yet, at most one gets past the claim
  -- of a capability, and none does where it was claimed before.
  pub race_at_most_one :
      (is : List ℕ) (ks : List Contender) (s : S) (e : E)
      → any_asked j ks ≡ false
      → winners j (run store handle is ks s e).0 + one_if (store.is_claimed j s) ≤ 1
  race_at_most_one is ks s e h =
      let (ks', s', e') = run store handle is ks s e in
      omega (arith, winners-run is ks s e, winners_none j ks h, one_if-le (store.is_claimed j s'))

  -- Over a store that keeps the contract of single use, under any schedule, from threads of which
  -- none has asked for the capability yet: where it was unclaimed and some thread has asked for it
  -- in the end, exactly one thread has got past the claim.
  pub race_exactly_one :
      (is : List ℕ) (ks : List Contender) (s : S) (e : E)
      → any_asked j ks ≡ false
      → store.is_claimed j s ≡ false
      → any_asked j (run store handle is ks s e).0 ≡ true
      → winners j (run store handle is ks s e).0 ≡ 1
  race_exactly_one is ks s e h free asked =
      let (ks', s', e') = run store handle is ks s e in
      let settled : store.is_claimed j s' ≡ true = Settled-run is ks s e (λ q. cc (h, q)) asked in
      let before : one_if (store.is_claimed j s) ≡ 0 = rw free in
      let after : one_if (store.is_claimed j s') ≡ 1 = rw settled in
      omega (arith, winners-run is ks s e, winners_none j ks h)
