-- ===== src/State/Invariant.antt =====
-- The protected state over any sequence of authorisation requests, granted or refused.
use execution_finality_for_a.Prelude.{
  ℕ, suc, Str, str_eq, Str-discrete, ◌==◌, ℤ, pos, ◌+ℤ◌, ◌≤ℤ◌, pos_part, neg_part, int_laws,
  if◌then◌else◌, Bool, ◌&&◌, true, false, List, [], ◌∷◌, ◌≡◌, refl, arith, ap,
}
use execution_finality_for_a.Errors.{Result, ok, err}
use execution_finality_for_a.Platform.{Platform}
use execution_finality_for_a.Models.{CandidateAct, StateTransition}
use execution_finality_for_a.State.{SourceState, ProtectedState, transition_for_authorization}
use execution_finality_for_a.State.Laws.{
  entry, charged, Charges, transition-Charges, entry-transition, transition-err,
}

-- A request: the act and its cost.
abbrev pub Request : Type 0
Request = CandidateAct × ℤ

-- The transitions of one call and of the calls after it.
abbrev pub granted : Result StateTransition → List StateTransition → List StateTransition
granted (ok t) ts = t ∷ ts
granted (err _) ts = ts

module _ ⦃p : Platform⦄ where
  -- Requests in the order in which they take the lock; a caller that gets an error goes on.
  unfoldable pub serve : List Request → ProtectedState → List StateTransition × ProtectedState
  serve [] s = ([], s)
  serve ((c, cost) ∷ reqs) s =
      let (r, s') = transition_for_authorization c cost s in
      let (ts, s'') = serve reqs s' in (granted r ts, s'')

abbrev pub is_granted : Result StateTransition → Bool
is_granted (ok _) = true
is_granted (err _) = false

module _ ⦃p : Platform⦄ where
  -- How many of the requests are for an act of this source and are granted, and what they asked for.
  unfoldable pub grants_of : Str → List Request → ProtectedState → ℕ
  grants_of k [] s = 0
  grants_of k ((c, cost) ∷ reqs) s =
      let (r, s') = transition_for_authorization c cost s in
      let rest = grants_of k reqs s' in if is_granted r && k == c.source then suc rest else rest

  unfoldable pub cost_of : Str → List Request → ProtectedState → ℤ
  cost_of k [] s = pos 0
  cost_of k ((c, cost) ∷ reqs) s =
      let (r, s') = transition_for_authorization c cost s in
      let rest = cost_of k reqs s' in if is_granted r && k == c.source then cost +ℤ rest else rest

-- The books of one source over `n` transitions that took `spent` from its budget.
pub record Balanced (a z : SourceState) (n : ℕ) (spent : ℤ) : Type 0 where
  pub versions : z.version ≡ a.version +ℤ pos n
  pub quotas : z.quota +ℤ pos n ≡ a.quota
  pub budgets : z.budget +ℤ spent ≡ a.budget
  pub quota_left : pos 0 ≤ℤ a.quota → pos 0 ≤ℤ z.quota
  pub budget_left : pos 0 ≤ℤ a.budget → pos 0 ≤ℤ z.budget

Balanced-refl : (a : SourceState) → Balanced a a 0 (pos 0)
Balanced-refl a = record {
  versions = omega int_laws;
  quotas = omega int_laws;
  budgets = omega int_laws;
  quota_left = λ h. h;
  budget_left = λ h. h;
}

Balanced-charged :
    (a z : SourceState) (cost : ℤ) (n : ℕ) (spent : ℤ)
    → pos 1 ≤ℤ a.quota
    → cost ≤ℤ a.budget
    → Balanced (charged a cost) z n spent
    → Balanced a z (suc n) (cost +ℤ spent)
Balanced-charged a z cost n spent hq hb b = record {
  versions = omega (int_laws, ap pos_part b.versions, ap neg_part b.versions);
  quotas = omega (int_laws, ap pos_part b.quotas, ap neg_part b.quotas);
  budgets = omega (int_laws, ap pos_part b.budgets, ap neg_part b.budgets);
  quota_left = λ _. b.quota_left (omega int_laws);
  budget_left = λ _. b.budget_left (omega int_laws);
}

module _ (k : Str) (c : CandidateAct) (cost : ℤ) (s : ProtectedState) (t : StateTransition) where
  -- One transition before the others, of the source or of another one.
  Balanced-step :
      (a' z : SourceState) (n : ℕ) (spent : ℤ)
      → Charges c cost s t
      → a' ≡ (if k == c.source then charged (entry c.source s) cost else entry k s)
      → Balanced a' z n spent
      → Balanced
          (entry k s)
          z
          (if true && k == c.source then suc n else n)
          (if true && k == c.source then cost +ℤ spent else spent)
  Balanced-step a' z n spent ch e b = elim (Str-discrete k c.source) [
    | yes same ↦
        let q : (k == c.source) ≡ true = ground arith in
        let e' : a' ≡ charged (entry k s) cost = ground arith in
        rw q (
          Balanced-charged (entry k s) z cost n spent (rw same ch.has_quota) (rw same ch.has_budget)
            (rw e' at b))
    | no other ↦
        let q : (k == c.source) ≡ false = ground arith in
        let e' : a' ≡ entry k s = ground arith in rw q (rw e' at b)
  ]

module _ ⦃p : Platform⦄ (k : Str) where
  -- Over any sequence of requests the version of a source has grown by the number of requests for
  -- its acts that were granted, its quota has fallen by that number, its budget by the costs that
  -- those requests named, and neither quota nor budget has become negative.
  pub serve-Balanced :
      (reqs : List Request) (s : ProtectedState)
      → Balanced (entry k s) (entry k (serve reqs s).1) (grants_of k reqs s) (cost_of k reqs s)
  unfolding serve grants_of cost_of
  serve-Balanced [] s = Balanced-refl (entry k s)
  serve-Balanced ((c, cost) ∷ reqs) s =
      step (transition_for_authorization c cost s).0 refl
        (serve-Balanced reqs (transition_for_authorization c cost s).1)
    where
      step :
          (r : Result StateTransition)
          → (transition_for_authorization c cost s).0 ≡ r
          → let s' = (transition_for_authorization c cost s).1 in
            Balanced
              (entry k s')
              (entry k (serve reqs s').1)
              (grants_of k reqs s')
              (cost_of k reqs s')
            → let s' = (transition_for_authorization c cost s).1 in
              Balanced
                (entry k s)
                (entry k (serve reqs s').1)
                (if is_granted (transition_for_authorization c cost s).0 && k == c.source
                  then suc (grants_of k reqs s')
                  else grants_of k reqs s')
                (if is_granted (transition_for_authorization c cost s).0 && k == c.source
                  then cost +ℤ cost_of k reqs s'
                  else cost_of k reqs s')
      step (ok t) e b = rw e (
          Balanced-step k c cost s t _ _ _ _ (transition-Charges c cost s e)
            (entry-transition c cost s k e) b)
      step (err x) e b = rw e (rw (transition-err c cost s k e).2 at b)
