-- ===== src/Programs/Throughput/Loop.antt =====
-- The loop from any trail, and from a vault and a store that are new.
use execution_finality_for_a.Prelude.{
  ℕ, zero, suc, ◌≤◌, Str, str_eq, pos, ◌≤ℤ◌, false, List, [], ◌∷◌, length, append_assoc, append-nil,
  lookup, lookup-nil, ◌≡◌, ◌⊎◌, inl, inr, refl, arith, ap, sym, ◌∙◌,
}
use execution_finality_for_a.Platform.{Platform}
use execution_finality_for_a.Canonical.Clean.{Clean}
use execution_finality_for_a.Crypto.Documented.{IsDocumented}
use execution_finality_for_a.Models.{ValidationEvidence}
use execution_finality_for_a.Evidence.{get}
use execution_finality_for_a.State.Laws.{entry}
use execution_finality_for_a.Consumption.{ConsumptionStore, IsSingleUse}
use execution_finality_for_a.Effectors.{EffectRecord, GuardedEffector, bound_handle}
use execution_finality_for_a.Authority.{ProtectedAuthority, authorize}
use execution_finality_for_a.Authority.Succeeds.{IsReady}
use execution_finality_for_a.Sink.{FinalitySink}
use execution_finality_for_a.Sink.Effectuate.{World}
use execution_finality_for_a.Protocol.Clash.{Call, Clash}
use execution_finality_for_a.Programs.Session.{Job, bearer, session, sessions}
use execution_finality_for_a.Programs.Trail.{candidates, calls, Clash-calls, Trail}
use execution_finality_for_a.Programs.Trail.Served.{unclaimed}
use execution_finality_for_a.Programs.Throughput.{AllFit, ServesAll, call_of, served, kept}

module _ ⦃p : Platform⦄ (doc : IsDocumented p) (a : ProtectedAuthority) (s : FinalitySink)
    (ready : IsReady a) (open_sink : s.require_presentation_proof ≡ false) {S : Type 0}
    (store : ConsumptionStore S) (single : IsSingleUse store) (m : ℕ) where
  -- From any trail: the loop over fit acts whose nonces are apart serves them all.
  pub all_served :
      (qs : List Job) (done : List Call) (room : ℕ) (w : World S GuardedEffector)
      → AllFit a s qs (candidates done)
      → Trail a done room store w.vault w.consumed
      → length qs ≤ room
      → m ≡ w.effector.marker
      → w.effector.fail_next ≡ false
      → Clean w.effector.channel
      → ServesAll qs w.effector (sessions a s store (bound_handle m) qs w)
        ⊎ Clash a (calls a qs done w.vault)
  unfolding sessions
  all_served [] done room w fits trail fit own quiet channel = inl (record {
    receipts = [];
    effects = [];
    returned = refl;
    one_each = refl;
    recorded =
        ap (λ (rs : List EffectRecord). record w.effector { records = rs })
          (sym (append-nil w.effector.records));
    in_order = refl;
  })
  all_served (q ∷ qs) done zero w fits trail fit own quiet channel = absurd (omega (arith, fit))
  all_served (q ∷ qs) done (suc room) w (here, apart, there) trail fit own quiet channel =
      elim (served doc a s ready open_sink store single m q done room w here apart trail own quiet
        channel) [
          | inr clash ↦ inr (
              Clash-calls a qs (call_of q w ∷ done)
                (authorize a q.candidate q.now (pos 1) w.vault).1 clash)
          | inl (first, left) ↦
              let u = (session a s q.candidate store (bound_handle m) bearer q.now q.at w).1 in
              elim (all_served qs (call_of q w ∷ done) room u there left (omega (arith, fit))
                (own ∙ ap (λ (e : GuardedEffector). e.marker) (sym first.effects))
                (ap (λ (e : GuardedEffector). e.fail_next) first.effects ∙ quiet)
                (rw first.effects channel)) [
                  | inr clash ↦ inr (
                      rw
                        (← kept doc a s ready open_sink store single m q w first.receipt
                          first.returned)
                        clash)
                  | inl rest ↦ inl (record {
                    receipts = first.receipt ∷ rest.receipts;
                    effects = first.effect ∷ rest.effects;
                    returned = ground (arith, first.returned, rest.returned);
                    one_each = ground (arith, rest.one_each);
                    recorded = ground (
                      arith,
                      first.returned,
                      rest.recorded,
                      first.effects,
                      append_assoc w.effector.records (first.effect ∷ []) rest.effects,
                    );
                    in_order = ground (arith, first.payload, rest.in_order);
                  })
                ]
        ]

  -- On a vault without evidence and reserved nonces, a store without claims, and with quota and budget
  -- for so many acts in every source, there is an empty trail.
  pub empty-Trail :
      (room : ℕ) (w : World S GuardedEffector)
      → w.vault.evidence.records ≡ []
      → w.vault.evidence.fail_commits ≡ false
      → w.vault.state.nonces ≡ []
      → ((j : Str) → store.is_claimed j w.consumed ≡ false)
      → ((k : Str) → pos room ≤ℤ (entry k w.vault.state).quota)
      → ((k : Str) → pos room ≤ℤ (entry k w.vault.state).budget)
      → Trail a [] room store w.vault w.consumed
  unfolding get
  empty-Trail room w none_recorded open_store none_reserved unclaimed quota budget = record {
    recorded = λ i e h. cc (ap (lookup i) none_recorded, lookup-nil {V = ValidationEvidence} i, h);
    claimed = λ i h. cc (unclaimed i, h);
    reserved = λ n u h. cc (ap (lookup n) none_reserved, lookup-nil {V = Str} n, h);
    quota = quota;
    budget = budget;
    open_store = open_store;
  }

  -- Over a documented platform, with an authority whose signer signs and verifies, a store that keeps
  -- the contract of single use, a sink that asks for no proof of possession, and an effector that is
  -- reached through its own handle and in which no failure is injected. On a vault and a store that are
  -- new, a loop over acts that are fit for the authority and the sink at their times, with nonces apart
  -- from each other and quota and budget for as many acts in every source, returns one receipt for
  -- each act and adds exactly their effects, with their payloads and in their order; or two of the
  -- calls that it makes are a collision of SHA-256.
  pub loop_served :
      (qs : List Job) (w : World S GuardedEffector)
      → AllFit a s qs []
      → w.vault.evidence.records ≡ []
      → w.vault.evidence.fail_commits ≡ false
      → w.vault.state.nonces ≡ []
      → ((j : Str) → store.is_claimed j w.consumed ≡ false)
      → ((k : Str) → pos (length qs) ≤ℤ (entry k w.vault.state).quota)
      → ((k : Str) → pos (length qs) ≤ℤ (entry k w.vault.state).budget)
      → m ≡ w.effector.marker
      → w.effector.fail_next ≡ false
      → Clean w.effector.channel
      → ServesAll qs w.effector (sessions a s store (bound_handle m) qs w)
        ⊎ Clash a (calls a qs [] w.vault)
  loop_served qs w fits none_recorded open_store none_reserved unclaimed quota budget own quiet
        channel =
      all_served qs [] (length qs) w fits
        (empty-Trail (length qs) w none_recorded open_store none_reserved unclaimed quota budget)
        (omega arith) own quiet channel
