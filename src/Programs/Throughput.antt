-- ===== src/Programs/Throughput.antt =====
-- A loop over acts: what is asked of them, what the loop has to deliver, and one round of it.
pub mod Loop
use execution_finality_for_a.Prelude.{
  ℕ, zero, suc, ◌≤◌, Str, str_eq, ◌==◌, ℤ, pos, ◌-ℤ◌, ◌≤ℤ◌, true, false, ◌||◌, none, List, [], ◌∷◌,
  ◌++◌, length, append_assoc, append-nil, lookup, lookup-nil, ◌≡◌, ◌⊎◌, inl, inr, refl, arith, ap,
  sym, ◌∙◌,
}
use execution_finality_for_a.Errors.{Result, ok, value_of}
use execution_finality_for_a.Platform.{Platform}
use execution_finality_for_a.Canonical.{Value}
use execution_finality_for_a.Canonical.Clean.{Clean}
use execution_finality_for_a.Models.{CandidateAct, Capability, SinkReceipt}
use execution_finality_for_a.Crypto.Documented.{IsDocumented}
use execution_finality_for_a.Models.{ValidationEvidence}
use execution_finality_for_a.Evidence.{get}
use execution_finality_for_a.State.Laws.{entry}
use execution_finality_for_a.Policy.{validate}
use execution_finality_for_a.Consumption.{ConsumptionStore, IsSingleUse}
use execution_finality_for_a.Effectors.{EffectRecord, GuardedEffector, bound_handle}
use execution_finality_for_a.Authority.{ProtectedAuthority, Vault, authorize, expiry}
use execution_finality_for_a.Authority.Encodable.{IsEncodable}
use execution_finality_for_a.Authority.Succeeds.{Grants, IsReady, authorize_returns}
use execution_finality_for_a.Sink.{FinalitySink, verify}
use execution_finality_for_a.Sink.Accepts.{Presents}
use execution_finality_for_a.Sink.Effectuate.{World, effectuate}
use execution_finality_for_a.Sink.Outcomes.{
  vault-effectuate, claimed-effectuate, effectuate-receipt,
}
use execution_finality_for_a.Protocol.Delivery.{IsWay}
use execution_finality_for_a.Protocol.Clash.{Call, Clash}
use execution_finality_for_a.Programs.Session.{
  Job, bearer, session, sessions, Delivers, session-Delivers,
}
use execution_finality_for_a.Programs.Trail.{candidates, calls, Clash-calls, Apart, Trail}
use execution_finality_for_a.Programs.Trail.Served.{granted, unclaimed, Trail-served}

-- The act of a job is encodable, allowed at the time of its call, and the sink's own in its time.
pub record IsFit ⦃p : Platform⦄ (a : ProtectedAuthority) (s : FinalitySink) (q : Job) : Type 0 where
  pub encodable : IsEncodable q.candidate
  pub allowed : (validate a.policy q.candidate q.now).0 ≡ true
  pub way : IsWay s a q.candidate
  pub early : q.now -ℤ s.max_clock_skew_ns ≤ℤ q.at
  pub late : q.at ≤ℤ expiry a q.candidate q.now

module _ ⦃p : Platform⦄ (a : ProtectedAuthority) (s : FinalitySink) where
  -- Each job is fit, and its nonce apart from those before it.
  abbrev pub AllFit : List Job → List CandidateAct → Type 0
  AllFit [] done = Unit
  AllFit (q ∷ qs) done = IsFit a s q × Apart q.candidate done × AllFit qs (q.candidate ∷ done)

abbrev pub payloads_of : List Job → List Value
payloads_of [] = []
payloads_of (q ∷ qs) = q.candidate.payload ∷ payloads_of qs

abbrev pub payloads : List EffectRecord → List Value
payloads [] = []
payloads (r ∷ rs) = r.payload ∷ payloads rs

-- The loop has returned with a receipt for each job, and the effector has made their effects, in
-- order, and no other.
pub record ServesAll (qs : List Job) {S : Type 0} (e : GuardedEffector)
    (done : Result (List SinkReceipt) × World S GuardedEffector) : Type 0 where
  pub receipts : List SinkReceipt
  pub effects : List EffectRecord
  pub returned : done.0 ≡ ok receipts
  pub one_each : length receipts ≡ length qs
  pub recorded : done.1.effector ≡ record e { records = e.records ++ effects }
  pub in_order : payloads effects ≡ payloads_of qs

-- The call of `authorize` for a job.
abbrev pub call_of : {S : Type 0} → Job → World S GuardedEffector → Call
call_of q w = record { candidate = q.candidate; now = q.now; vault = w.vault }

module _ ⦃p : Platform⦄ (doc : IsDocumented p) (a : ProtectedAuthority) (s : FinalitySink)
    (ready : IsReady a) (open_sink : s.require_presentation_proof ≡ false) {S : Type 0}
    (store : ConsumptionStore S) (single : IsSingleUse store) (m : ℕ) where
  module _ (q : Job) (w : World S GuardedEffector) (token : Capability)
      (issued : (authorize a q.candidate q.now (pos 1) w.vault).0 ≡ ok token) where
    session_presents :
        session a s q.candidate store (bound_handle m) bearer q.now q.at w
        ≡ effectuate s q.candidate token q.at store
            (bound_handle m)
            none
            (record w { vault = (authorize a q.candidate q.now (pos 1) w.vault).1 })
    unfolding session
    session_presents = ground (arith, issued)

    Trail-after :
        (done : List Call) (room : ℕ) (receipt : SinkReceipt)
        → IsFit a s q
        → Apart q.candidate (candidates done)
        → Trail a done (suc room) store w.vault w.consumed
        → (session a s q.candidate store (bound_handle m) bearer q.now q.at w).0 ≡ ok receipt
        → let after = (session a s q.candidate store (bound_handle m) bearer q.now q.at w).1 in
          Trail a (call_of q w ∷ done) room store after.vault after.consumed
    Trail-after done room receipt fit apart trail returned =
        let v : Vault = (authorize a q.candidate q.now (pos 1) w.vault).1 in
        let u : World S GuardedEffector = record w { vault = v } in
        let effected =
          ap (λ (x : Result SinkReceipt × World S GuardedEffector). x.0) (sym session_presents)
          ∙ returned in
        let (d, _, verified, _, _, _, _, _, _, _) =
          effectuate-receipt s q.candidate token q.at store (bound_handle m) none u single receipt
            effected in
        let kept = vault-effectuate s q.candidate token q.at store (bound_handle m) none u in
        rw session_presents (
          rw kept (
            Trail-served doc a q.candidate q.now w.vault ready fit.encodable fit.allowed done room
              store w.consumed trail apart token _ issued
              (λ j taken.
                sym (
                  claimed-effectuate s q.candidate token q.at store (bound_handle m) none u single j
                    verified)
                ∙ taken)))

  -- One session, and the trail after it.
  pub served :
      (q : Job) (done : List Call) (room : ℕ) (w : World S GuardedEffector)
      → IsFit a s q
      → Apart q.candidate (candidates done)
      → Trail a done (suc room) store w.vault w.consumed
      → m ≡ w.effector.marker
      → w.effector.fail_next ≡ false
      → Clean w.effector.channel
      → (let after = session a s q.candidate store (bound_handle m) bearer q.now q.at w in
          Delivers q.candidate w.effector after
          × Trail a (call_of q w ∷ done) room store after.1.vault after.1.consumed)
        ⊎ Clash a (call_of q w ∷ done)
  served q done room w fit apart trail own quiet channel =
      let c = q.candidate in
      elim (granted doc a c q.now w.vault ready fit.encodable fit.allowed done room store w.consumed
        trail apart) [
          | inr clash ↦ inr clash
          | inl g ↦
              elim (unclaimed doc a c q.now w.vault ready fit.encodable fit.allowed done room store
                w.consumed trail apart g) [
                  | inr clash ↦ inr clash
                  | inl free ↦
                      let (token, issued) =
                        authorize_returns doc a c q.now (pos 1) w.vault ready fit.encodable g in
                      let delivers : Delivers c w.effector
                          (session a s c store (bound_handle m) bearer q.now q.at w) =
                        rw own (
                          session-Delivers doc a s c q.now q.at w.vault store w.consumed w.effector
                            bearer (λ t. none) single ready fit.encodable g fit.way
                            (λ t h. (refl, rw open_sink tt)) free quiet channel fit.early
                            fit.late) in
                      inl (
                        delivers,
                        Trail-after q w token issued done room delivers.receipt fit apart trail
                            delivers.returned,
                      )
                ]
        ]

  -- A session that returned leaves the vault that the authority left.
  pub kept :
      (q : Job) (w : World S GuardedEffector) (receipt : SinkReceipt)
      → (session a s q.candidate store (bound_handle m) bearer q.now q.at w).0 ≡ ok receipt
      → (session a s q.candidate store (bound_handle m) bearer q.now q.at w).1.vault
        ≡ (authorize a q.candidate q.now (pos 1) w.vault).1
  unfolding session
  kept q w receipt returned =
      let (token, issued) =
        value_of (authorize a q.candidate q.now (pos 1) w.vault).0 (ground (arith, returned)) in
      rw (session_presents q w token issued) (
        vault-effectuate s q.candidate token q.at store (bound_handle m) none
          (record w { vault = (authorize a q.candidate q.now (pos 1) w.vault).1 }))
