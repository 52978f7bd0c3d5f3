-- ===== src/Programs/Trail.antt =====
-- What a loop of sessions leaves behind: the evidence, the claims and the reserved nonces, each with the
-- act that it was made for.
pub mod Served
use execution_finality_for_a.Prelude.{
  ℕ, suc, ◌+◌, Str, str_eq, ◌==◌, Str-discrete, ℤ, pos, ◌+ℤ◌, ◌-ℤ◌, ◌≤ℤ◌, -ℤ_parts, int_laws,
  lookup, Bool, true, false, ◌||◌, Option, none, some, List, [], ◌∷◌, ◌++◌, Bool-cases,
  Option-cases, if◌then◌else◌, ◌≡◌, ◌≢◌, ◌⊎◌, inl, inr, refl, arith, ap, sym, ◌∙◌,
}
use execution_finality_for_a.Errors.{Result, ok, value_of}
use execution_finality_for_a.Platform.{Platform}
use execution_finality_for_a.Canonical.{Value, fields, sha256_hex}
use execution_finality_for_a.Canonical.Clean.{Clean}
use execution_finality_for_a.Models.{
  CandidateAct, Hcad, Capability, SinkReceipt, StateTransition, ValidationEvidence,
  candidate_digest, build_hcad, hcad_digest,
}
use execution_finality_for_a.Crypto.Documented.{IsDocumented}
use execution_finality_for_a.Evidence.{get, commit}
use execution_finality_for_a.Evidence.Laws.{get-commit, fail_commits-commit}
use execution_finality_for_a.Policy.{validate}
use execution_finality_for_a.State.{transition_for_authorization}
use execution_finality_for_a.State.Laws.{
  entry, charged, transition-Charges, entry-transition, nonces-transition,
}
use execution_finality_for_a.Consumption.{ConsumptionStore, IsSingleUse}
use execution_finality_for_a.Effectors.{EffectRecord, GuardedEffector, bound_handle}
use execution_finality_for_a.Authority.{
  ProtectedAuthority, Vault, authorize, evidence_core, capability_core, expiry,
}
use execution_finality_for_a.Authority.Outcome.{Issued, authorize-Issued}
use execution_finality_for_a.Authority.Encodable.{
  IsEncodable, candidate_digest_returns, build_hcad_returns,
}
use execution_finality_for_a.Authority.Succeeds.{Grants, IsReady, transition_granted}
use execution_finality_for_a.Sink.Effectuate.{World}
use execution_finality_for_a.Programs.Session.{Job}
use execution_finality_for_a.Protocol.Agreement.{SameText}
use execution_finality_for_a.Protocol.Clash.{
  Call, Parts, capability_of, Among, Clashes, Clash, evidence_bound, capability_bound,
}

module _ ⦃p : Platform⦄ (a : ProtectedAuthority) where
  -- The id is the one that this call computes for its evidence, or for its capability.
  abbrev pub EvidenceOf : Call → Str → Type 0
  EvidenceOf x i = (q : Parts a x) × (q.evidence_id ≡ i)

  abbrev pub CapabilityOf : Call → Str → Type 0
  CapabilityOf x i = (q : Parts a x) × (sha256_hex (capability_of a x q) ≡ ok i)

  -- The calls of a run from a vault, the last of them first, before them those already done.
  abbrev pub calls : List Job → List Call → Vault → List Call
  calls [] done v = done
  calls (q ∷ qs) done v =
      calls qs (record { candidate = q.candidate; now = q.now; vault = v } ∷ done)
        (authorize a q.candidate q.now (pos 1) v).1

  -- A collision among the calls done is one among the calls of the run.
  pub Clash-calls :
      (qs : List Job) (done : List Call) (v : Vault) → Clash a done → Clash a (calls qs done v)
  Clash-calls [] done v clash = clash
  Clash-calls (q ∷ qs) done v (x, y, hx, hy, clashes) =
      Clash-calls qs (record { candidate = q.candidate; now = q.now; vault = v } ∷ done)
        (authorize a q.candidate q.now (pos 1) v).1 (x, y, inr hx, inr hy, clashes)

-- Some call of the list has the property.
abbrev pub Some : (Call → Type 0) → List Call → Type 0
Some P [] = ⊥
Some P (x ∷ xs) = P x ⊎ Some P xs

abbrev pub candidates : List Call → List CandidateAct
candidates [] = []
candidates (x ∷ xs) = x.candidate ∷ candidates xs

-- The act's nonce is apart from those of the list, also in NFC.
abbrev pub Apart : ⦃p : Platform⦄ → CandidateAct → List CandidateAct → Type 0
Apart c [] = Unit
Apart c (q ∷ qs) = (¬ (SameText c.nonce q.nonce)) × Apart c qs

-- The trail of the calls that were served: each record, claim and nonce is one of theirs, and there
-- is room for so many more.
pub record Trail ⦃p : Platform⦄ (a : ProtectedAuthority) (done : List Call) (room : ℕ) {S : Type 0}
    (store : ConsumptionStore S) (v : Vault) (used : S) : Type 0 where
  pub recorded :
      (i : Str) (e : ValidationEvidence)
      → get i v.evidence ≡ some e
      → Some (λ x. EvidenceOf a x i) done
  pub claimed : (i : Str) → store.is_claimed i used ≡ true → Some (λ x. CapabilityOf a x i) done
  pub reserved :
      (n u : Str) → lookup n v.state.nonces ≡ some u → Some (λ x. x.candidate.nonce ≡ n) done
  pub quota : (k : Str) → pos room ≤ℤ (entry k v.state).quota
  pub budget : (k : Str) → pos room ≤ℤ (entry k v.state).budget
  pub open_store : v.evidence.fail_commits ≡ false

module _ ⦃p : Platform⦄ (a : ProtectedAuthority) (x : Call) where
  -- The next call clashes with one of those done.
  next_clash : (y : Call) (done : List Call) → Among a y done → Clashes a x y → Clash a (x ∷ done)
  next_clash y done among clashes = (x, y, inl refl, inr among, clashes)

module _ ⦃p : Platform⦄ (doc : IsDocumented p) (a : ProtectedAuthority) (x : Call) (i : Str) where
  -- An id of the next call is not one of those done, unless two calls clash.
  evidence-Among :
      (done : List Call)
      → Apart x.candidate (candidates done)
      → EvidenceOf a x i
      → Some (λ y. EvidenceOf a y i) done
      → (y : Call) × Among a y done × Clashes a x y
  evidence-Among [] apart mine theirs = absurd theirs
  evidence-Among (y ∷ ys) (here, there) mine (inr theirs) =
      let (z, among, clashes) = evidence-Among ys there mine theirs in (z, inr among, clashes)
  evidence-Among (y ∷ ys) (here, there) (q, hq) (inl (r, hr)) =
      elim (evidence_bound doc a x y i q r hq hr) [
        | inl same ↦ absurd (here same)
        | inr clashes ↦ (y, inl refl, clashes)
      ]

  capability-Among :
      (done : List Call)
      → Apart x.candidate (candidates done)
      → CapabilityOf a x i
      → Some (λ y. CapabilityOf a y i) done
      → (y : Call) × Among a y done × Clashes a x y
  capability-Among [] apart mine theirs = absurd theirs
  capability-Among (y ∷ ys) (here, there) mine (inr theirs) =
      let (z, among, clashes) = capability-Among ys there mine theirs in (z, inr among, clashes)
  capability-Among (y ∷ ys) (here, there) (q, hq) (inl (r, hr)) =
      elim (capability_bound doc a x y i q r hq hr) [
        | inl same ↦ absurd (here same)
        | inr clashes ↦ (y, inl refl, clashes)
      ]

  pub no_evidence :
      (done : List Call)
      → Apart x.candidate (candidates done)
      → EvidenceOf a x i
      → Some (λ y. EvidenceOf a y i) done
      → Clash a (x ∷ done)
  no_evidence done apart mine theirs =
      let (y, among, clashes) = evidence-Among done apart mine theirs in
      next_clash a x y done among clashes

  pub no_capability :
      (done : List Call)
      → Apart x.candidate (candidates done)
      → CapabilityOf a x i
      → Some (λ y. CapabilityOf a y i) done
      → Clash a (x ∷ done)
  no_capability done apart mine theirs =
      let (y, among, clashes) = capability-Among done apart mine theirs in
      next_clash a x y done among clashes

pub no_nonce :
    ⦃p : Platform⦄ (c : CandidateAct) (done : List Call)
    → Apart c (candidates done)
    → ¬ (Some (λ x. x.candidate.nonce ≡ c.nonce) done)
no_nonce ⦃p⦄ c [] apart h = h
no_nonce ⦃p⦄ c (x ∷ xs) (here, there) (inl same) = here (ap p.nfc (sym same))
no_nonce ⦃p⦄ c (x ∷ xs) (here, there) (inr later) = no_nonce c xs there later
