-- ===== src/Authority/Exactly.antt =====
-- When `authorize` returns: the conditions of a grant, both ways.
use execution_finality_for_a.Prelude.{ℤ, true, ◌≡◌, ◌↔◌, ap}
use execution_finality_for_a.Errors.{ok, is_ok, value_of}
use execution_finality_for_a.Platform.{Platform}
use execution_finality_for_a.Models.{CandidateAct, Capability}
use execution_finality_for_a.Crypto.Documented.{IsDocumented}
use execution_finality_for_a.Evidence.Laws.{commit-ok}
use execution_finality_for_a.State.Laws.{transition-Charges}
use execution_finality_for_a.Authority.{ProtectedAuthority, Vault, authorize}
use execution_finality_for_a.Authority.Outcome.{authorize-Issued}
use execution_finality_for_a.Authority.Encodable.{IsEncodable}
use execution_finality_for_a.Authority.Succeeds.{Grants, IsReady, authorize_returns}

module _ ⦃p : Platform⦄ (a : ProtectedAuthority) (c : CandidateAct) (now cost : ℤ) (v : Vault) where
  authorize-Grants :
      (token : Capability) → (authorize a c now cost v).0 ≡ ok token → Grants a c now cost v
  authorize-Grants token issued =
      let (h, t, d, cd, e, i) = authorize-Issued a c now cost v token issued in
      let charges = transition-Charges c cost v.state i.advanced in
      let (open_store, signed, new) =
        commit-ok a.evidence_authenticator e v.evidence i.evidenced.committed in
      record {
        allowed = i.allowed;
        positive = charges.positive;
        fresh = charges.fresh;
        has_quota = charges.has_quota;
        has_budget = charges.has_budget;
        open_store = open_store;
        new_id = λ h' d' cd' t' j eh ed ec et ej. cc (
          i.built, eh, i.descriptor, ed, i.candidate, ec, i.advanced, et, i.evidenced.id, ej, new,
        );
      }

  -- Over a documented platform, an authority whose signer signs and verifies returns a capability for
  -- an encodable act exactly where its policy allows the act, the cost is positive, the nonce is free,
  -- quota and budget suffice, and the evidence store takes records and has none with the id that the
  -- call computes.
  pub authorize_iff :
      IsDocumented p
      → IsReady a
      → IsEncodable c
      → (is_ok (authorize a c now cost v).0 ≡ true) ↔ Grants a c now cost v
  authorize_iff doc ready enc = (
    λ h.
        let (token, issued) = value_of (authorize a c now cost v).0 h in
        authorize-Grants token issued,
    λ g. let (token, issued) = authorize_returns doc a c now cost v ready enc g in ap is_ok issued,
  )
