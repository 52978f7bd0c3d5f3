-- ===== src/Pop.antt =====
-- src/finality_ref/pop.py: proof of possession by the presenter of a capability.
pub mod Laws
use execution_finality_for_a.Prelude.{
  Str, str, ℤ, Dict, lookup, Bool, false, [], ◌∷◌, Option, none, some,
}
use execution_finality_for_a.Errors.{Result, ok, ◌>>=◌}
use execution_finality_for_a.Canonical.{Value, fields}
use execution_finality_for_a.Crypto.{Authenticator}

pub record PresentationProof : Type 0 where
  pub capability_id : Str
  pub candidate_digest : Str
  pub sink_id : Str
  pub boundary_id : Str
  pub nonce : Str
  pub presented_at_ns : ℤ
  pub presenter_key_id : Str
  pub signature : Str

unfoldable pub unsigned_proof : PresentationProof → Value
unsigned_proof q = Value.dict (
    fields (
      (str "capability_id", Value.text q.capability_id)
      ∷ (str "candidate_digest", Value.text q.candidate_digest)
      ∷ (str "sink_id", Value.text q.sink_id)
      ∷ (str "boundary_id", Value.text q.boundary_id)
      ∷ (str "nonce", Value.text q.nonce)
      ∷ (str "presented_at_ns", Value.int q.presented_at_ns)
      ∷ (str "presenter_key_id", Value.text q.presenter_key_id)
      ∷ []))

-- `Presenter.prove`; a presenter is its authenticator.
unfoldable pub prove : Authenticator → Str → Str → Str → Str → Str → ℤ → Result PresentationProof
prove a capability_id candidate_digest sink_id boundary_id nonce presented_at_ns = do
  signature ← a.sign (
      Value.dict (
        fields (
          (str "capability_id", Value.text capability_id)
          ∷ (str "candidate_digest", Value.text candidate_digest)
          ∷ (str "sink_id", Value.text sink_id)
          ∷ (str "boundary_id", Value.text boundary_id)
          ∷ (str "nonce", Value.text nonce)
          ∷ (str "presented_at_ns", Value.int presented_at_ns)
          ∷ (str "presenter_key_id", Value.text a.key_id)
          ∷ [])))
  ok (record {
    capability_id = capability_id;
    candidate_digest = candidate_digest;
    sink_id = sink_id;
    boundary_id = boundary_id;
    nonce = nonce;
    presented_at_ns = presented_at_ns;
    presenter_key_id = a.key_id;
    signature = signature;
  })

-- `PresenterVerifierRegistry`: the verifiers by key id.
abbrev pub Registry : Type 0
Registry = Dict Authenticator

abbrev verify_with : Option Authenticator → PresentationProof → Result Bool
verify_with none q = ok false
verify_with (some a) q = a.verify (unsigned_proof q) q.signature q.presenter_key_id

unfoldable pub registry_verify : Registry → PresentationProof → Result Bool
registry_verify r q = verify_with (lookup q.presenter_key_id r) q
