-- ===== src/Pop/Laws.antt =====
-- A registry accepts what a registered presenter proves.
use execution_finality_for_a.Prelude.{
  Str, str, str_eq, Str-discrete, ℕ_discrete, List, [], ◌∷◌, refl, ℤ, lookup, true, some, none, ◌≡◌,
  arith, false,
}
use execution_finality_for_a.Errors.{ok, value_of}
use execution_finality_for_a.Platform.{Platform}
use execution_finality_for_a.Canonical.{Value, fields}
use execution_finality_for_a.Canonical.Clean.{Clean}
use execution_finality_for_a.Canonical.Encodable.{Encodable}
use execution_finality_for_a.Crypto.{is_ascii}
use execution_finality_for_a.Crypto.Documented.{IsDocumented, Signs, names_fit, fields-Encodable}
use execution_finality_for_a.Crypto.{Authenticator}
use execution_finality_for_a.Crypto.Laws.{Verifies}
use execution_finality_for_a.Pop.{
  PresentationProof, prove, unsigned_proof, Registry, registry_verify,
}

module _ (a : Authenticator) (k d s b n : Str) (t : ℤ) (q : PresentationProof) where
  -- A proof made by a presenter whose signer verifies what it signs, and that the registry holds
  -- under its key id, verifies, and names what it was made for.
  pub registry-prove :
      (r : Registry)
      → Verifies a
      → lookup a.key_id r ≡ some a
      → prove a k d s b n t ≡ ok q
      → (registry_verify r q ≡ ok true)
        × (q.capability_id ≡ k)
        × (q.candidate_digest ≡ d)
        × (q.sink_id ≡ s)
        × (q.boundary_id ≡ b)
        × (q.nonce ≡ n)
        × (q.presented_at_ns ≡ t)
        × (q.presenter_key_id ≡ a.key_id)
  unfolding registry_verify prove unsigned_proof
  registry-prove r v known h = ground (arith, v.sign-verify (unsigned_proof q) q.signature)

-- A key id that the registry does not hold is refused.
pub registry_unknown :
    (r : Registry) (q : PresentationProof)
    → lookup q.presenter_key_id r ≡ none
    → registry_verify r q ≡ ok false
unfolding registry_verify
registry_unknown r q h = ground arith

-- A signer that signs whatever has canonical bytes makes a proof for any names without surrogates.
module _ ⦃p : Platform⦄ (doc : IsDocumented p) (a : Authenticator) (signs : Signs a)
    (named : Clean a.key_id) where
  pub prove_returns :
      (k d s b n : Str) (t : ℤ)
      → Clean k
      → Clean d
      → Clean s
      → Clean b
      → Clean n
      → (q : PresentationProof) × (prove a k d s b n t ≡ ok q)
  unfolding prove unsigned_proof names_fit is_ascii Str-discrete ℕ_discrete Encodable
  prove_returns k d s b n t hk hd hs hb hn =
      let core : List (Str × Value) =
        (str "capability_id", Value.text k)
        ∷ (str "candidate_digest", Value.text d)
        ∷ (str "sink_id", Value.text s)
        ∷ (str "boundary_id", Value.text b)
        ∷ (str "nonce", Value.text n)
        ∷ (str "presented_at_ns", Value.int t)
        ∷ (str "presenter_key_id", Value.text a.key_id)
        ∷ [] in
      let encodable =
        fields-Encodable doc core refl (hk, (hd, (hs, (hb, (hn, (tt, (named, tt))))))) in
      let (g, eg) =
        value_of (a.sign (Value.dict (fields core))) (signs (Value.dict (fields core)) encodable) in
      let q : PresentationProof = record {
        capability_id = k;
        candidate_digest = d;
        sink_id = s;
        boundary_id = b;
        nonce = n;
        presented_at_ns = t;
        presenter_key_id = a.key_id;
        signature = g;
      } in
      (q, ground arith)
