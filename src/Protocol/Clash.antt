-- ===== src/Protocol/Clash.antt =====
-- What two calls of `authorize` digest, and how their acts can be told from the digests.
use execution_finality_for_a.Prelude.{
  Str, str, str_eq, Str-discrete, ℕ_discrete, ℤ, lookup, List, [], ◌∷◌, some, none, true, pos, ap,
  ◌≡◌, ◌⊎◌, inl, inr, refl, arith, sym, ◌∙◌,
}
use execution_finality_for_a.Errors.{ok, value_of}
use execution_finality_for_a.Platform.{Platform}
use execution_finality_for_a.Canonical.{Value, fields, normalize, canonical_bytes, sha256_hex}
use execution_finality_for_a.Canonical.Injective.{canonical_bytes_injective}
use execution_finality_for_a.Canonical.Fields.{field_agrees, text_agrees}
use execution_finality_for_a.Models.{
  CandidateAct, Hcad, StateTransition, build_hcad, hcad_digest, candidate_digest,
}
use execution_finality_for_a.State.{transition_for_authorization}
use execution_finality_for_a.Crypto.{is_ascii}
use execution_finality_for_a.Crypto.Documented.{IsDocumented}
use execution_finality_for_a.Authority.{ProtectedAuthority, Vault, evidence_core, capability_core}
use execution_finality_for_a.Protocol.Binding.{
  Collide, Collision, sha256_hex-binds, candidate_digest-binds,
}
use execution_finality_for_a.Protocol.Agreement.{
  SameText, all_ascii, NamesNormal-ascii, SameAct-Agree,
}

-- A call of `authorize` at cost 1.
pub record Call : Type 0 where
  pub candidate : CandidateAct
  pub now : ℤ
  pub vault : Vault

-- What the call computes, up to the id of its evidence.
pub record Parts ⦃p : Platform⦄ (a : ProtectedAuthority) (x : Call) : Type 0 where
  pub hcad : Hcad
  pub descriptor : Str
  pub digest : Str
  pub transition : StateTransition
  pub evidence_id : Str
  pub built : build_hcad x.candidate none none ≡ ok hcad
  pub described : hcad_digest hcad ≡ ok descriptor
  pub digested : candidate_digest x.candidate ≡ ok digest
  pub advanced : (transition_for_authorization x.candidate (pos 1) x.vault.state).0 ≡ ok transition
  pub evidenced :
      sha256_hex (
        Value.dict
          (fields (evidence_core a x.candidate x.now descriptor digest transition.transition_id)))
      ≡ ok evidence_id

module _ ⦃p : Platform⦄ (a : ProtectedAuthority) where
  -- What the call digests for the ids of its evidence and of its capability.
  abbrev pub evidence_of : (x : Call) → Parts a x → Value
  evidence_of x q =
      Value.dict (
        fields (evidence_core a x.candidate x.now q.descriptor q.digest q.transition.transition_id))

  abbrev pub capability_of : (x : Call) → Parts a x → Value
  capability_of x q = Value.dict (
      fields (
        capability_core a x.candidate x.now q.descriptor q.digest q.transition.transition_id
          q.evidence_id))

  -- Two calls digest different bytes, of their acts, evidence or capabilities, to one digest.
  abbrev pub Clashes : Call → Call → Type 0
  Clashes x y =
      Collision x.candidate y.candidate
      ⊎ ((q : Parts a x) × (r : Parts a y) × (Collide (evidence_of x q) (evidence_of y r)
            ⊎ Collide (capability_of x q) (capability_of y r)))

  abbrev pub Among : Call → List Call → Type 0
  Among x [] = ⊥
  Among x (y ∷ ys) = (x ≡ y) ⊎ Among x ys

  -- Two of these calls digest different bytes to one digest.
  abbrev pub Clash : List Call → Type 0
  Clash xs = (x : Call) × (y : Call) × Among x xs × Among y xs × Clashes x y

module _ ⦃p : Platform⦄ where
  module _ (doc : IsDocumented p) where
    -- Two dicts with ASCII names and one digest agree in each field that is a text.
    field_bound :
        (es fs : List (Str × Value)) (k s t i : Str)
        → all_ascii es ≡ true
        → all_ascii fs ≡ true
        → sha256_hex (Value.dict (fields es)) ≡ ok i
        → sha256_hex (Value.dict (fields fs)) ≡ ok i
        → lookup k es ≡ some (Value.text s)
        → lookup k fs ≡ some (Value.text t)
        → SameText s t ⊎ Collide (Value.dict (fields es)) (Value.dict (fields fs))
    unfolding sha256_hex normalize
    field_bound es fs k s t i ae af he hf ge gf =
        elim (sha256_hex-binds (Value.dict (fields es)) (Value.dict (fields fs)) i he hf) [
          | inr collide ↦ inr collide
          | inl same ↦
              let (bs, eb) = value_of (canonical_bytes (Value.dict (fields es))) (ground arith) in
              let (j, ee, ef) =
                canonical_bytes_injective (Value.dict (fields es)) (Value.dict (fields fs)) bs eb
                  (sym same ∙ eb) in
              let (n, en, em) =
                field_agrees es fs k (Value.text s) (Value.text t) j
                  (NamesNormal-ascii doc.fixes es ae) (NamesNormal-ascii doc.fixes fs af) ee ef ge
                  gf in
              inl (text_agrees s t n en em)
        ]

    digest_ascii : (v : Value) (d : Str) → sha256_hex v ≡ ok d → is_ascii d ≡ true
    unfolding sha256_hex
    digest_ascii v d h =
        let (bs, e) = value_of (canonical_bytes v) (ground arith) in ground (arith, doc.digest bs)

    -- Two acts with one digest have one nonce, up to its NFC form.
    act_bound :
        (b c : CandidateAct) (d : Str)
        → candidate_digest b ≡ ok d
        → candidate_digest c ≡ ok d
        → SameText b.nonce c.nonce ⊎ Collision b c
    act_bound b c d hb hc = elim (candidate_digest-binds b c d hb hc) [
      | inl same ↦ inl (SameAct-Agree doc.fixes b c d hb same).nonce
      | inr collision ↦ inr collision
    ]

    module _ (a : ProtectedAuthority) (x y : Call) (i : Str) (q : Parts a x) (r : Parts a y) where
      -- Two calls whose evidence has one id are for acts with one nonce.
      pub evidence_bound :
          q.evidence_id ≡ i
          → r.evidence_id ≡ i
          → SameText x.candidate.nonce y.candidate.nonce ⊎ Clashes a x y
      unfolding evidence_core all_ascii is_ascii lookup Str-discrete ℕ_discrete candidate_digest
      evidence_bound hq hr =
          elim (field_bound
            (evidence_core a x.candidate x.now q.descriptor q.digest q.transition.transition_id)
            (evidence_core a y.candidate y.now r.descriptor r.digest r.transition.transition_id)
            (str "candidate_digest") q.digest r.digest i refl refl (q.evidenced ∙ ap ok hq)
            (r.evidenced ∙ ap ok hr) refl refl) [
              | inr collide ↦ inr (inr (q, r, inl collide))
              | inl same ↦
                  let nx = doc.fixes q.digest (digest_ascii _ q.digest q.digested) in
                  let ny = doc.fixes r.digest (digest_ascii _ r.digest r.digested) in
                  let one : q.digest ≡ r.digest = sym nx ∙ same ∙ ny in
                  elim (act_bound x.candidate y.candidate r.digest (rw (← one) q.digested)
                    r.digested) [ inl nonce ↦ inl nonce | inr collision ↦ inr (inl collision) ]
            ]

      -- Two calls whose capabilities have one id are for acts with one nonce.
      pub capability_bound :
          sha256_hex (capability_of a x q) ≡ ok i
          → sha256_hex (capability_of a y r) ≡ ok i
          → SameText x.candidate.nonce y.candidate.nonce ⊎ Clashes a x y
      unfolding capability_core all_ascii is_ascii lookup Str-discrete ℕ_discrete
      capability_bound hq hr =
          elim (field_bound
            (capability_core a x.candidate x.now q.descriptor q.digest q.transition.transition_id
              q.evidence_id)
            (capability_core a y.candidate y.now r.descriptor r.digest r.transition.transition_id
              r.evidence_id)
            (str "nonce") x.candidate.nonce y.candidate.nonce i refl refl hq hr refl refl) [
              | inr collide ↦ inr (inr (q, r, inr collide))
              | inl same ↦ inl same
            ]
