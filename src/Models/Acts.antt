-- ===== src/Models/Acts.antt =====
-- models.py: the Candidate Act and its descriptor (HCAD), with their digests.
use execution_finality_for_a.Prelude.{◌≡◌, ℤ, Str, str, List, [], ◌∷◌, Option, none, some}
use execution_finality_for_a.Errors.{Result, ok, ◌>>=◌}
use execution_finality_for_a.Platform.{Platform}
use execution_finality_for_a.Canonical.{Value, Entries, fields, texts, sha256_hex}

pub data ActStatus : Type 0 where
  non_effective effective : ActStatus

pub data Decision : Type 0 where
  allow deny : Decision

unfoldable pub ActStatus-discrete : Discrete ActStatus
ActStatus-discrete = hlevel

unfoldable pub Decision-discrete : Discrete Decision
Decision-discrete = hlevel

-- The text of the enum member.
unfoldable pub status_value : ActStatus → Str
status_value ActStatus.non_effective = str "NON_EFFECTIVE"
status_value ActStatus.effective = str "EFFECTIVE"

unfoldable pub decision_value : Decision → Str
decision_value Decision.allow = str "ALLOW"
decision_value Decision.deny = str "DENY"

pub record CandidateAct : Type 0 where
  pub act_id : Str
  pub act_class : Str
  pub effect_class : Str
  pub source : Str
  pub destination : Str
  pub purpose : Str
  pub jurisdiction : Str
  pub policy_epoch : ℤ
  pub nonce : Str
  pub issued_at_ns : ℤ
  pub freshness_ns : ℤ
  pub sink_id : Str
  pub boundary_id : Str
  pub scope : List Str
  pub payload : Value
  pub runtime_evidence_digest : Str
  pub authority_context : Entries
  pub status : ActStatus

-- The names and values of the fields.
unfoldable pub candidate_fields : CandidateAct → List (Str × Value)
unfolding status_value
candidate_fields c =
    (str "act_id", Value.text c.act_id)
    ∷ (str "act_class", Value.text c.act_class)
    ∷ (str "effect_class", Value.text c.effect_class)
    ∷ (str "source", Value.text c.source)
    ∷ (str "destination", Value.text c.destination)
    ∷ (str "purpose", Value.text c.purpose)
    ∷ (str "jurisdiction", Value.text c.jurisdiction)
    ∷ (str "policy_epoch", Value.int c.policy_epoch)
    ∷ (str "nonce", Value.text c.nonce)
    ∷ (str "issued_at_ns", Value.int c.issued_at_ns)
    ∷ (str "freshness_ns", Value.int c.freshness_ns)
    ∷ (str "sink_id", Value.text c.sink_id)
    ∷ (str "boundary_id", Value.text c.boundary_id)
    ∷ (str "scope", Value.tuple (texts c.scope))
    ∷ (str "payload", c.payload)
    ∷ (str "runtime_evidence_digest", Value.text c.runtime_evidence_digest)
    ∷ (str "authority_context", Value.dict c.authority_context)
    ∷ (str "status", Value.text (status_value c.status))
    ∷ []

-- The dataclass as `_normalize` sees it.
unfoldable pub candidate_value : CandidateAct → Value
unfolding candidate_fields
candidate_value c = Value.dataclass (fields (candidate_fields c))

pub record Hcad : Type 0 where
  pub schema : Str
  pub act_id : Str
  pub act_class : Str
  pub effect_class : Str
  pub source : Str
  pub destination : Str
  pub purpose : Str
  pub jurisdiction : Str
  pub policy_epoch : ℤ
  pub nonce : Str
  pub issued_at_ns : ℤ
  pub freshness_ns : ℤ
  pub sink_id : Str
  pub boundary_id : Str
  pub scope : List Str
  pub payload_digest : Str
  pub runtime_evidence_digest : Str

unfoldable pub hcad_fields : Hcad → List (Str × Value)
hcad_fields h =
    (str "schema", Value.text h.schema)
    ∷ (str "act_id", Value.text h.act_id)
    ∷ (str "act_class", Value.text h.act_class)
    ∷ (str "effect_class", Value.text h.effect_class)
    ∷ (str "source", Value.text h.source)
    ∷ (str "destination", Value.text h.destination)
    ∷ (str "purpose", Value.text h.purpose)
    ∷ (str "jurisdiction", Value.text h.jurisdiction)
    ∷ (str "policy_epoch", Value.int h.policy_epoch)
    ∷ (str "nonce", Value.text h.nonce)
    ∷ (str "issued_at_ns", Value.int h.issued_at_ns)
    ∷ (str "freshness_ns", Value.int h.freshness_ns)
    ∷ (str "sink_id", Value.text h.sink_id)
    ∷ (str "boundary_id", Value.text h.boundary_id)
    ∷ (str "scope", Value.tuple (texts h.scope))
    ∷ (str "payload_digest", Value.text h.payload_digest)
    ∷ (str "runtime_evidence_digest", Value.text h.runtime_evidence_digest)
    ∷ []

unfoldable pub hcad_value : Hcad → Value
unfolding hcad_fields
hcad_value h = Value.dataclass (fields (hcad_fields h))

-- `x if x is not None else y`
abbrev pub or_else : Option Str → Str → Str
or_else (some s) t = s
or_else none t = t

module _ ⦃p : Platform⦄ where
  unfoldable pub payload_digest : CandidateAct → Result Str
  payload_digest c = sha256_hex c.payload

  unfoldable pub candidate_digest : CandidateAct → Result Str
  candidate_digest c = sha256_hex (candidate_value c)

  unfoldable pub hcad_digest : Hcad → Result Str
  hcad_digest h = sha256_hex (hcad_value h)

  -- `build_hcad(candidate, sink_id=…, boundary_id=…)`
  unfoldable pub build_hcad : CandidateAct → Option Str → Option Str → Result Hcad
  build_hcad c sink_id boundary_id = do
    digest ← payload_digest c
    ok (record {
      schema = str "finality-hcad/v1";
      act_id = c.act_id;
      act_class = c.act_class;
      effect_class = c.effect_class;
      source = c.source;
      destination = c.destination;
      purpose = c.purpose;
      jurisdiction = c.jurisdiction;
      policy_epoch = c.policy_epoch;
      nonce = c.nonce;
      issued_at_ns = c.issued_at_ns;
      freshness_ns = c.freshness_ns;
      sink_id = or_else sink_id c.sink_id;
      boundary_id = or_else boundary_id c.boundary_id;
      scope = c.scope;
      payload_digest = digest;
      runtime_evidence_digest = c.runtime_evidence_digest;
    })

  -- The descriptor that a sink with its own identity would build is the candidate's own, if the
  -- candidate names that sink and boundary.
  pub build_hcad-local :
      (c : CandidateAct) (s b : Str)
      → c.sink_id ≡ s
      → c.boundary_id ≡ b
      → build_hcad c (some s) (some b) ≡ build_hcad c none none
  unfolding build_hcad
  build_hcad-local c s b es eb = rw (← es, ← eb)
