-- ===== src/Effectors.antt =====
-- src/finality_ref/effectors.py: the simulated consequence boundary. A marker is an object that is
-- only compared by identity, so it is a number that its effector chose.
pub mod Laws
use execution_finality_for_a.Prelude.{
  ℕ, Str, str, pos, eqb, length, Bool, false, not, List, [], ◌∷◌, ◌++◌, Dict,
}
use execution_finality_for_a.Errors.{Error, Denial, err}
use execution_finality_for_a.Exec.{Exec, pure, lift, gets, raise_if, modify, ◌>>=◌, ◌>>◌}
use execution_finality_for_a.Platform.{Platform}
use execution_finality_for_a.Canonical.{Value, fields, sha256_hex}
use execution_finality_for_a.Models.{CandidateAct, candidate_digest}

pub record EffectRecord : Type 0 where
  pub channel : Str
  pub candidate_digest : Str
  pub effect_reference : Str
  pub payload : Value

pub record GuardedEffector : Type 0 where
  pub channel : Str
  pub marker : ℕ
  pub records : List EffectRecord
  pub fail_next : Bool

-- The protocol `EffectHandle`, over the state that a commit changes.
pub record EffectHandle (E : Type 0) : Type 0 where
  pub commit : CandidateAct → Exec E EffectRecord

-- `GuardedEffector(channel)`, with the identity of its new marker.
unfoldable pub new_effector : Str → ℕ → GuardedEffector
new_effector channel marker = record {
  channel = channel;
  marker = marker;
  records = [];
  fail_next = false;
}

unfoldable pub direct_effect : CandidateAct → Exec GuardedEffector EffectRecord
direct_effect c e = (err (Error.effect_denied Denial.direct_path), e)

-- The dict that an effect reference is the digest of.
unfoldable pub reference_core : Str → Str → ℕ → List (Str × Value)
reference_core channel digest ordinal =
    (str "channel", Value.text channel)
    ∷ (str "candidate_digest", Value.text digest)
    ∷ (str "ordinal", Value.int (pos ordinal))
    ∷ []

module _ ⦃p : Platform⦄ where
  -- `_commit`
  unfoldable pub guarded_commit : CandidateAct → ℕ → Exec GuardedEffector EffectRecord
  guarded_commit c marker = do
    own ← gets (λ e. e.marker)
    raise_if (not (eqb marker own)) (Error.effect_denied Denial.invalid_invocation)
    failing ← gets (λ e. e.fail_next)
    modify (λ e. record e { fail_next = false })
    raise_if failing Error.os_error
    digest ← lift (candidate_digest c)
    channel ← gets (λ e. e.channel)
    ordinal ← gets (λ e. length e.records)
    ref ← lift (sha256_hex (Value.dict (fields (reference_core channel digest ordinal))))
    let rec : EffectRecord = record {
      channel = channel;
      candidate_digest = digest;
      effect_reference = ref;
      payload = c.payload;
    }
    modify (λ e. record e { records = e.records ++ rec ∷ [] })
    pure rec

  -- `bind_for_sink`: the handle holds the marker of its effector.
  unfoldable pub bound_handle : ℕ → EffectHandle GuardedEffector
  bound_handle marker = record { commit = λ c. guarded_commit c marker }

-- The subclasses of `GuardedEffector`.
pub data EffectorType : Type 0 where
  network storage renderer queue process actuator payment model_output dma : EffectorType

unfoldable pub channel_of : EffectorType → Str
channel_of EffectorType.network = str "network-egress"
channel_of EffectorType.storage = str "storage-write"
channel_of EffectorType.renderer = str "renderer"
channel_of EffectorType.queue = str "message-queue"
channel_of EffectorType.process = str "process-spawn"
channel_of EffectorType.actuator = str "actuator"
channel_of EffectorType.payment = str "payment-ledger"
channel_of EffectorType.model_output = str "model-output"
channel_of EffectorType.dma = str "dma-memory-release"

-- EFFECTOR_TYPES
abbrev pub effector_types : Dict EffectorType
effector_types =
    (str "network-egress", EffectorType.network)
    ∷ (str "storage-write", EffectorType.storage)
    ∷ (str "renderer", EffectorType.renderer)
    ∷ (str "message-queue", EffectorType.queue)
    ∷ (str "process-spawn", EffectorType.process)
    ∷ (str "actuator", EffectorType.actuator)
    ∷ (str "payment-ledger", EffectorType.payment)
    ∷ (str "model-output", EffectorType.model_output)
    ∷ (str "dma-memory-release", EffectorType.dma)
    ∷ []
