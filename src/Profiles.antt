-- ===== src/Profiles.antt =====
-- src/finality_ref/profiles.py: the table of deployment profiles, and that each names a sink of a kind
-- that effectors.py has a class for.
use execution_finality_for_a.Prelude.{
  Str, str, str_eq, Str-discrete, ℕ_discrete, ℤ, pos, lookup, List, [], ◌∷◌, some, ◌≡◌, refl,
}
use execution_finality_for_a.Effectors.{EffectorType, channel_of, effector_types}

pub record SystemProfile : Type 0 where
  pub name : Str
  pub sink_kind : Str
  pub state_backend : Str
  pub authenticator : Str
  pub latency_target_us : ℤ
  pub deployment_boundary : Str
  pub notes : Str

abbrev new_profile : Str → Str → Str → Str → ℤ → Str → Str → SystemProfile
new_profile name sink_kind state_backend authenticator latency_target_us boundary notes = record {
  name = name;
  sink_kind = sink_kind;
  state_backend = state_backend;
  authenticator = authenticator;
  latency_target_us = latency_target_us;
  deployment_boundary = boundary;
  notes = notes;
}

-- PROFILES
abbrev pub profiles : List SystemProfile
profiles =
    new_profile (str "embedded-control") (str "actuator") (str "protected-memory")
      (str "device-key") (pos 100) (str "MCU/secure-element")
      (str "hard real-time target; benchmark requires native implementation")
    ∷ new_profile (str "accelerator-hot-path") (str "dma-memory-release") (str "device-memory")
        (str "device-key") (pos 500) (str "GPU/DPU/SmartNIC")
        (str "descriptor precomputation and local verification")
    ∷ new_profile (str "upf-egress") (str "network-egress") (str "local-durable") (str "HSM-key")
        (pos 1000) (str "UPF/N6 or SmartNIC") (str "packet/flow consequence boundary")
    ∷ new_profile (str "api-gateway") (str "network-egress") (str "sqlite/redis-like")
        (str "HSM-key") (pos 2000) (str "reverse-proxy/gateway")
        (str "general API sidecar/gateway profile")
    ∷ new_profile (str "storage-writer") (str "storage-write") (str "database") (str "KMS/HSM-key")
        (pos 5000) (str "transactional writer") (str "bind to transaction/idempotency key")
    ∷ new_profile (str "payment-finality") (str "payment-ledger") (str "durable-ledger")
        (str "HSM-key") (pos 10000) (str "payment/ledger bridge")
        (str "prioritize non-replay and auditability")
    ∷ new_profile (str "cross-region-governance") (str "network-egress") (str "replicated-durable")
        (str "HSM-key") (pos 20000) (str "regional egress gateway") (str "network RTT may dominate")
    ∷ new_profile (str "audit-heavy") (str "model-output") (str "append-only") (str "HSM-key")
        (pos 50000) (str "output emitter") (str "full receipt retention and policy evidence")
    ∷ []

-- The class that EFFECTOR_TYPES has for the kind of sink opens the channel of that name.
abbrev HasEffector : SystemProfile → Type 0
HasEffector q =
    (t : EffectorType) × (lookup q.sink_kind effector_types ≡ some t) × (channel_of t ≡ q.sink_kind)

abbrev AllHaveEffectors : List SystemProfile → Type 0
AllHaveEffectors [] = Unit
AllHaveEffectors (q ∷ qs) = HasEffector q × AllHaveEffectors qs

profiles-HasEffector : AllHaveEffectors profiles
unfolding lookup channel_of Str-discrete ℕ_discrete
profiles-HasEffector = (
  (EffectorType.actuator, refl, refl),
  (
    (EffectorType.dma, refl, refl),
    (
      (EffectorType.network, refl, refl),
      (
        (EffectorType.network, refl, refl),
        (
          (EffectorType.storage, refl, refl),
          (
            (EffectorType.payment, refl, refl),
            ((EffectorType.network, refl, refl), ((EffectorType.model_output, refl, refl), tt)),
          ),
        ),
      ),
    ),
  ),
)
