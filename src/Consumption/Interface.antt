-- ===== src/Consumption/Interface.antt =====
-- The protocol `ConsumptionStore`, and the contract of single use: the dict keeps it, and the table keeps
-- it for the claims that SQLite can bind.
use execution_finality_for_a.Prelude.{Str, str_eq, ◌==◌, ℤ, Bool, ◌||◌, ◌≡◌, if◌then◌else◌}
use execution_finality_for_a.Errors.{Error, Replay, ok, err}
use execution_finality_for_a.Exec.{Exec}

-- What a claim records beside the capability's id.
pub record Claim : Type 0 where
  pub sink_id : Str
  pub boundary_id : Str
  pub nonce : Str
  pub now_ns : ℤ

pub record ConsumptionStore (S : Type 0) : Type 0 where
  pub claim : Str → Claim → Exec S (Unit {0})
  pub is_claimed : Str → S → Bool

-- A claim returns exactly where the capability was not claimed, raises `ReplayDetected` otherwise,
-- and leaves claimed what was claimed and this capability.
pub record IsSingleUse {S : Type 0} (store : ConsumptionStore S) : Type 0 where
  pub claim-result :
      (k : Str) (c : Claim) (s : S)
      → (store.claim k c s).0 ≡ (
          if store.is_claimed k s
          then err (Error.replay_detected Replay.capability_consumed)
          else ok tt)
  pub claimed-claim :
      (j k : Str) (c : Claim) (s : S)
      → store.is_claimed j (store.claim k c s).1 ≡ (j == k || store.is_claimed j s)
