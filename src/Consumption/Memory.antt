-- ===== src/Consumption/Memory.antt =====
-- `InMemoryConsumptionStore`: a dict under a lock.
use execution_finality_for_a.Prelude.{
  Str, str_eq, ◌==◌, Dict, lookup, insert, has_key, lookup-insert, Bool, some, if◌then◌else◌, ◌||◌,
  ◌≡◌, arith,
}
use execution_finality_for_a.Errors.{Error, Replay, ok, err}
use execution_finality_for_a.Exec.{Exec, gets, raise_if, modify, ◌>>=◌, ◌>>◌}
use execution_finality_for_a.Consumption.Interface.{Claim, ConsumptionStore, IsSingleUse}

abbrev pub Claims : Type 0
Claims = Dict Claim

unfoldable pub claim : Str → Claim → Exec Claims (Unit {0})
claim capability_id c = do
  claimed ← gets (has_key capability_id)
  raise_if claimed (Error.replay_detected Replay.capability_consumed)
  modify (insert capability_id c)

unfoldable pub is_claimed : Str → Claims → Bool
is_claimed capability_id s = has_key capability_id s

abbrev pub memory_store : ConsumptionStore Claims
memory_store = record { claim = claim; is_claimed = is_claimed }

claim-result :
    (k : Str) (c : Claim) (s : Claims)
    → (claim k c s).0
      ≡ (if is_claimed k s then err (Error.replay_detected Replay.capability_consumed) else ok tt)
unfolding claim is_claimed
claim-result k c s = ground arith

claimed-claim :
    (j k : Str) (c : Claim) (s : Claims) → is_claimed j (claim k c s).1 ≡ (j == k || is_claimed j s)
unfolding claim is_claimed
claimed-claim j k c s = ground (arith, lookup-insert j k c s)

-- The in-memory store keeps the contract.
pub memory-IsSingleUse : IsSingleUse memory_store
memory-IsSingleUse = record { claim-result = claim-result; claimed-claim = claimed-claim }

-- A refused claim writes nothing: the first claim of a capability stays on record.
pub lookup-claim :
    (j k : Str) (c : Claim) (s : Claims)
    → lookup j (claim k c s).1
      ≡ (if j == k then (if is_claimed k s then lookup k s else some c) else lookup j s)
unfolding claim is_claimed
lookup-claim j k c s = ground (arith, lookup-insert j k c s)
