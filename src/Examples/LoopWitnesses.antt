-- ===== src/Examples/LoopWitnesses.antt =====
-- The theorems about the loops over many acts and about the summary of their times, each at concrete input where its hypotheses hold.
use execution_finality_for_a.Prelude.{
  ℕ, zero, suc, ◌+◌, ◌*◌, ◌/◌, ◌≤◌, ℤ, ◌≤ℤ◌, ◌-ℤ◌, pos, negsuc, some, [], ◌∷◌, ◌≡◌, ◌⊎◌, refl,
  arith, lookup,
}
use execution_finality_for_a.Canonical.{has_surrogate}
use execution_finality_for_a.State.{new_state}
use execution_finality_for_a.Consumption.Memory
use execution_finality_for_a.Consumption.Memory.{memory_store, memory-IsSingleUse}
use execution_finality_for_a.Effectors.{bound_handle, new_effector, channel_of}
use execution_finality_for_a.Protocol.Clash.{Clash}
use execution_finality_for_a.Programs.Session.{sessions}
use execution_finality_for_a.Programs.Trail.{calls}
use execution_finality_for_a.Programs.Throughput.{ServesAll}
use execution_finality_for_a.Programs.Throughput.Loop.{loop_served}
use execution_finality_for_a.Programs.Benchmark.{authority, sink, vault, built, job, jobs, run}
use execution_finality_for_a.Programs.Benchmark.Rounds.{authority-IsReady}
use execution_finality_for_a.Programs.Benchmark.Loop.{IsFit-job, fits, run-ServesAll}
use execution_finality_for_a.Programs.Benchmark.Summary.{Floats, Summary, summary}
use execution_finality_for_a.Programs.Benchmark.Summary.Ordered.{IsSummary, summary_ordered}
use execution_finality_for_a.Examples.Setup.{toy_platform}
use execution_finality_for_a.Examples.Ready.{toy-IsDocumented}

loop_served_example :
    ServesAll
      (job (negsuc 0) ∷ jobs 0 2)
      (built 5).effector
      (sessions authority sink memory_store (bound_handle 5) (job (negsuc 0) ∷ jobs 0 2) (built 5))
    ⊎ Clash authority (calls authority (job (negsuc 0) ∷ jobs 0 2) [] vault)
unfolding Memory.is_claimed new_state lookup has_surrogate new_effector channel_of jobs
loop_served_example =
    loop_served toy-IsDocumented authority sink (authority-IsReady toy-IsDocumented (pos 0)) refl
      memory_store memory-IsSingleUse 5 (job (negsuc 0) ∷ jobs 0 2) (built 5)
      (IsFit-job toy-IsDocumented (negsuc 0), tt, fits toy-IsDocumented 0 2) refl refl refl
      (λ j. refl) (λ k. omega arith) (λ k. omega arith) refl refl refl

run-ServesAll_example :
    ServesAll (jobs 0 2) (built 5).effector (run 5 2 (built 5))
    ⊎ Clash authority (calls authority (job (negsuc 0) ∷ jobs 0 2) [] vault)
run-ServesAll_example = run-ServesAll toy-IsDocumented 5 2 (omega arith)

-- A stand-in for floats: integers, and fractions rounded to the nearest.
abbrev rounded_product : ℤ → ℕ → ℤ
rounded_product (pos n) p = pos ((n * p + 50) / 100)
rounded_product (negsuc n) p = pos 0 -ℤ pos (((n + 1) * p + 50) / 100)

abbrev whole : Floats
whole = record { Float = ℤ; rounded = rounded_product; thousandth = λ n. n; mean = λ ns. pos 0 }

product_monotone : (n p q : ℕ) → p ≤ q → n * p ≤ n * q
product_monotone zero p q h = omega arith
product_monotone (suc n) p q h = let rest = product_monotone n p q h in omega (arith, h, rest)

rounded_monotone : (m p q : ℕ) → p ≤ q → rounded_product (pos m) p ≤ℤ rounded_product (pos m) q
rounded_monotone n p q h = let more = product_monotone n p q h in omega (arith, more)

summary_ordered_example :
    (r : Summary whole) × (summary whole (pos 30 ∷ pos 10 ∷ pos 20 ∷ []) ≡ some r)
    × IsSummary whole (pos 30) (pos 10 ∷ pos 20 ∷ []) r
summary_ordered_example = summary_ordered whole (pos 30) (pos 10 ∷ pos 20 ∷ []) (rounded_monotone 2)
