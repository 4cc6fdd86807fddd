-- ===== src/Breaker/Examples.antt =====
-- The theorems about src/surface/breaker.rs at concrete times, and runs of its operations.
use min_mcp.Prelude.{
  ℕ, ◌+◌, ◌-◌, ◌*◌, ◌≤◌, ◌≡◌, refl, max, true, false, [], ◌∷◌, none, some, arith, All,
}
use min_mcp.Breaker.{Breaker, BreakerState, block, closed, second, check, on_result}
use min_mcp.Breaker.Trips.{failures, check-failures_at}
use min_mcp.Breaker.Probe.{asks, fails, answers, is_block, probe_exclusive}
use min_mcp.Breaker.Recovery.{Lets, check_recovers}

abbrev three : Breaker
three = record { consecutive_failures = 3; cooldown_s = 60 }

-- Open until the instant 60, with no probe out.
abbrev tripped : BreakerState
tripped = record { consecutive = 3; open_until = some 60; probe_started = none }

trips_on_the_third : (check (failures three closed (1 ∷ 2 ∷ 3 ∷ [])) (10 * second)).1 ≡ block 3 50
unfolding check failures on_result
trips_on_the_third = refl

check-failures_at_example :
    (r : ℕ) × ((check
        (on_result three
          (failures three (on_result three tripped false true 0) (1 ∷ 2 ∷ []))
          true
          false
          3)
        (10 * second)).1
      ≡ block 3 r)
    × (1 ≤ r)
    × (r * second ≤ max (3 + 60 * second - 10 * second) second)
check-failures_at_example =
    check-failures_at three tripped true 0 (1 ∷ 2 ∷ []) 3 (10 * second) (omega arith) (omega arith)
      (omega arith) (omega arith)

probe_exclusive_example :
    All
      (λ d. is_block d ≡ true)
      (answers three (check tripped 70).0 (asks 71 ∷ fails 72 ∷ asks 100 ∷ []))
unfolding check
probe_exclusive_example =
    probe_exclusive three tripped 70 (asks 71 ∷ fails 72 ∷ asks 100 ∷ []) refl (omega arith)

check_recovers_example : Lets tripped (200 * second)
check_recovers_example = check_recovers tripped (200 * second) (omega arith)
