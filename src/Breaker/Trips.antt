-- ===== src/Breaker/Trips.antt =====
-- src/surface/breaker.rs: when the breaker opens, and what it tells the caller while it is open.
use min_mcp.Prelude.{
  ℕ, ◌+◌, ◌-◌, ◌*◌, ◌/◌, ◌≤◌, ◌<◌, ◌≡◌, refl, min, max, Bool, true, false, List, [], ◌∷◌, none,
  arith, length,
}
use min_mcp.Breaker.{
  Breaker, BreakerState, allow, block, second, u32_max, instant_max, check, on_result,
  saturating_suc,
}

-- Failing calls that are no probes, reported at the given times, the first first.
unfoldable pub failures : Breaker → BreakerState → List ℕ → BreakerState
failures cfg s [] = s
failures cfg s (t ∷ ts) = failures cfg (on_result cfg s true false t) ts

count_failures : ℕ → List ℕ → ℕ
count_failures n [] = n
count_failures n (t ∷ ts) = count_failures (saturating_suc n) ts

count_failures_lem :
    (n : ℕ) (ts : List ℕ) → n ≤ u32_max → count_failures n ts ≡ min (n + length ts) u32_max
unfolding count_failures
count_failures_lem n [] h = omega arith
count_failures_lem n (t ∷ ts) h = omega (arith, count_failures_lem (saturating_suc n) ts)

consecutive-failures :
    (cfg : Breaker) (s : BreakerState) (ts : List ℕ)
    → (failures cfg s ts).consecutive ≡ count_failures s.consecutive ts
unfolding failures count_failures on_result
consecutive-failures cfg s [] = refl
consecutive-failures cfg s (t ∷ ts) =
    ground (arith, consecutive-failures cfg (on_result cfg s true false t) ts)

failures_closed :
    (cfg : Breaker) (s : BreakerState) (ts : List ℕ)
    → s.open_until ≡ none
    → s.consecutive + length ts < cfg.consecutive_failures
    → (failures cfg s ts).open_until ≡ none
unfolding failures on_result
failures_closed cfg s [] e h = e
failures_closed cfg s (t ∷ ts) e h =
    failures_closed cfg (on_result cfg s true false t) ts (ground arith) (ground arith)

-- The streak counted after a success, over failures that are no probes.
streak :
    (cfg : Breaker) (s : BreakerState) (probe : Bool) (t₀ : ℕ) (ts : List ℕ)
    → length ts ≤ u32_max
    → (failures cfg (on_result cfg s false probe t₀) ts).consecutive ≡ length ts
unfolding on_result
streak cfg s probe t₀ ts h =
    omega
      (arith, consecutive-failures cfg (on_result cfg s false probe t₀) ts, count_failures_lem 0 ts)

-- After a success, failures fewer than the threshold leave the breaker closed: the next call goes
-- through as a plain call.
pub check-failures_below :
    (cfg : Breaker) (s : BreakerState) (probe : Bool) (t₀ : ℕ) (ts : List ℕ) (now : ℕ)
    → length ts < cfg.consecutive_failures
    → (check (failures cfg (on_result cfg s false probe t₀) ts) now).1 ≡ allow false
unfolding check on_result
check-failures_below cfg s probe t₀ ts now h =
    ground (arith, failures_closed cfg (on_result cfg s false probe t₀) ts)

-- The failure that reaches the threshold opens the breaker: until the cooldown has passed every call
-- is refused, with the count of failures and a wait of at least one second and, past that, no more
-- than what is left. (The cooldown must end at an instant that can be represented.)
pub check-failures_at :
    (cfg : Breaker) (s : BreakerState) (probe : Bool) (t₀ : ℕ) (ts : List ℕ) (t now : ℕ)
    → length ts + 1 ≡ cfg.consecutive_failures
    → cfg.consecutive_failures ≤ u32_max
    → t + cfg.cooldown_s * second ≤ instant_max
    → now < t + cfg.cooldown_s * second
    → (r : ℕ) × ((check
          (on_result cfg (failures cfg (on_result cfg s false probe t₀) ts) true false t)
          now).1
        ≡ block cfg.consecutive_failures r)
      × (1 ≤ r)
      × (r * second ≤ max (t + cfg.cooldown_s * second - now) second)
unfolding check on_result
check-failures_at cfg s probe t₀ ts t now e u m l = (
  max ((t + cfg.cooldown_s * second - now) / second) 1,
  ground (arith, streak cfg s probe t₀ ts (omega arith)),
  omega arith,
  omega arith,
)
