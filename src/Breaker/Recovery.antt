-- ===== src/Breaker/Recovery.antt =====
-- src/surface/breaker.rs: how long the breaker refuses, and the numbers it reports.
use min_mcp.Prelude.{
  ℕ, ◌+◌, ◌≤◌, ◌≡◌, refl, max, ◌⊎◌, inl, inr, Bool, true, false, Option, none, some, arith,
  Option-cases,
}
use min_mcp.Breaker.{
  Breaker, BreakerState, allow, block, closed, u32_max, stale_probe_after, check, on_result,
}

-- From some instant on, a call is let through.
abbrev pub Lets : BreakerState → ℕ → Type 0
Lets s now = (probe : Bool) × ((check s now).1 ≡ allow probe)

abbrev or_zero : Option ℕ → ℕ
or_zero none = 0
or_zero (some t) = t

abbrev pub lets_from : BreakerState → ℕ
lets_from s = max (or_zero s.open_until) (or_zero s.probe_started + stale_probe_after)

half_open_lets :
    (s : BreakerState) (u now : ℕ)
    → s.open_until ≡ some u
    → lets_from s ≤ now
    → (check s now).1 ≡ allow true
unfolding check
half_open_lets s u now e h = ground arith

-- Whatever the state, even with a probe whose call never reported back, from `lets_from` on the
-- breaker lets a call through.
pub check_recovers : (s : BreakerState) (now : ℕ) → lets_from s ≤ now → Lets s now
unfolding check
check_recovers s now h = elim (Option-cases s.open_until) [
  | inl n ↦ (false, ground arith)
  | inr (u, o) ↦ (true, half_open_lets s u now o h)
]

-- Everything that changes a breaker: a call that asks, and the outcome of a call.
pub data Step : BreakerState → BreakerState → Type 0 where
  asked : (s : BreakerState) (now : ℕ) → Step s (check s now).0
  reported :
      (cfg : Breaker) (s : BreakerState) (is_error was_probe : Bool) (now : ℕ)
      → Step s (on_result cfg s is_error was_probe now)

pub data Reach (s : BreakerState) : BreakerState → Type 0 where
  start : Reach s s
  step : {t u : BreakerState} → Reach s t → Step t u → Reach s u

record Inv (s : BreakerState) : Type 0 where
  bounded : s.consecutive ≤ u32_max
  counted : (s.open_until ≡ none) ⊎ (1 ≤ s.consecutive)

Step-Inv : {s t : BreakerState} → Step s t → Inv s → Inv t
unfolding check on_result
Step-Inv (asked s now) v = ground arith
Step-Inv (reported cfg s is_error was_probe now) v = ground arith

Reach-Inv : {s t : BreakerState} → Inv s → Reach s t → Inv t
Reach-Inv v start = v
Reach-Inv v (step r st) = Step-Inv st (Reach-Inv v r)

-- Every refusal that can be reached from the initial state names between one and `u32_max` failures
-- and a wait of at least one second.
block_bounds :
    (s : BreakerState) (now n r : ℕ)
    → Reach closed s
    → (check s now).1 ≡ block n r
    → (1 ≤ n) × (n ≤ u32_max) × (1 ≤ r)
unfolding check
block_bounds s now n r path e =
    let v : Inv s = Reach-Inv (record { bounded = omega arith; counted = inl refl }) path in
    ground (arith, v.bounded, v.counted)
