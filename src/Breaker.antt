-- ===== src/Breaker.antt =====
-- src/surface/breaker.rs: the circuit breaker of one tool.
-- An `Instant` is a number of nanoseconds; `instant_max` is the last one that std can represent
-- (a signed 64-bit count of seconds).
pub mod Examples
pub mod Trips
pub mod Probe
pub mod Recovery
use min_mcp.Prelude.{
  ℕ, ◌+◌, ◌-◌, ◌*◌, ◌/◌, ◌^◌, min, max, Bool, true, false, not, ◌||◌, Option, none, some, ltb, leb,
  if◌then◌else◌, unwrap_or,
}

-- `Breaker` of config.rs
pub record Breaker : Type 0 where
  pub consecutive_failures : ℕ
  pub cooldown_s : ℕ

pub data Decision : Type 0 where
  allow : Bool → Decision
  block : ℕ → ℕ → Decision

pub record BreakerState : Type 0 where
  pub consecutive : ℕ
  pub open_until : Option ℕ
  pub probe_started : Option ℕ

abbrev pub second : ℕ
second = 1_000_000_000

abbrev pub stale_probe_after : ℕ
stale_probe_after = 180 * second

abbrev pub u32_max : ℕ
u32_max = 2 ^ 32 - 1

abbrev pub instant_max : ℕ
instant_max = 2 ^ 63 * second - 1

-- `BreakerState::default()`
abbrev pub closed : BreakerState
closed = record { consecutive = 0; open_until = none; probe_started = none }

-- `now.checked_add(d)`
abbrev pub checked_add : ℕ → ℕ → Option ℕ
checked_add now d = if leb (now + d) instant_max then some (now + d) else none

-- Is a probe in flight that is not yet stale? (`duration_since` saturates at zero.)
abbrev pub probe_live : Option ℕ → ℕ → Bool
probe_live none now = false
probe_live (some at) now = not (leb stale_probe_after (now - at))

check_half_open : BreakerState → ℕ → BreakerState × Decision
check_half_open s now =
    if probe_live s.probe_started now
    then (s, block s.consecutive 1)
    else (record s { probe_started = some now }, allow true)

unfoldable pub check : BreakerState → ℕ → BreakerState × Decision
unfolding check_half_open
check s now = elim s.open_until [
  | none ↦ (s, allow false)
  | some until ↦
      if ltb now until
      then (s, block s.consecutive (max ((until - now) / second) 1))
      else check_half_open s now
]

abbrev pub reopen : Breaker → ℕ → ℕ
reopen cfg now =
    unwrap_or (checked_add now (cfg.cooldown_s * second)) (now + 60 * 60 * 24 * 365 * second)

abbrev pub saturating_suc : ℕ → ℕ
saturating_suc n = min (n + 1) u32_max

pub on_result : Breaker → BreakerState → Bool → Bool → ℕ → BreakerState
on_result cfg s is_error was_probe now =
    let probe : Option ℕ = if was_probe then none else s.probe_started in
    let n : ℕ = saturating_suc s.consecutive in
    if not is_error
    then record { consecutive = 0; open_until = none; probe_started = probe }
    else if was_probe || leb cfg.consecutive_failures n
    then record { consecutive = n; open_until = some (reopen cfg now); probe_started = probe }
    else record { consecutive = n; open_until = s.open_until; probe_started = probe }
