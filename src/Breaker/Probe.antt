-- ===== src/Breaker/Probe.antt =====
-- src/surface/breaker.rs: the half-open probe.
use min_mcp.Prelude.{
  ℕ, ◌+◌, ◌*◌, ◌≤◌, ◌<◌, ◌≡◌, Bool, true, false, List, [], ◌∷◌, some, arith, All, Option-cases, inl,
  inr, unwrap_or,
}
use min_mcp.Breaker.{
  Breaker, BreakerState, Decision, allow, block, second, instant_max, stale_probe_after, check,
  on_result,
}

-- What other calls do while a probe is out: ask to be let through, or report that they failed, having been
-- let through before the breaker opened and so not as a probe.
pub data Event : Type 0 where
  asks : ℕ → Event
  fails : ℕ → Event

abbrev pub at : Event → ℕ
at (asks t) = t
at (fails t) = t

-- The answers to those that ask, under the source's two operations.
pub answers : Breaker → BreakerState → List Event → List Decision
answers cfg s [] = []
answers cfg s (asks t ∷ es) = (check s t).1 ∷ answers cfg (check s t).0 es
answers cfg s (fails t ∷ es) = answers cfg (on_result cfg s true false t) es

abbrev pub is_block : Decision → Bool
is_block (allow p) = false
is_block (block n r) = true

record Probing (t : ℕ) (s : BreakerState) : Type 0 where
  until : ℕ
  is_open : s.open_until ≡ some until
  started : s.probe_started ≡ some t

claims : (s : BreakerState) (t : ℕ) → (check s t).1 ≡ allow true → Probing t (check s t).0
unfolding check
claims s t e = elim (Option-cases s.open_until) [
  | inl n ↦ absurd (ground arith)
  | inr (u, o) ↦ record { until = u; is_open = ground arith; started = ground arith }
]

asks_lem :
    (s : BreakerState) (t t' : ℕ)
    → Probing t s
    → t' < t + stale_probe_after
    → ((check s t').0 ≡ s) × (is_block (check s t').1 ≡ true)
unfolding check
asks_lem s t t' p h = ground (arith, p.is_open, p.started)

fails_lem :
    (cfg : Breaker) (s : BreakerState) (t t' : ℕ)
    → Probing t s
    → Probing t (on_result cfg s true false t')
unfolding on_result
fails_lem cfg s t t' p = record {
  until = unwrap_or (on_result cfg s true false t').open_until 0;
  is_open = ground (arith, p.is_open);
  started = ground (arith, p.started);
}

probe_exclusive_from :
    (cfg : Breaker) (s : BreakerState) (t : ℕ) (es : List Event)
    → Probing t s
    → All (λ e. at e < t + stale_probe_after) es
    → All (λ d. is_block d ≡ true) (answers cfg s es)
unfolding answers
probe_exclusive_from cfg s t [] p h = tt
probe_exclusive_from cfg s t (asks t' ∷ es) p h =
    let (same, blocked) = asks_lem s t t' p h.0 in
    (blocked, rw same (probe_exclusive_from cfg s t es p h.1))
probe_exclusive_from cfg s t (fails t' ∷ es) p h =
    probe_exclusive_from cfg (on_result cfg s true false t') t es (fails_lem cfg s t t' p) h.1

-- Once a call has been let through as the probe, every other call that asks before the probe is stale
-- is refused, while all that is reported in between are failures of calls that were no probe themselves.
-- (A report of an earlier probe that had become stale is not among them: it would clear the probe.)
pub probe_exclusive :
    (cfg : Breaker) (s : BreakerState) (t : ℕ) (es : List Event)
    → (check s t).1 ≡ allow true
    → All (λ e. at e < t + stale_probe_after) es
    → All (λ d. is_block d ≡ true) (answers cfg (check s t).0 es)
probe_exclusive cfg s t es e h = probe_exclusive_from cfg (check s t).0 t es (claims s t e) h

-- A failed probe reopens the breaker for a whole cooldown, whatever the count; when that is over the
-- next call is a new probe.
check_after_failed_probe :
    (cfg : Breaker) (s : BreakerState) (t now : ℕ)
    → t + cfg.cooldown_s * second ≤ instant_max
    → (now < t + cfg.cooldown_s * second
        → is_block (check (on_result cfg s true true t) now).1 ≡ true)
      × (t + cfg.cooldown_s * second ≤ now
          → (check (on_result cfg s true true t) now).1 ≡ allow true)
unfolding check on_result
check_after_failed_probe cfg s t now m = (λ h. ground arith, λ h. ground arith)
