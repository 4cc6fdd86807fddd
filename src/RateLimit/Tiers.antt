-- ===== src/RateLimit/Tiers.antt =====
-- src/surface/dispatch.rs, `rate_limited`: which tiers may refuse a call, and what a refusal leaves charged.
use mathlib.Core.Path.{subst}
use min_mcp.Prelude.{
  ℕ, ◌-◌, max, ◌<◌, ◌^◌, String, ◌<>◌, ◌≡◌, ◌≢◌, refl, sym, ap, ◌∙◌, inl, inr, ◌⊎◌, Bool, true,
  false, not, List, [], ◌∷◌, ◌++◌, Option, none, some, arith, starts_with, eq_iff, All,
}
use min_mcp.Visibility.Patterns.{starts_with_comparable, starts_with-append}
use min_mcp.Visibility.{Caller, rate_key}
use min_mcp.RateLimit.{
  Floats, Limit, RateLimits, Taken, exact_max, capacity, rate, refill, make_room, spend, refund, ok,
  err, Bucket, Map, find, store, take, refund_all, Tier, charge, tiers, rate_limited, caller_tier,
  tool_tier, overlay_tier, listed,
}
use min_mcp.RateLimit.Bounds.{find-store, wait, level, take-spend, spend_ok, spend_err}
use min_mcp.RateLimit.Burst.{find-refund_ne}

module _ (N : Floats) where
  Taken-cases : (t : Taken) → (t ≡ ok) ⊎ ((s : ℕ) × (t ≡ err s))
  Taken-cases ok = inl refl
  Taken-cases (err s) = inr (s, refl)

  charge_ok :
      (id : String) (now : ℕ) (charged : List (String × Limit)) (t : Tier) (ts : List Tier)
      (m m' : Map N)
      → take N t.key t.limit now m ≡ (m', ok)
      → charge N id now charged (t ∷ ts) m
        ≡ charge N id now (charged ++ ((t.key, t.limit) ∷ [])) ts m'
  unfolding charge
  charge_ok id now charged t ts m m' e = cc (e)

  charge_refused :
      (id : String) (now : ℕ) (charged : List (String × Limit)) (t : Tier) (ts : List Tier)
      (m m' : Map N) (s : ℕ)
      → take N t.key t.limit now m ≡ (m', err s)
      → t.enforced ≡ true
      → charge N id now charged (t ∷ ts) m ≡ (refund_all N charged now m', [], some (t.message, s))
  unfolding charge
  charge_refused id now charged t ts m m' s e f = cc (e, f)

  charge_reported :
      (id : String) (now : ℕ) (charged : List (String × Limit)) (t : Tier) (ts : List Tier)
      (m m' : Map N) (s : ℕ)
      → take N t.key t.limit now m ≡ (m', err s)
      → t.enforced ≡ false
      → (charge N id now charged (t ∷ ts) m).2 ≡ (charge N id now charged ts m').2
  unfolding charge
  charge_reported id now charged t ts m m' s e f = cc (e, f)

  charge_unenforced :
      (id : String) (now : ℕ) (charged : List (String × Limit)) (ts : List Tier) (m : Map N)
      → All (λ t. t.enforced ≡ false) ts
      → (charge N id now charged ts m).2 ≡ none
  unfolding charge
  charge_unenforced id now charged [] m h = refl
  charge_unenforced id now charged (t ∷ ts) m (h, hs) =
      let r = take N t.key t.limit now m in
      elim (Taken-cases r.1) [
        | inl e ↦
            ap (λ x. x.2) (charge_ok id now charged t ts m r.0 (cc (e)))
            ∙ charge_unenforced id now (charged ++ ((t.key, t.limit) ∷ [])) ts r.0 hs
        | inr (s, e) ↦
            charge_reported id now charged t ts m r.0 s (cc (e)) h
            ∙ charge_unenforced id now charged ts r.0 hs
      ]

  off :
      (enforce : Bool)
      → enforce ≡ false
      → (who id : String) (c t : Option Limit)
      → All
          (λ t. t.enforced ≡ false)
          (listed (caller_tier enforce who c)
            ++ listed (tool_tier enforce who id t)
            ++ listed (overlay_tier id none))
  unfolding caller_tier tool_tier overlay_tier
  off enforce h who id none none = tt
  off enforce h who id (some l) none = (h, tt)
  off enforce h who id none (some k) = (h, tt)
  off enforce h who id (some l) (some k) = (h, (h, tt))

  unenforced :
      (rl : RateLimits) (caller : Caller) (id : String)
      → rl.report_only ≡ true
      → All (λ t. t.enforced ≡ false) (tiers rl caller id none)
  unfolding tiers
  unenforced rl caller id h =
      off (not rl.report_only) (ap not h) (rate_key caller) id rl.per_caller rl.per_tool

  -- Under report-only no call is refused, whatever the buckets hold, unless its tool has a limit of its own.
  rate_limited_report_only :
      (rl : RateLimits) (caller : Caller) (id : String) (now : ℕ) (m : Map N)
      → rl.report_only ≡ true
      → (rate_limited N rl caller id none now m).2 ≡ none
  unfolding rate_limited
  rate_limited_report_only rl caller id now m h =
      charge_unenforced id now [] (tiers rl caller id none) m (unenforced rl caller id h)

  -- Two buckets that were counted now, within their limits: the first has a token, the second less than one.
  pub record Drained (k₁ k₂ : String) (l₁ l₂ : Limit) (now : ℕ) (x y : N.F) (m : Map N)
      : Type 0 where
    pub first_left : find N k₁ m ≡ some (record { tokens = x; updated = now })
    pub second_left : find N k₂ m ≡ some (record { tokens = y; updated = now })
    pub enough : N.geb x (N.of_nat 1) ≡ true
    pub too_few : N.geb y (N.of_nat 1) ≡ false
    pub not_negative : N.geb y (N.of_nat 0) ≡ true
    pub first_within : N.geb (capacity N l₁) x ≡ true
    pub second_within : N.geb (capacity N l₂) y ≡ true
    pub first_u32 : l₁.calls < 2 ^ 32

  some_tokens : (x : N.F) → N.geb x (N.of_nat 1) ≡ true → N.geb x (N.of_nat 0) ≡ true
  some_tokens x h = N.geb_trans x (N.of_nat 1) (N.of_nat 0) h (ground (arith, N.geb_exact 1 0))

  refill_still :
      (l : Limit) (now : ℕ) (x : N.F)
      → N.geb x (N.of_nat 0) ≡ true
      → N.geb (capacity N l) x ≡ true
      → refill N l now (record { tokens = x; updated = now }) ≡ x
  unfolding refill
  refill_still l now x h c =
      let same : now - now ≡ 0 = omega arith in
      rw (same, refill)
        (ap (λ z. N.minimum z (capacity N l))
            (N.add-zero x (max l.calls 1) (max l.per_s 1) (omega arith) h)
          ∙ N.minimum_below x (capacity N l) c)

  take_still :
      (k : String) (l : Limit) (now : ℕ) (x : N.F) (m : Map N)
      → find N k m ≡ some (record { tokens = x; updated = now })
      → N.geb x (N.of_nat 0) ≡ true
      → N.geb (capacity N l) x ≡ true
      → take N k l now m ≡ spend N k l now x m
  unfolding make_room level
  take_still k l now x m f h c =
      let room : make_room N k now m ≡ m = ground (arith, f) in
      let left : level N k l now m ≡ x = ground (arith, f, refill_still l now x h c) in
      cc (take-spend N k l now m, room, left)

  refund_still :
      (k : String) (l : Limit) (now : ℕ) (x : N.F) (m : Map N)
      → find N k m ≡ some (record { tokens = N.sub x (N.of_nat 1); updated = now })
      → N.geb x (N.of_nat 1) ≡ true
      → N.geb (capacity N l) x ≡ true
      → l.calls < 2 ^ 32
      → find N k (refund N k l now m) ≡ some (record { tokens = x; updated = now })
  unfolding refund
  refund_still k l now x m f h c u =
      let same : now - now ≡ 0 = omega arith in
      let one_less = N.sub x (N.of_nat 1) in
      let small : N.geb (N.of_nat exact_max) x ≡ true =
        N.geb_trans (N.of_nat exact_max) (capacity N l) x
          (ground (arith, u, N.geb_exact exact_max (max l.calls 1))) c in
      let kept : N.add one_less (N.mul (N.secs (now - now)) (rate N l)) ≡ one_less =
        rw same (
          N.add-zero one_less (max l.calls 1) (max l.per_s 1) (omega arith) (N.geb_zero-sub x h)) in
      let full : N.minimum
            (N.add (N.add one_less (N.mul (N.secs (now - now)) (rate N l))) (N.of_nat 1))
            (capacity N l)
          ≡ x =
        ap (λ z. N.minimum (N.add z (N.of_nat 1)) (capacity N l)) kept
        ∙ ap (λ z. N.minimum z (capacity N l)) (N.add-sub_one x h small)
        ∙ N.minimum_below x (capacity N l) c in
      let b : Bucket N = record { tokens = x; updated = now } in
      ground (arith, f, full, find-store N k k b m, eq_iff k k)

  refused_by_second :
      (id : String) (now : ℕ) (x y : N.F) (t u : Tier) (ts : List Tier) (m : Map N)
      → t.key ≢ u.key
      → u.enforced ≡ true
      → Drained t.key u.key t.limit u.limit now x y m
      → let r = charge N id now [] (t ∷ u ∷ ts) m in
        (r.2 ≡ some (u.message, wait N u.limit y))
        × (find N t.key r.0 ≡ some (record { tokens = x; updated = now }))
        × (find N u.key r.0 ≡ some (record { tokens = y; updated = now }))
  refused_by_second id now x y t u ts m ne e d =
      let b : Bucket N = record { tokens = N.sub x (N.of_nat 1); updated = now } in
      let c : Bucket N = record { tokens = y; updated = now } in
      let m₁ = store N t.key b m in
      let m₂ = store N u.key c m₁ in
      let first =
        take_still t.key t.limit now x m d.first_left (some_tokens x d.enough) d.first_within
        ∙ spend_ok N t.key t.limit now x m d.enough in
      let still : find N u.key m₁ ≡ some c =
        ground (arith, find-store N t.key u.key b m, eq_iff t.key u.key, ne, d.second_left) in
      let second =
        take_still u.key u.limit now y m₁ still d.not_negative d.second_within
        ∙ spend_err N u.key u.limit now y m₁ d.too_few in
      let kept : find N t.key m₂ ≡ some b = ground (
        arith,
        find-store N u.key t.key c m₁,
        find-store N t.key t.key b m,
        eq_iff t.key u.key,
        eq_iff u.key t.key,
        eq_iff t.key t.key,
        ne,
      ) in
      let all =
        charge_ok id now [] t (u ∷ ts) m m₁ first
        ∙ charge_refused id now ((t.key, t.limit) ∷ []) u ts m₁ m₂ (wait N u.limit y) second e in
      (
        ap (λ r. r.2) all,
        ap (λ r. find N t.key r.0) all
            ∙ refund_still t.key t.limit now x m₂ kept d.enough d.first_within d.first_u32,
        ap (λ r. find N u.key r.0) all
            ∙ find-refund_ne N t.key u.key t.limit now m₂ ne
            ∙ ground (arith, find-store N u.key u.key c m₁, eq_iff u.key u.key),
      )

  keys_differ : (v w : String) → ("caller:" <> v) ≢ ("tool:" <> w)
  unfolding starts_with
  keys_differ v w e =
      elim (starts_with_comparable ("tool:" <> w) "caller:" "tool:"
        (subst (λ s. starts_with s "caller:" ≡ true) e (starts_with-append "caller:" v))
        (starts_with-append "tool:" w)) [ inl h ↦ absurd (cc (h)) | inr h ↦ absurd (cc (h)) ]

  -- A call that the limit of its tool refuses takes nothing from the budget of its caller, whatever limit an
  -- overlay sets besides: both buckets hold after it what they held before, fractions of tokens too. (For
  -- buckets that were both counted at the instant of the call, the caller's with a token or more.)
  pub rate_limited_refund :
      (l₁ l₂ : Limit) (o : Option Limit) (caller : Caller) (id : String) (now : ℕ) (x y : N.F)
      (m : Map N)
      → Drained
          ("caller:" <> rate_key caller)
          ("tool:" <> (rate_key caller <> (":" <> id)))
          l₁
          l₂
          now
          x
          y
          m
      → let rl : RateLimits = record {
        per_caller = some l₁;
        per_tool = some l₂;
        report_only = false;
      } in
        let r = rate_limited N rl caller id o now m in
        ((message : String) × (s : ℕ) × (r.2 ≡ some (message, s)))
        × (find N ("caller:" <> rate_key caller) r.0 ≡ find N ("caller:" <> rate_key caller) m)
        × (find N ("tool:" <> (rate_key caller <> (":" <> id))) r.0
            ≡ find N ("tool:" <> (rate_key caller <> (":" <> id))) m)
  unfolding rate_limited tiers caller_tier tool_tier
  rate_limited_refund l₁ l₂ o caller id now x y m d =
      let who = rate_key caller in
      let ts =
        tiers (record { per_caller = some l₁; per_tool = some l₂; report_only = false }) caller id
          o in
      let (refused, first, second) =
        refused_by_second id now x y (head_of ts) (head_of (tail_of ts))
          (listed (overlay_tier id o)) m (keys_differ who (who <> (":" <> id))) refl d in
      ((_, _, refused), first ∙ sym d.first_left, second ∙ sym d.second_left)
    where
      head_of : List Tier → Tier
      head_of [] = record { key = ""; limit = l₁; message = ""; enforced = false }
      head_of (t ∷ ts) = t

      tail_of : List Tier → List Tier
      tail_of [] = []
      tail_of (t ∷ ts) = ts
