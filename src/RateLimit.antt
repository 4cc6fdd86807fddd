-- ===== src/RateLimit.antt =====
-- src/surface/ratelimit.rs: the token buckets, and src/surface/dispatch.rs, `rate_limited`: the tiers
-- a call is charged to.
-- An `Instant` is a number of nanoseconds. The tokens are `f64`s, whose arithmetic is the record
-- `Floats` with the laws of IEEE 754 that are used; a `HashMap` is the list of its entries.
pub mod Examples
pub mod Bounds
pub mod Burst
pub mod Tiers
use min_mcp.Prelude.{
  ℕ, ◌+◌, ◌-◌, ◌*◌, ◌/◌, ◌^◌, ◌≤◌, ◌<◌, String, ◌<>◌, ◌≡◌, min, max, Bool, true, false, not, ◌&&◌,
  ◌||◌, List, [], ◌∷◌, ◌++◌, Option, none, some, ltb, leb, ◌=?◌, if◌then◌else◌, length, show,
}
use min_mcp.Visibility.{Caller, rate_key}

-- The integers up to here are exact.
abbrev pub exact_max : ℕ
exact_max = 2 ^ 53

pub record Floats : Type 1 where
  pub F : Type 0
  pub of_nat : ℕ → F
  -- `Duration::as_secs_f64`, of nanoseconds
  pub secs : ℕ → F
  pub add : F → F → F
  pub sub : F → F → F
  pub mul : F → F → F
  pub div : F → F → F
  pub minimum : F → F → F
  pub geb : F → F → Bool
  -- `x.ceil() as u64`
  pub ceil : F → ℕ
  pub geb-minimum : (n : ℕ) (x : F) → geb (of_nat n) (minimum x (of_nat n)) ≡ true
  pub geb-sub : (c t : F) → geb c t ≡ true → geb c (sub t (of_nat 1)) ≡ true
  pub add-mul_zero :
      (n a b : ℕ) → 0 < b → add (of_nat n) (mul (secs 0) (div (of_nat a) (of_nat b))) ≡ of_nat n
  pub minimum_exact :
      (m n : ℕ) → m ≤ exact_max → n ≤ exact_max → minimum (of_nat m) (of_nat n) ≡ of_nat (min m n)
  pub add_exact : (n : ℕ) → n < exact_max → add (of_nat n) (of_nat 1) ≡ of_nat (n + 1)
  pub sub_exact : (n : ℕ) → n < exact_max → sub (of_nat (n + 1)) (of_nat 1) ≡ of_nat n
  pub geb_exact : (m n : ℕ) → m ≤ exact_max → n ≤ exact_max → geb (of_nat m) (of_nat n) ≡ leb n m
  pub geb_trans : (a b c : F) → geb a b ≡ true → geb b c ≡ true → geb a c ≡ true
  pub minimum_below : (x c : F) → geb c x ≡ true → minimum x c ≡ x
  -- No time adds nothing to a number that is not negative; the two zeros are one number.
  pub add-zero :
      (x : F) (a b : ℕ)
      → 0 < b
      → geb x (of_nat 0) ≡ true
      → add x (mul (secs 0) (div (of_nat a) (of_nat b))) ≡ x
  pub geb_zero-sub : (x : F) → geb x (of_nat 1) ≡ true → geb (sub x (of_nat 1)) (of_nat 0) ≡ true
  -- Taking 1 from a number that is at least 1 and not above 2^53 is exact, and so is putting it back.
  pub add-sub_one :
      (x : F)
      → geb x (of_nat 1) ≡ true
      → geb (of_nat exact_max) x ≡ true
      → add (sub x (of_nat 1)) (of_nat 1) ≡ x

abbrev pub second : ℕ
second = 1_000_000_000

abbrev pub max_buckets : ℕ
max_buckets = 10_000

abbrev pub idle_evict_s : ℕ
idle_evict_s = 600

-- `Limit` of config.rs: `calls` is a u32, `per_s` a u64.
pub record Limit : Type 0 where
  pub calls : ℕ
  pub per_s : ℕ

-- `RateLimits` of config.rs
pub record RateLimits : Type 0 where
  pub per_caller : Option Limit
  pub per_tool : Option Limit
  pub report_only : Bool

-- `Ok(())`, or `Err` with the seconds until the next call would fit
pub data Taken : Type 0 where
  ok : Taken
  err : ℕ → Taken

abbrev pub is_taken : Taken → Bool
is_taken ok = true
is_taken (err s) = false

pub record Tier : Type 0 where
  pub key : String
  pub limit : Limit
  pub message : String
  pub enforced : Bool

-- The event `would_rate_limit`
pub record WouldLimit : Type 0 where
  pub tool_id : String
  pub limit : String
  pub retry_in_s : ℕ

abbrev pub listed : Option Tier → List Tier
listed none = []
listed (some t) = t ∷ []

caller_tier : Bool → String → Option Limit → Option Tier
caller_tier enforce who none = none
caller_tier enforce who (some l) = some (record {
  key = "caller:" <> who;
  limit = l;
  message =
      "caller " <> who <> " exceeded " <> show l.calls <> " calls per " <> show l.per_s <> "s";
  enforced = enforce;
})

tool_tier : Bool → String → String → Option Limit → Option Tier
tool_tier enforce who tool_id none = none
tool_tier enforce who tool_id (some l) = some (record {
  key = "tool:" <> who <> ":" <> tool_id;
  limit = l;
  message =
      "caller "
      <> who
      <> " exceeded "
      <> show l.calls
      <> " calls per "
      <> show l.per_s
      <> "s on "
      <> tool_id;
  enforced = enforce;
})

overlay_tier : String → Option Limit → Option Tier
overlay_tier tool_id none = none
overlay_tier tool_id (some l) = some (record {
  key = "overlay:" <> tool_id;
  limit = l;
  message =
      tool_id
      <> " is limited to "
      <> show l.calls
      <> " calls per "
      <> show l.per_s
      <> "s across all callers";
  enforced = true;
})

-- The tiers of a call; the last argument is the overlay's `rate_limit`.
pub tiers : RateLimits → Caller → String → Option Limit → List Tier
unfolding caller_tier tool_tier overlay_tier
tiers rl caller tool_id overlay =
    let who = rate_key caller in
    listed (caller_tier (not rl.report_only) who rl.per_caller)
    ++ listed (tool_tier (not rl.report_only) who tool_id rl.per_tool)
    ++ listed (overlay_tier tool_id overlay)

module _ (N : Floats) where
  pub record Bucket : Type 0 where
    pub tokens : N.F
    pub updated : ℕ

  abbrev pub Map : Type 0
  Map = List (String × Bucket)

  abbrev pub find : String → Map → Option Bucket
  find k [] = none
  find k ((j, b) ∷ m) = if j =? k then some b else find k m

  abbrev pub contains_key : String → Map → Bool
  contains_key k m = elim (find k m) [ none ↦ false | some b ↦ true ]

  -- Writes through the reference that `entry(k).or_insert(..)` or `get_mut(k)` gives.
  abbrev pub store : String → Bucket → Map → Map
  store k b [] = (k, b) ∷ []
  store k b ((j, c) ∷ m) = if j =? k then (j, b) ∷ m else (j, c) ∷ store k b m

  -- `map.retain(..)` of the buckets that are not idle
  abbrev pub retain : ℕ → Map → Map
  retain now [] = []
  retain now ((j, b) ∷ m) =
      if ltb ((now - b.updated) / second) idle_evict_s then (j, b) ∷ retain now m else retain now m

  abbrev pub capacity : Limit → N.F
  capacity l = N.of_nat (max l.calls 1)

  abbrev pub rate : Limit → N.F
  rate l = N.div (capacity l) (N.of_nat (max l.per_s 1))

  -- Room for a key that is new.
  pub make_room : String → ℕ → Map → Map
  make_room key now m =
      if leb max_buckets (length m) && not (contains_key key m)
      then (let kept = retain now m in if leb max_buckets (length kept) then [] else kept)
      else m

  pub refill : Limit → ℕ → Bucket → N.F
  refill limit now b =
      N.minimum (N.add b.tokens (N.mul (N.secs (now - b.updated)) (rate limit))) (capacity limit)

  pub spend : String → Limit → ℕ → N.F → Map → Map × Taken
  spend key limit now t m =
      if N.geb t (N.of_nat 1)
      then (store key (record { tokens = N.sub t (N.of_nat 1); updated = now }) m, ok)
      else (
        store key (record { tokens = t; updated = now }) m,
        err (max (N.ceil (N.div (N.sub (N.of_nat 1) t) (rate limit))) 1),
      )

  pub take : String → Limit → ℕ → Map → Map × Taken
  unfolding make_room refill spend
  take key limit now m =
      let m' = make_room key now m in
      elim (find key m') [
        | none ↦
            spend key limit now
              (refill limit now (record { tokens = capacity limit; updated = now })) m'
        | some b ↦ spend key limit now (refill limit now b) m'
      ]

  pub refund : String → Limit → ℕ → Map → Map
  refund key limit now m = elim (find key m) [
    | none ↦ m
    | some b ↦
        store key
          (record {
            tokens =
                N.minimum
                  (N.add (N.add b.tokens (N.mul (N.secs (now - b.updated)) (rate limit)))
                    (N.of_nat 1))
                  (capacity limit);
            updated = now;
          })
          m
  ]

  abbrev pub refund_all : List (String × Limit) → ℕ → Map → Map
  refund_all [] now m = m
  refund_all ((k, l) ∷ charged) now m = refund_all charged now (refund k l now m)

  -- The loop over the tiers: the buckets after it, what it logs, and the refusal if there is one.
  pub charge :
      String
      → ℕ
      → List (String × Limit)
      → List Tier
      → Map
      → Map × List WouldLimit × Option (String × ℕ)
  unfolding take refund
  charge tool_id now charged [] m = (m, [], none)
  charge tool_id now charged (t ∷ ts) m =
      let (m', taken) = take t.key t.limit now m in
      let passed = charge tool_id now (charged ++ ((t.key, t.limit) ∷ [])) ts m' in
      let (m'', log, refusal) = charge tool_id now charged ts m' in
      elim taken [
        | ok ↦ passed
        | err retry_in_s ↦
            if not t.enforced
            then (
              m'',
              record { tool_id = tool_id; limit = t.message; retry_in_s = retry_in_s } ∷ log,
              refusal,
            )
            else (refund_all charged now m', [], some (t.message, retry_in_s))
      ]

  unfoldable pub rate_limited :
      RateLimits
      → Caller
      → String
      → Option Limit
      → ℕ
      → Map
      → Map × List WouldLimit × Option (String × ℕ)
  unfolding charge tiers
  rate_limited rl caller tool_id overlay now m =
      charge tool_id now [] (tiers rl caller tool_id overlay) m
