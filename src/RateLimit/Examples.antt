-- ===== src/RateLimit/Examples.antt =====
-- src/surface/ratelimit.rs and src/surface/dispatch.rs: the theorems on rate limits at concrete inputs. The
-- numbers are whole here: the laws of `Floats` can be met.
use min_mcp.Prelude.{
  ℕ, ◌+◌, ◌-◌, ◌*◌, ◌/◌, ◌≤◌, String, ◌≡◌, ◌≢◌, refl, min, true, false, [], ◌∷◌, none, some, arith,
  leb, All,
}
use min_mcp.Visibility.{Caller}
use min_mcp.RateLimit.{
  Floats, Limit, RateLimits, ok, err, is_taken, Map, find, take, second, rate_limited, make_room,
  refill, spend,
}
use min_mcp.RateLimit.Bounds.{level, take-err}
use min_mcp.RateLimit.Burst.{attempts, burst_then_refuse}
use min_mcp.RateLimit.Tiers.{Drained, rate_limited_refund}

pub min_below : (n x : ℕ) → leb (min x n) n ≡ true
min_below n x = ground arith

pub sub_below : (c t : ℕ) → leb t c ≡ true → leb (t - 1) c ≡ true
sub_below c t h = ground arith

pub none_below : (x : ℕ) → leb 0 x ≡ true
none_below x = ground arith

pub above_trans : (a b c : ℕ) → leb b a ≡ true → leb c b ≡ true → leb c a ≡ true
above_trans a b c h k = ground arith

pub min_left : (x c : ℕ) → leb x c ≡ true → min x c ≡ x
min_left x c h = ground arith

pub one_back : (x : ℕ) → leb 1 x ≡ true → (x - 1) + 1 ≡ x
one_back x h = ground arith

abbrev pub whole : Floats
whole = record {
  F = ℕ;
  of_nat = λ n. n;
  secs = λ d. d / second;
  add = λ x y. x + y;
  sub = λ x y. x - y;
  mul = λ x y. x * y;
  div = λ x y. x / y;
  minimum = min;
  geb = λ x y. leb y x;
  ceil = λ x. x;
  geb-minimum = min_below;
  geb-sub = sub_below;
  add-mul_zero = λ n a b h. omega arith;
  minimum_exact = λ m n h k. refl;
  add_exact = λ n h. refl;
  sub_exact = λ n h. omega arith;
  geb_exact = λ m n h k. refl;
  geb_trans = above_trans;
  minimum_below = min_left;
  add-zero = λ x a b h g. omega arith;
  geb_zero-sub = λ x h. none_below (x - 1);
  add-sub_one = λ x h g. one_back x h;
}

scaled_min : (m n : ℕ) → min (1_000 * m) (1_000 * n) ≡ 1_000 * min m n
scaled_min m n = ground arith

scaled_leb : (m n : ℕ) → leb (1_000 * n) (1_000 * m) ≡ leb n m
scaled_leb m n = ground arith

less_one : (c t : ℕ) → leb t c ≡ true → leb (t - 1_000) c ≡ true
less_one c t h = ground arith

one_put_back : (x : ℕ) → leb 1_000 x ≡ true → (x - 1_000) + 1_000 ≡ x
one_put_back x h = ground arith

min_of_scaled : (n x : ℕ) → leb (min x (1_000 * n)) (1_000 * n) ≡ true
min_of_scaled n x = min_below (1_000 * n) x

-- Thousandths of tokens.
abbrev milli : Floats
milli = record {
  F = ℕ;
  of_nat = λ n. 1_000 * n;
  secs = λ d. 1_000 * d / second;
  add = λ x y. x + y;
  sub = λ x y. x - y;
  mul = λ x y. x * y / 1_000;
  div = λ x y. 1_000 * x / y;
  minimum = min;
  geb = λ x y. leb y x;
  ceil = λ x. (x + 999) / 1_000;
  geb-minimum = min_of_scaled;
  geb-sub = less_one;
  add-mul_zero = λ n a b h. omega arith;
  minimum_exact = λ m n h k. scaled_min m n;
  add_exact = λ n h. omega arith;
  sub_exact = λ n h. omega arith;
  geb_exact = λ m n h k. scaled_leb m n;
  geb_trans = above_trans;
  minimum_below = min_left;
  add-zero = λ x a b h g. omega arith;
  geb_zero-sub = λ x h. none_below (x - 1_000);
  add-sub_one = λ x h g. one_put_back x h;
}

abbrev now : ℕ
now = 5_000 * second

abbrev three : Limit
three = record { calls = 3; per_s = 60 }

abbrev one : Limit
one = record { calls = 1; per_s = 60 }

abbrev alice : Caller
alice = record { scopes = []; subject = some "alice"; origin = none }

abbrev buckets : Map whole
buckets =
    ("caller:alice", record { tokens = 2; updated = now })
    ∷ ("tool:alice:stripe.PostCharges", record { tokens = 0; updated = now })
    ∷ []

abbrev fractions : Map milli
fractions =
    ("caller:alice", record { tokens = 2_300; updated = now })
    ∷ ("tool:alice:stripe.PostCharges", record { tokens = 500; updated = now })
    ∷ []

drained :
    Drained milli "caller:alice" "tool:alice:stripe.PostCharges" three one now 2_300 500 fractions
drained = record {
  first_left = refl;
  second_left = refl;
  enough = refl;
  too_few = refl;
  not_negative = refl;
  first_within = refl;
  second_within = refl;
  first_u32 = omega arith;
}

rate_limited_refund_example :
    let rl : RateLimits = record {
      per_caller = some three;
      per_tool = some one;
      report_only = false;
    } in
    let r = rate_limited milli rl alice "stripe.PostCharges" (some one) now fractions in
    ((message : String) × (s : ℕ) × (r.2 ≡ some (message, s)))
    × (find milli "caller:alice" r.0 ≡ find milli "caller:alice" fractions)
    × (find milli "tool:alice:stripe.PostCharges" r.0
        ≡ find milli "tool:alice:stripe.PostCharges" fractions)
rate_limited_refund_example =
    rate_limited_refund milli three one (some one) alice "stripe.PostCharges" now 2_300 500
      fractions drained

burst_then_refuse_example :
    All (λ t. t ≡ ok) (attempts whole "caller:bob" three now 3 buckets).1
    × (is_taken
          (take whole "caller:bob" three now (attempts whole "caller:bob" three now 3 buckets).0).1
        ≡ false)
burst_then_refuse_example =
    burst_then_refuse whole "caller:bob" three now buckets (omega arith) refl (omega arith)

abbrev bob_key : String
bob_key = "caller:bob"

bob_not_alice : bob_key ≢ "caller:alice"
bob_not_alice e = absurd (cc (e))

refused : (take whole "tool:alice:stripe.PostCharges" one now buckets).1 ≡ err 1
unfolding take make_room refill spend
refused = refl

take-err_example :
    (1 ≤ 1)
    × (leb 1 (
          level whole "tool:alice:stripe.PostCharges" one now
            (make_room whole "tool:alice:stripe.PostCharges" now buckets))
        ≡ false)
take-err_example = take-err whole "tool:alice:stripe.PostCharges" one now buckets 1 refused
