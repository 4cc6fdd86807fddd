-- ===== src/RateLimit/Burst.antt =====
-- src/surface/ratelimit.rs: calls at one instant, and a call that is put back.
use mathlib.Core.Path.{subst}
use min_mcp.Prelude.{
  All, ℕ, suc, zero, ◌+◌, ◌-◌, ◌≤◌, ◌<◌, ◌^◌, String, ◌≡◌, ◌≢◌, sym, ap, inl, inr, max, true, false,
  List, [], ◌∷◌, none, some, arith, length, Option-cases, eq_iff,
}
use min_mcp.RateLimit.{
  Floats, Limit, Taken, ok, err, is_taken, Bucket, Map, find, store, capacity, rate, refill,
  make_room, take, refund, max_buckets,
}
use min_mcp.RateLimit.Bounds.{level, take-spend, spend_ok, spend_err, find-store, wait}

module _ (N : Floats) where
  -- The burst of a limit.
  abbrev pub burst : Limit → ℕ
  burst l = max l.calls 1

  -- A key whose next call finds `n` whole tokens at the time `now`, and whose call needs no room made.
  pub record Holds (k : String) (l : Limit) (now n : ℕ) (m : Map N) : Type 0 where
    pub no_room : make_room N k now m ≡ m
    pub tokens_left : level N k l now m ≡ N.of_nat n
    pub within : n ≤ burst l

  refill_exact :
      (l : Limit) (now n : ℕ)
      → n ≤ burst l
      → l.calls < 2 ^ 32
      → refill N l now (record { tokens = N.of_nat n; updated = now }) ≡ N.of_nat n
  unfolding refill
  refill_exact l now n h c =
      ground
        (arith, N.add-mul_zero n (max l.calls 1) (max l.per_s 1), N.minimum_exact n (max l.calls 1))

  -- A key that is new, where there are fewer than 10,000, holds the whole burst.
  pub Holds-new :
      (k : String) (l : Limit) (now : ℕ) (m : Map N)
      → l.calls < 2 ^ 32
      → find N k m ≡ none
      → length m < max_buckets
      → Holds k l now (burst l) m
  unfolding make_room level
  Holds-new k l now m c e f = record {
    no_room = ground arith;
    tokens_left = ground (arith, refill_exact l now (burst l));
    within = ground arith;
  }

  Holds-store :
      (k : String) (l : Limit) (now n : ℕ) (m : Map N)
      → l.calls < 2 ^ 32
      → n ≤ burst l
      → Holds k l now n (store N k (record { tokens = N.of_nat n; updated = now }) m)
  unfolding make_room level
  Holds-store k l now n m c h =
      let b : Bucket N = record { tokens = N.of_nat n; updated = now } in
      record {
        no_room = ground (arith, find-store N k k b m, eq_iff k k);
        tokens_left = ground (arith, find-store N k k b m, eq_iff k k, refill_exact l now n);
        within = h;
      }

  suc_add : (n : ℕ) → N.of_nat (n + 1) ≡ N.of_nat (suc n)
  suc_add n = ap N.of_nat (omega arith)

  -- A call with a token left is admitted and takes one.
  pub take_admits :
      (k : String) (l : Limit) (now n : ℕ) (m : Map N)
      → l.calls < 2 ^ 32
      → Holds k l now (suc n) m
      → take N k l now m ≡ (store N k (record { tokens = N.of_nat n; updated = now }) m, ok)
  take_admits k l now n m c h =
      let enough : N.geb (N.of_nat (suc n)) (N.of_nat 1) ≡ true =
        ground (arith, N.geb_exact (suc n) 1, h.within) in
      let one_less : N.sub (N.of_nat (suc n)) (N.of_nat 1) ≡ N.of_nat n =
        ground (arith, suc_add n, N.sub_exact n, h.within) in
      let own = spend_ok N k l now (N.of_nat (suc n)) m enough in
      cc (take-spend N k l now m, h.no_room, h.tokens_left, own, one_less)

  pub take_refuses_lem :
      (k : String) (l : Limit) (now : ℕ) (m : Map N)
      → Holds k l now 0 m
      → take N k l now m
        ≡ (store N k (record { tokens = N.of_nat 0; updated = now }) m, err (wait N l (N.of_nat 0)))
  take_refuses_lem k l now m h =
      let empty : N.geb (N.of_nat 0) (N.of_nat 1) ≡ false = ground (arith, N.geb_exact 0 1) in
      cc
        (take-spend N k l now m, h.no_room, h.tokens_left, spend_err N k l now (N.of_nat 0) m empty)

  -- A call with none left is refused.
  take_refuses :
      (k : String) (l : Limit) (now : ℕ) (m : Map N)
      → Holds k l now 0 m
      → is_taken (take N k l now m).1 ≡ false
  take_refuses k l now m h = ap (λ x. is_taken x.1) (take_refuses_lem k l now m h)

  -- `n` calls at one instant: the buckets after them, and the answers.
  pub attempts : String → Limit → ℕ → ℕ → Map N → Map N × List Taken
  attempts k l now zero m = (m, [])
  attempts k l now (suc n) m =
      let (m', t) = take N k l now m in let (m'', ts) = attempts k l now n m' in (m'', t ∷ ts)

  attempts_lem :
      (k : String) (l : Limit) (now n : ℕ) (m : Map N)
      → l.calls < 2 ^ 32
      → Holds k l now n m
      → All (λ t. t ≡ ok) (attempts k l now n m).1
        × (is_taken (take N k l now (attempts k l now n m).0).1 ≡ false)
  unfolding attempts
  attempts_lem k l now zero m c h = (tt, take_refuses k l now m h)
  attempts_lem k l now (suc n) m c h =
      let e = take_admits k l now n m c h in
      let rest = attempts_lem k l now n (take N k l now m).0 c (
        subst (Holds k l now n) (sym (ap (λ x. x.0) e))
          (Holds-store k l now n m c (ground (arith, h.within)))) in
      ((ap (λ x. x.1) e, rest.0), rest.1)

  -- At one instant a key that is new is admitted as many calls as the limit says, each of them, and the
  -- next one is refused. (Where there are fewer than 10,000 buckets.)
  pub burst_then_refuse :
      (k : String) (l : Limit) (now : ℕ) (m : Map N)
      → l.calls < 2 ^ 32
      → find N k m ≡ none
      → length m < max_buckets
      → All (λ t. t ≡ ok) (attempts k l now (burst l) m).1
        × (is_taken (take N k l now (attempts k l now (burst l) m).0).1 ≡ false)
  burst_then_refuse k l now m c f few =
      attempts_lem k l now (burst l) m c (Holds-new k l now m c f few)

  -- A key whose bucket has whole tokens, last counted now.
  pub Holds-found :
      (k : String) (l : Limit) (now n : ℕ) (m : Map N)
      → l.calls < 2 ^ 32
      → n ≤ burst l
      → find N k m ≡ some (record { tokens = N.of_nat n; updated = now })
      → Holds k l now n m
  unfolding make_room level
  Holds-found k l now n m c h f = record {
    no_room = ground (arith, f);
    tokens_left = ground (arith, f, refill_exact l now n);
    within = h;
  }

  pub refund_lem :
      (k : String) (l : Limit) (now n : ℕ) (m : Map N)
      → find N k m ≡ some (record { tokens = N.of_nat n; updated = now })
      → N.minimum
          (N.add (N.add (N.of_nat n) (N.mul (N.secs (now - now)) (rate N l))) (N.of_nat 1))
          (capacity N l)
        ≡ N.of_nat (suc n)
      → find N k (refund N k l now m) ≡ some (record { tokens = N.of_nat (suc n); updated = now })
  unfolding refund
  refund_lem k l now n m f full =
      let b : Bucket N = record { tokens = N.of_nat (suc n); updated = now } in
      ground (arith, f, full, find-store N k k b m, eq_iff k k)

  pub full_lem :
      (l : Limit) (now n : ℕ)
      → l.calls < 2 ^ 32
      → suc n ≤ burst l
      → N.minimum
          (N.add (N.add (N.of_nat n) (N.mul (N.secs (now - now)) (rate N l))) (N.of_nat 1))
          (capacity N l)
        ≡ N.of_nat (suc n)
  full_lem l now n c h = ground (
    arith,
    suc_add n,
    N.add-mul_zero n (max l.calls 1) (max l.per_s 1),
    N.add_exact n,
    N.minimum_exact (suc n) (max l.calls 1),
  )

  pub find-refund_ne :
      (k j : String) (l : Limit) (now : ℕ) (m : Map N)
      → k ≢ j
      → find N j (refund N k l now m) ≡ find N j m
  unfolding refund
  find-refund_ne k j l now m ne = elim (Option-cases (find N k m)) [
    | inl e ↦ ground (arith, e)
    | inr (b, e) ↦
        let c : Bucket N = record {
          tokens =
              N.minimum
                (N.add (N.add b.tokens (N.mul (N.secs (now - b.updated)) (rate N l))) (N.of_nat 1))
                (capacity N l);
          updated = now;
        } in
        ground (arith, e, find-store N k j c m, eq_iff k j, ne)
  ]

  -- Putting a call back undoes it: at the same instant the key holds the tokens it held before.
  pub refund-take :
      (k : String) (l : Limit) (now n : ℕ) (m : Map N)
      → l.calls < 2 ^ 32
      → Holds k l now (suc n) m
      → find N k (refund N k l now (take N k l now m).0)
        ≡ some (record { tokens = N.of_nat (suc n); updated = now })
  unfolding refund
  refund-take k l now n m c h =
      let e = ap (λ x. x.0) (take_admits k l now n m c h) in
      let b : Bucket N = record { tokens = N.of_nat n; updated = now } in
      let held = find-store N k k b m in
      let mine : find N k (take N k l now m).0 ≡ some b = ground (arith, e, held, eq_iff k k) in
      refund_lem k l now n (take N k l now m).0 mine (full_lem l now n c h.within)
