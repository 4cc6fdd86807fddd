-- ===== src/RateLimit/Bounds.antt =====
-- src/surface/ratelimit.rs: the size of the map, the cap on tokens, and what a call leaves alone.
use min_mcp.Prelude.{
  sym, ap, ◌∙◌, unwrap_or, ℕ, ◌+◌, ◌-◌, ◌*◌, ◌/◌, ◌≤◌, ◌<◌, String, ◌≡◌, ◌≢◌, refl, inl, inr, ◌⊎◌,
  max, Bool, true, false, [], ◌∷◌, Option, some, arith, ltb, ◌=?◌, if◌then◌else◌, length,
  Bool-cases, Option-cases, eq_iff,
}
use mathlib.Core.Option.{some_inj}
use min_mcp.RateLimit.{
  Floats, Limit, ok, err, Bucket, Map, find, contains_key, store, retain, capacity, rate, refill,
  make_room, spend, take, max_buckets, idle_evict_s, second,
}

module _ (N : Floats) where
  pub find-store :
      (k j : String) (b : Bucket N) (m : Map N)
      → find N j (store N k b m) ≡ (if k =? j then some b else find N j m)
  find-store k j b [] = refl
  find-store k j b ((i, c) ∷ m) =
      ground (arith, eq_iff k j, eq_iff i k, eq_iff i j, find-store k j b m)

  length-store :
      (k : String) (b : Bucket N) (m : Map N)
      → length (store N k b m) ≡ (if contains_key N k m then length m else length m + 1)
  length-store k b [] = refl
  length-store k b ((i, c) ∷ m) = ground (arith, length-store k b m)

  length-retain : (now : ℕ) (m : Map N) → length (retain N now m) ≤ length m
  length-retain now [] = omega arith
  length-retain now ((i, c) ∷ m) = ground (arith, length-retain now m)

  length-make_room :
      (k : String) (now : ℕ) (m : Map N)
      → length m ≤ max_buckets
      → (if contains_key N k (make_room N k now m)
          then length (make_room N k now m)
          else length (make_room N k now m) + 1)
        ≤ max_buckets
  unfolding make_room
  length-make_room k now m h = ground (arith, length-retain now m)

  -- The tokens there are before a call is spent: a key that is not in the map starts full.
  unfoldable pub level : String → Limit → ℕ → Map N → N.F
  level k l now m =
      refill N l now (unwrap_or (find N k m) (record { tokens = capacity N l; updated = now }))

  pub take-spend :
      (k : String) (l : Limit) (now : ℕ) (m : Map N)
      → take N k l now m
        ≡ spend N k l now (level k l now (make_room N k now m)) (make_room N k now m)
  unfolding take level
  take-spend k l now m = elim (Option-cases (find N k (make_room N k now m))) [
    | inl e ↦ ground (arith, e)
    | inr (b, e) ↦ ground (arith, e)
  ]

  -- What a call does to the bucket it is charged to.
  spent : Limit → ℕ → N.F → Bucket N
  spent l now t =
      if N.geb t (N.of_nat 1)
      then record { tokens = N.sub t (N.of_nat 1); updated = now }
      else record { tokens = t; updated = now }

  spend-store :
      (k : String) (l : Limit) (now : ℕ) (t : N.F) (m : Map N)
      → (spend N k l now t m).0 ≡ store N k (spent l now t) m
  unfolding spend spent
  spend-store k l now t m = elim (Bool-cases (N.geb t (N.of_nat 1))) [
    | inl e ↦ cc (e)
    | inr e ↦ cc (e)
  ]

  -- A call that is charged never takes the map over 10,000 buckets.
  length-take :
      (k : String) (l : Limit) (now : ℕ) (m : Map N)
      → length m ≤ max_buckets
      → length (take N k l now m).0 ≤ max_buckets
  length-take k l now m h =
      let room = make_room N k now m in
      let t = level k l now room in
      ground (
        arith,
        length-make_room k now m h,
        take-spend k l now m,
        spend-store k l now t room,
        length-store k (spent l now t) room,
      )

  -- A call under one key leaves the bucket of every other key as it is, as long as no room has to be
  -- made: the key has a bucket, or there are fewer than 10,000.
  pub find-take_ne :
      (k j : String) (l : Limit) (now : ℕ) (m : Map N)
      → k ≢ j
      → (contains_key N k m ≡ true) ⊎ (length m < max_buckets)
      → find N j (take N k l now m).0 ≡ find N j m
  unfolding make_room
  find-take_ne k j l now m n h =
      let room = make_room N k now m in
      let t = level k l now room in
      let same : make_room N k now m ≡ m = elim h [ inl c ↦ ground arith | inr s ↦ ground arith ] in
      ground (
        arith,
        same,
        take-spend k l now m,
        spend-store k l now t room,
        find-store k j (spent l now t) room,
        eq_iff k j,
        n,
      )

  holds :
      (i j : String) (c b : Bucket N) (m : Map N)
      → i =? j ≡ true
      → find N j ((i, c) ∷ m) ≡ some b
      → some c ≡ some b
  holds i j c b m e h = ground arith

  passes :
      (i j : String) (c b : Bucket N) (m : Map N)
      → i =? j ≡ false
      → find N j ((i, c) ∷ m) ≡ some b
      → find N j m ≡ some b
  passes i j c b m e h = ground arith

  recent :
      (at now : ℕ)
      → now - at < idle_evict_s * second
      → ltb ((now - at) / second) idle_evict_s ≡ true
  recent at now f = ground arith

  find-retain :
      (j : String) (b : Bucket N) (now : ℕ) (m : Map N)
      → find N j m ≡ some b
      → now - b.updated < idle_evict_s * second
      → find N j (retain N now m) ≡ some b
  find-retain j b now [] h f = absurd (cc)
  find-retain j b now ((i, c) ∷ m) h f = elim (Bool-cases (i =? j)) [
    | inl e ↦ ground (arith, some_inj.0 (holds i j c b m e h), recent c.updated now)
    | inr e ↦ ground (arith, find-retain j b now m (passes i j c b m e h) f)
  ]

  -- Where room has to be made, a bucket used in the last 600 seconds is kept, if dropping the idle ones
  -- makes enough.
  find-take_recent :
      (k j : String) (l : Limit) (now : ℕ) (m : Map N) (b : Bucket N)
      → k ≢ j
      → find N j m ≡ some b
      → now - b.updated < idle_evict_s * second
      → length (retain N now m) < max_buckets
      → find N j (take N k l now m).0 ≡ some b
  unfolding make_room
  find-take_recent k j l now m b n h f few =
      let room = make_room N k now m in
      let t = level k l now room in
      ground (
        arith,
        find-retain j b now m h f,
        take-spend k l now m,
        spend-store k l now t room,
        find-store k j (spent l now t) room,
        eq_iff k j,
        n,
      )

  -- What the bucket of a call holds after it, admitted or not: no more than the burst, counted from now.
  pub record Capped (l : Limit) (now : ℕ) (found : Option (Bucket N)) : Type 0 where
    pub bucket : Bucket N
    pub is_found : found ≡ some bucket
    pub capped : N.geb (capacity N l) bucket.tokens ≡ true
    pub counted : bucket.updated ≡ now

  spent_capped :
      (l : Limit) (now : ℕ) (t : N.F)
      → N.geb (capacity N l) t ≡ true
      → (N.geb (capacity N l) (spent l now t).tokens ≡ true) × ((spent l now t).updated ≡ now)
  unfolding spent
  spent_capped l now t h = capped_by (N.geb t (N.of_nat 1))
    where
      capped_by :
          (c : Bool)
          → let b : Bucket N =
              if c
              then record { tokens = N.sub t (N.of_nat 1); updated = now }
              else record { tokens = t; updated = now } in
            (N.geb (capacity N l) b.tokens ≡ true) × (b.updated ≡ now)
      capped_by true = (N.geb-sub (capacity N l) t h, refl)
      capped_by false = (h, refl)

  -- After a call, admitted or refused, its key has a bucket with the time of the call and no more tokens
  -- than the limit's burst, however long the key was idle.
  pub take-Capped :
      (k : String) (l : Limit) (now : ℕ) (m : Map N) → Capped l now (find N k (take N k l now m).0)
  unfolding refill level
  take-Capped k l now m =
      let room = make_room N k now m in
      let t = level k l now room in
      let c = spent_capped l now t (N.geb-minimum (max l.calls 1) _) in
      record {
        bucket = spent l now t;
        is_found = ground (
          arith,
          take-spend k l now m,
          spend-store k l now t room,
          find-store k k (spent l now t) room,
          eq_iff k k,
        );
        capped = c.0;
        counted = c.1;
      }

  pub wait : Limit → N.F → ℕ
  wait l t = max (N.ceil (N.div (N.sub (N.of_nat 1) t) (rate N l))) 1

  pub spend_ok :
      (k : String) (l : Limit) (now : ℕ) (t : N.F) (m : Map N)
      → N.geb t (N.of_nat 1) ≡ true
      → spend N k l now t m
        ≡ (store N k (record { tokens = N.sub t (N.of_nat 1); updated = now }) m, ok)
  unfolding spend
  spend_ok k l now t m e = cc (e)

  pub spend_err :
      (k : String) (l : Limit) (now : ℕ) (t : N.F) (m : Map N)
      → N.geb t (N.of_nat 1) ≡ false
      → spend N k l now t m ≡ (store N k (record { tokens = t; updated = now }) m, err (wait l t))
  unfolding spend wait
  spend_err k l now t m e = cc (e)

  -- A refused call is told to wait for at least one second, and a call is refused only when less than one
  -- token is left.
  pub take-err :
      (k : String) (l : Limit) (now : ℕ) (m : Map N) (s : ℕ)
      → (take N k l now m).1 ≡ err s
      → (1 ≤ s) × (N.geb (level k l now (make_room N k now m)) (N.of_nat 1) ≡ false)
  unfolding wait
  take-err k l now m s h =
      let room = make_room N k now m in
      let t = level k l now room in
      elim (Bool-cases (N.geb t (N.of_nat 1))) [
        | inl e ↦ absurd (cc (h, take-spend k l now m, spend_ok k l now t room e))
        | inr e ↦ (
          waits s t (sym (ap (λ x. x.1) (take-spend k l now m ∙ spend_err k l now t room e)) ∙ h),
          e,
        )
      ]
    where
      waits : (s : ℕ) (t : N.F) → err (wait l t) ≡ err s → 1 ≤ s
      waits s t h = ground arith
