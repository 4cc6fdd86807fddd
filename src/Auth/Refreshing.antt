-- ===== src/Auth/Refreshing.antt =====
-- src/auth.rs: how often a key set is fetched, and which keys a token is checked with.
use min_mcp.Prelude.{
  ℕ, suc, ◌-◌, ◌*◌, ◌≤◌, ◌≡◌, sym, ap, ◌∙◌, Bool, true, false, String, List, [], ◌∷◌, Option, none,
  some, arith, if◌then◌else◌, unwrap_or, Bool-cases, Option-cases, inl, inr,
}
use min_mcp.Json.{Value}
use min_mcp.Auth.{
  Jwks, ClaimChecks, Validation, rs256, validation, ok, jwks_min_refresh, may_fetch, refresh, aged,
  looked_up, key_of, claims_by_set, verify,
}

-- A request for a refresh: its time, whether it waits, whether another task is fetching, and what the
-- source would give.
pub record Ask (K : Type 0) : Type 0 where
  pub time : ℕ
  pub waits : Bool
  pub is_busy : Bool
  pub gives : Option (List (String × K))

module _ {K : Type 0} where
  -- The requests are in the order of their times, from one time to another.
  abbrev pub InOrder : ℕ → ℕ → List (Ask K) → Type 0
  InOrder from until [] = from ≤ until
  InOrder from until (a ∷ asks) = (from ≤ a.time) × InOrder a.time until asks

  -- How often the source is asked.
  abbrev pub fetches : Jwks K → List (Ask K) → ℕ
  fetches set [] = 0
  fetches set (a ∷ asks) =
      let later = fetches (refresh a.waits a.is_busy a.time a.gives set) asks in
      if may_fetch a.waits a.is_busy a.time set then suc later else later

  order_end : (from until : ℕ) (asks : List (Ask K)) → InOrder from until asks → from ≤ until
  order_end from until [] h = h
  order_end from until (a ∷ asks) (h, hs) = omega (arith, order_end a.time until asks hs)

  keys-refresh :
      (wait busy : Bool) (now : ℕ) (set : Jwks K) → (refresh wait busy now none set).keys ≡ set.keys
  unfolding refresh
  keys-refresh wait busy now set = ground arith

  keys-aged : (busy : Bool) (now : ℕ) (set : Jwks K) → (aged busy now none set).keys ≡ set.keys
  unfolding aged
  keys-aged busy now set = ground (arith, keys-refresh false busy now set)

  keys-looked_up :
      (kid : String) (busy : Bool) (now : ℕ) (set : Jwks K)
      → (looked_up kid busy now none set).keys ≡ set.keys
  unfolding looked_up
  keys-looked_up kid busy now set = elim (Option-cases (key_of kid set.keys)) [
    | inl e ↦ ground (arith, e, keys-refresh true busy now set)
    | inr (k, e) ↦ ground (arith, e)
  ]

  -- Without an answer of the source no key changes.
  kept :
      (kid : String) (busy : Bool) (now : ℕ) (first next : Option (List (String × K)))
      (set : Jwks K)
      → first ≡ none
      → next ≡ none
      → key_of kid set.keys
        ≡ key_of kid (looked_up kid busy now next (aged busy now first set)).keys
  kept kid busy now first next set a b = rw a (
      rw b (
        ap (key_of kid)
          (sym (keys-looked_up kid busy now (aged busy now none set) ∙ keys-aged busy now set))))

  may_fetch-lem :
      (waits busy : Bool) (now at : ℕ) (keys : List (String × K))
      → may_fetch waits busy now (record { keys = keys; attempted_at = some at }) ≡ true
      → jwks_min_refresh ≤ now - at
  unfolding may_fetch
  may_fetch-lem waits busy now at keys h = ground arith

  fetches_from :
      (keys : List (String × K)) (at from until : ℕ) (asks : List (Ask K))
      → at ≤ from
      → InOrder from until asks
      → jwks_min_refresh * fetches (record { keys = keys; attempted_at = some at }) asks
        ≤ until - at
  unfolding refresh
  fetches_from keys at from until [] l h = omega arith
  fetches_from keys at from until (a ∷ asks) l (h, hs) =
      let set : Jwks K = record { keys = keys; attempted_at = some at } in
      elim (Bool-cases (may_fetch a.waits a.is_busy a.time set)) [
        | inl e ↦
            let ih =
              fetches_from (unwrap_or a.gives keys) a.time a.time until asks (omega arith) hs in
            let gap = may_fetch-lem a.waits a.is_busy a.time at keys e in
            let end = order_end a.time until asks hs in rw e (omega (arith, ih, gap, end, l, h))
        | inr e ↦ let ih = fetches_from keys at a.time until asks (omega arith) hs in rw e ih
      ]

  -- However many tokens ask for a refresh, in whatever order they wait or not, the source of the keys is
  -- asked at most once a minute after the attempt before them.
  pub fetches_bound :
      (keys : List (String × K)) (at until : ℕ) (asks : List (Ask K))
      → InOrder at until asks
      → jwks_min_refresh * fetches (record { keys = keys; attempted_at = some at }) asks
        ≤ until - at
  fetches_bound keys at until asks h = fetches_from keys at at until asks (omega arith) h

  module _ (decode : String → K → Validation → Option Value)
      (header : String → Option (Option String)) where
    -- A token that a key set accepts names a key of the set as it is afterwards, is signed with that
    -- key, and passed the configured checks of audience and issuer. Where the source did not answer,
    -- that is a key the set had before.
    pub claims_by_set-ok :
        (token : String) (checks : ClaimChecks) (busy : Bool) (now : ℕ)
        (first next : Option (List (String × K))) (set : Jwks K) (v : Value)
        → (claims_by_set decode header token checks busy now first next set).1 ≡ ok v
        → (kid : String) × (key : K) × (header token ≡ some (some kid))
          × (key_of kid (claims_by_set decode header token checks busy now first next set).0.keys
              ≡ some key)
          × (decode token key (validation rs256 checks) ≡ some v)
          × (first ≡ none → next ≡ none → key_of kid set.keys ≡ some key)
    unfolding claims_by_set verify
    claims_by_set-ok token checks busy now first next set v h = elim (Option-cases (header token)) [
      | inl e ↦ absurd (ground (arith, e, h))
      | inr (o, e) ↦ elim (Option-cases o) [
        | inl f ↦ absurd (ground (arith, e, f, h))
        | inr (kid, f) ↦
            let after = looked_up kid busy now next (aged busy now first set) in
            elim (Option-cases (key_of kid after.keys)) [
              | inl g ↦ absurd (ground (arith, e, f, g, h))
              | inr (key, g) ↦ elim (Option-cases (decode token key (validation rs256 checks))) [
                | inl d ↦ absurd (ground (arith, e, f, g, d, h))
                | inr (w, d) ↦ (
                  kid,
                  key,
                  cc (e, f),
                  ground (arith, e, f, g),
                  ground (arith, e, f, g, d, h),
                  λ a b. kept kid busy now first next set a b ∙ g,
                )
              ]
            ]
      ]
    ]
