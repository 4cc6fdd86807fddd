-- ===== src/Cache/Entries.antt =====
-- src/surface/cache.rs and src/surface/dispatch.rs: the entries of the read cache.
use min_mcp.Prelude.{
  ℕ, suc, ◌-◌, ◌≤◌, ◌<◌, String, ◌≡◌, inl, inr, refl, Bool, true, [], ◌∷◌, Option, none, some,
  arith, ltb, leb, ◌==◌, if◌then◌else◌, length, All, eq_iff, Bool-cases, Option-cases,
}
use min_mcp.Json.{Value}
use min_mcp.Cache.{
  Key, Entry, ReadCache, same_key, max_entries, entry_max_bytes, find_entry, put_entry, retain,
  is_fresh, cached, make_room, store_read, is_other, bust_upstream_cache,
}

same_key_refl : (k : Key) → same_key k k ≡ true
same_key_refl (a, b) = ground (arith, eq_iff a a, eq_iff b b)

length-retain : (f : Entry → Bool) (c : ReadCache) → length (retain f c) ≤ length c
unfolding retain
length-retain f [] = omega arith
length-retain f (e ∷ c) = ground (arith, length-retain f c)

pub length-bust :
    (owner : String → Option ℕ) (idx : ℕ) (c : ReadCache)
    → length c ≤ max_entries
    → length (bust_upstream_cache owner idx c) ≤ max_entries
unfolding bust_upstream_cache
length-bust owner idx c h = omega (arith, length-retain (is_other owner idx) c)

length-put_entry :
    (k : Key) (at : ℕ) (v : Value) (c : ReadCache) → length (put_entry k at v c) ≤ suc (length c)
unfolding put_entry
length-put_entry k at v [] = omega arith
length-put_entry k at v (e ∷ c) = ground (arith, length-put_entry k at v c)

length-make_room : (ttl now : ℕ) (c : ReadCache) → length (make_room ttl now c) < max_entries
unfolding make_room
length-make_room ttl now c = ground (arith)

-- The cache never holds more than 512 entries.
pub length-store_read :
    (ttl now : ℕ) (k : Key) (size : ℕ) (v : Value) (c : ReadCache)
    → length c ≤ max_entries
    → length (store_read ttl now k size v c) ≤ max_entries
unfolding store_read
length-store_read ttl now k size v c h =
    ground (arith, length-make_room ttl now c, length-put_entry k now v (make_room ttl now c))

find_entry-put_entry :
    (k j : Key) (at : ℕ) (v : Value) (c : ReadCache)
    → find_entry j (put_entry k at v c) ≡ (if same_key k j then some (at, v) else find_entry j c)
unfolding find_entry put_entry
find_entry-put_entry (a, b) (p, q) at v [] = refl
find_entry-put_entry (a, b) (p, q) at v (((x, y), at', w) ∷ c) = ground (
  arith,
  find_entry-put_entry (a, b) (p, q) at v c,
  eq_iff a p,
  eq_iff b q,
  eq_iff x a,
  eq_iff y b,
  eq_iff x p,
  eq_iff y q,
)

-- What is served for a key after an insertion.
pub cached-store_read :
    (ttl now later : ℕ) (k : Key) (size : ℕ) (v : Value) (c : ReadCache)
    → size ≤ entry_max_bytes
    → cached ttl later k (store_read ttl now k size v c)
      ≡ (if ltb (later - now) ttl then some v else none)
unfolding cached store_read
cached-store_read ttl now later k size v c h =
    let found = find_entry-put_entry k k now v (make_room ttl now c) in
    ground (arith, found, same_key_refl k)

-- After the removal of an upstream's entries a call is served what it was served before, if its tool is
-- not of that upstream, and nothing otherwise.
find_entry-bust :
    (owner : String → Option ℕ) (idx : ℕ) (k : Key) (c : ReadCache)
    → find_entry k (bust_upstream_cache owner idx c) ≡ (elim (owner k.0) [
      | none ↦ find_entry k c
      | some i ↦ if i == idx then none else find_entry k c
    ])
unfolding find_entry bust_upstream_cache retain
find_entry-bust owner idx k [] = elim (Option-cases (owner k.0)) [
  | inl e ↦ rw e refl
  | inr (i, e) ↦ rw e (ground arith)
]
find_entry-bust owner idx (p, q) (((x, y), at, v) ∷ c) = elim (Option-cases (owner p)) [
  | inl e ↦ ground (arith, e, find_entry-bust owner idx (p, q) c, eq_iff x p, eq_iff y q)
  | inr (i, e) ↦ ground (arith, e, find_entry-bust owner idx (p, q) c, eq_iff x p, eq_iff y q)
]

-- After a removal of an upstream's entries: as before for the tools of other upstreams, and nothing for its own.
pub cached-bust :
    (owner : String → Option ℕ) (idx ttl now : ℕ) (k : Key) (c : ReadCache)
    → cached ttl now k (bust_upstream_cache owner idx c) ≡ (elim (owner k.0) [
      | none ↦ cached ttl now k c
      | some i ↦ if i == idx then none else cached ttl now k c
    ])
unfolding cached
cached-bust owner idx ttl now k c = elim (Option-cases (owner k.0)) [
  | inl e ↦ ground (arith, e, find_entry-bust owner idx k c)
  | inr (i, e) ↦ ground (arith, e, find_entry-bust owner idx k c)
]

-- What the cache holds is held to `P`: an insertion or a removal leaves that so.
module _ (P : Value → Type 0) where
  abbrev pub Holds : ReadCache → Type 0
  Holds c = All (λ (e : Entry). P e.2) c

  retain-Holds : (f : Entry → Bool) (c : ReadCache) → Holds c → Holds (retain f c)
  unfolding retain
  retain-Holds f [] h = tt
  retain-Holds f (e ∷ c) (h, hs) = elim (Bool-cases (f e)) [
    | inl k ↦ rw k (h, retain-Holds f c hs)
    | inr k ↦ rw k (retain-Holds f c hs)
  ]

  put_entry-Holds :
      (k : Key) (at : ℕ) (v : Value) (c : ReadCache) → P v → Holds c → Holds (put_entry k at v c)
  unfolding put_entry
  put_entry-Holds k at v [] p h = (p, tt)
  put_entry-Holds k at v ((j, at', w) ∷ c) p (h, hs) = elim (Bool-cases (same_key j k)) [
    | inl e ↦ rw e (p, hs)
    | inr e ↦ rw e (h, put_entry-Holds k at v c p hs)
  ]

  make_room-Holds : (ttl now : ℕ) (c : ReadCache) → Holds c → Holds (make_room ttl now c)
  unfolding make_room
  make_room-Holds ttl now c h = elim (Bool-cases (leb max_entries (length c))) [
    | inr e ↦ rw e h
    | inl e ↦ elim (Bool-cases (leb max_entries (length (retain (is_fresh ttl now) c)))) [
      | inl f ↦ rw e (rw f tt)
      | inr f ↦ rw e (rw f (retain-Holds (is_fresh ttl now) c h))
    ]
  ]

  pub store_read-Holds :
      (ttl now : ℕ) (k : Key) (size : ℕ) (v : Value) (c : ReadCache)
      → P v
      → Holds c
      → Holds (store_read ttl now k size v c)
  unfolding store_read
  store_read-Holds ttl now k size v c p h = elim (Bool-cases (leb size entry_max_bytes)) [
    | inl e ↦ rw e (put_entry-Holds k now v (make_room ttl now c) p (make_room-Holds ttl now c h))
    | inr e ↦ rw e h
  ]

  pub bust-Holds :
      (owner : String → Option ℕ) (idx : ℕ) (c : ReadCache)
      → Holds c
      → Holds (bust_upstream_cache owner idx c)
  unfolding bust_upstream_cache
  bust-Holds owner idx c h = retain-Holds (is_other owner idx) c h
