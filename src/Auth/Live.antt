-- ===== src/Auth/Live.antt =====
-- src/auth.rs and src/oauth.rs: the liveness of tokens, and how long the token for an upstream is used.
use mathlib.Core.Option
use min_mcp.Prelude.{
  ℕ, suc, ◌+◌, ◌-◌, ◌*◌, ◌≤◌, ◌≡◌, refl, ◌∙◌, Bool, true, false, String, [], ◌∷◌, Option, none,
  some, arith, ltb, if◌then◌else◌, Option-cases, inl, inr, ◌⊎◌, length, max,
}
use min_mcp.Json.{Value, get_key, as_bool}
use min_mcp.Auth.{
  second, introspection_cache_max, Verdicts, Introspector, cached, remember, active, liveness_of,
  Liveness, live, unreachable, put_verdict, retain_fresh, Bearer, current, bearer,
  parse_token_response,
}

length-put_verdict :
    (k : String) (at : ℕ) (b : Bool) (c : Verdicts) → length (put_verdict k at b c) ≤ suc (length c)
length-put_verdict k at b [] = omega arith
length-put_verdict k at b ((j, at', b') ∷ c) = ground (arith, length-put_verdict k at b c)

length-remember :
    (i : Introspector) (key : String) (b : Bool) (exp : Option ℕ) (unix_now now : ℕ)
    → length i.cache ≤ introspection_cache_max
    → length (remember i key b exp unix_now now).cache ≤ introspection_cache_max
unfolding remember
length-remember i key b exp unix_now now h = ground (
  arith,
  length-put_verdict key now b [],
  length-put_verdict key now b (retain_fresh i.ttl now i.cache),
  length-put_verdict key now b i.cache,
)

length-settled :
    (i : Introspector) (key : String) (exp : Option ℕ) (unix_now now : ℕ) (v : Liveness)
    → length i.cache ≤ introspection_cache_max
    → length
        (elim v as (λ v. Introspector × Option Bool) [
          | live b ↦ (remember i key b exp unix_now now, some b)
          | unreachable ↦ (i, if i.fail_open then some true else none)
        ]).0.cache
      ≤ introspection_cache_max
length-settled i key exp unix_now now (live b) h = length-remember i key b exp unix_now now h
length-settled i key exp unix_now now unreachable h = h

-- The cache of verdicts has at most 4096 of them, if it had before.
length-active :
    (i : Introspector) (key : String) (exp : Option ℕ) (unix_now now : ℕ) (reply : Option Value)
    → length i.cache ≤ introspection_cache_max
    → length (active i key exp unix_now now reply).0.cache ≤ introspection_cache_max
unfolding active
length-active i key exp unix_now now reply h = elim (Option-cases (cached i key now)) [
  | inr (b, e) ↦ rw (e, active) h
  | inl e ↦ rw (e, active) (length-settled i key exp unix_now now (liveness_of reply) h)
]

-- Unless outages are configured to pass, a token is taken for live only where an earlier verdict that
-- is still fresh says so, or where the endpoint answered now with `active` being true.
pub active-true :
    (i : Introspector) (key : String) (exp : Option ℕ) (unix_now now : ℕ) (reply : Option Value)
    → i.fail_open ≡ false
    → (active i key exp unix_now now reply).1 ≡ some true
    → (cached i key now ≡ some true)
      ⊎ ((body : Value) × (reply ≡ some body)
          × (Option.bind (get_key "active" body) as_bool ≡ some true))
unfolding active liveness_of
active-true i key exp unix_now now reply o h = elim (Option-cases (cached i key now)) [
  | inr (b, e) ↦ inl (ground (arith, e))
  | inl e ↦ elim (Option-cases reply) [
    | inl f ↦ absurd (ground (arith, e, f))
    | inr (body, f) ↦ inr (body, f, ground (arith, e, f))
  ]
]

bearer_fetched :
    (as_u64 : Value → Option ℕ) (now ttl : ℕ) (token : String) (body : Value) (held : Bearer)
    → current now held ≡ none
    → parse_token_response as_u64 body ≡ some (token, ttl)
    → bearer as_u64 now (some body) held
      ≡ (some (token, now + max (ttl - 60) 1 * second), some token)
unfolding bearer Option.bind
bearer_fetched as_u64 now ttl token body held e p = rw (e, bearer) (rw p refl)

bearer_held :
    (as_u64 : Value → Option ℕ) (now expiry : ℕ) (token : String)
    → (bearer as_u64 now none (some (token, expiry))).1
      ≡ (if ltb now expiry then some token else none)
unfolding bearer current Option.bind
bearer_held as_u64 now expiry token = ground arith

-- A token that was fetched at one time and is asked for at another is given until a minute before its
-- lifetime is over and not after that, where the lifetime is more than a minute.
bearer-bearer :
    (as_u64 : Value → Option ℕ) (t t' ttl : ℕ) (token : String) (body : Value) (held : Bearer)
    → current t held ≡ none
    → parse_token_response as_u64 body ≡ some (token, ttl)
    → 60 + 1 ≤ ttl
    → (bearer as_u64 t' none (bearer as_u64 t (some body) held).0).1
      ≡ (if ltb (t' + 60 * second) (t + ttl * second) then some token else none)
bearer-bearer as_u64 t t' ttl token body held e p l =
    let until : max (ttl - 60) 1 ≡ ttl - 60 = omega arith in
    rw (bearer_fetched as_u64 t ttl token body held e p)
      (bearer_held as_u64 t' (t + max (ttl - 60) 1 * second) token ∙ rw until (ground arith))
