-- ===== src/Dispatch/Settled.antt =====
-- src/surface/dispatch.rs, `dispatch_reach`: the read cache over a call.
use mathlib.Core.Path.{subst}
use min_mcp.Prelude.{
  ℕ, ◌≤◌, String, ◌≡◌, refl, sym, ◌∙◌, Bool, true, false, ◌||◌, List, Option, none, some, arith,
  inl, inr, length, Bool-cases, Option-cases, eqb_refl, or_false,
}
use min_mcp.Json.{Value, MapOps}
use min_mcp.AuditChain.{JsonText}
use min_mcp.Preflight.{Comparing}
use min_mcp.Visibility.{Caller, may_call}
use min_mcp.RateLimit.{Floats}
use min_mcp.Results.{is_error_result}
use min_mcp.Results.Shape.{len}
use min_mcp.Cache.{ReadCache, Key, max_entries, store_read, bust_upstream_cache, cached}
use min_mcp.Cache.Entries.{
  Holds, store_read-Holds, bust-Holds, length-store_read, length-bust, cached-bust,
}
use min_mcp.Dispatch.{Tool, Surface, State, prepare}
use min_mcp.Dispatch.Sending.{
  Call, Request, Fetched, fetch, settle, follow_pages, cache_result, invalidate, feed_breaker,
  count_use, ttl, is_read, owner, breaker_cfg, paginate_cfg,
}
use min_mcp.Dispatch.Flow.{
  overlay, mac_of, charge_limits, admit, finish, perform, dispatch_visible, dispatch_reach, logged,
  settle_new,
}
use min_mcp.Dispatch.Gates.{Outcome-cases, Refusal-cases, fetch_cache, charge_limits-Untouched}

abbrev pub IsSuccess : Value → Type 0
IsSuccess v = is_error_result v ≡ false

-- Only successes are in the cache, and not more of them than it has room for.
abbrev pub IsSound : ReadCache → Type 0
IsSound c = Holds IsSuccess c × (length c ≤ max_entries)

store-IsSound :
    (ttl now : ℕ) (k : Key) (size : ℕ) (v : Value) (c : ReadCache)
    → IsSuccess v
    → IsSound c
    → IsSound (store_read ttl now k size v c)
store-IsSound ttl now k size v c p (h, l) =
    (store_read-Holds IsSuccess ttl now k size v c p h, length-store_read ttl now k size v c l)

bust-IsSound :
    (owner : String → Option ℕ) (idx : ℕ) (c : ReadCache)
    → IsSound c
    → IsSound (bust_upstream_cache owner idx c)
bust-IsSound owner idx c (h, l) = (bust-Holds IsSuccess owner idx c h, length-bust owner idx c l)

module _ (N : Floats) {U : Type 0} (clock : U → ℕ) (call : Call U) (J : JsonText) (E : Comparing)
    ⦃M : MapOps⦄ (s : Surface) where
  cache_result-IsSound :
      (r : Request) (e p : Bool) (v : Value) (st : State N U)
      → e ≡ is_error_result v
      → IsSound st.read_cache
      → IsSound (cache_result N clock call J E s r e p v st).read_cache
  unfolding cache_result
  cache_result-IsSound r e p v st same h = elim (Option-cases r.cache_key) [
    | inl none_key ↦ rw none_key h
    | inr (k, key) ↦ elim (Bool-cases (e || p)) [
      | inl bad ↦ rw key (rw bad h)
      | inr good ↦ rw key (
          rw good (
            store-IsSound (ttl s) (clock st.upstreams) k (len (J.display v)) v st.read_cache
              (sym same ∙ (or_false e p good).0) h))
    ]
  ]

  invalidate-IsSound :
      (r : Request) (st : State N U)
      → IsSound st.read_cache
      → IsSound (invalidate N clock call J E s r st).read_cache
  unfolding invalidate
  invalidate-IsSound r st h = elim (Bool-cases (is_read N clock call J E s r)) [
    | inl e ↦ rw e h
    | inr e ↦ rw e (bust-IsSound (owner N clock call J E s) r.tool.upstream_idx st.read_cache h)
  ]

  pages_cache :
      (r : Request) (e : Bool) (v : Value) (st : State N U)
      → (follow_pages N clock call J E s r e v st).0.read_cache ≡ st.read_cache
  unfolding follow_pages
  pages_cache r e v st = elim (Option-cases (paginate_cfg r)) [
    | inl n ↦ ground (arith, n)
    | inr (p, n) ↦ elim (Bool-cases e) [
      | inl b ↦ ground (arith, n, b)
      | inr b ↦ ground (arith, n, b)
    ]
  ]

  fed_cache :
      (r : Request) (e w : Bool) (st : State N U)
      → (feed_breaker N clock call r e w st).read_cache ≡ st.read_cache
  unfolding feed_breaker
  fed_cache r e w st = elim (Option-cases (breaker_cfg r)) [
    | inl n ↦ ground (arith, n)
    | inr (b, n) ↦ ground (arith, n)
  ]

  settle-IsSound :
      (r : Request) (f : Fetched) (st : State N U)
      → IsSound st.read_cache
      → IsSound (settle N clock call J E s r f st).0.read_cache
  unfolding settle
  settle-IsSound r f st h =
      let e = is_error_result f.result in
      let fed = feed_breaker N clock call r e f.was_probe st in
      let run = follow_pages N clock call J E s r e f.result fed in
      let same = pages_cache r e f.result fed ∙ fed_cache r e f.was_probe st in
      invalidate-IsSound r _ (
        cache_result-IsSound r (is_error_result run.1) run.2 run.1 run.0 refl
          (subst IsSound (sym same) h))

  -- A call that is no read leaves nothing in the cache of its upstream.
  pub settle-stale :
      (r : Request) (f : Fetched) (st : State N U) (k : Key) (life now : ℕ)
      → is_read N clock call J E s r ≡ false
      → owner N clock call J E s k.0 ≡ some r.tool.upstream_idx
      → cached life now k (settle N clock call J E s r f st).0.read_cache ≡ none
  unfolding settle invalidate
  settle-stale r f st k life now w o =
      let e = is_error_result f.result in
      let fed = feed_breaker N clock call r e f.was_probe st in
      let run = follow_pages N clock call J E s r e f.result fed in
      let before = cache_result N clock call J E s r (is_error_result run.1) run.2 run.1 run.0 in
      let gone =
        cached-bust (owner N clock call J E s) r.tool.upstream_idx life now k before.read_cache in
      rw w (gone ∙ rw o (rw (eqb_refl r.tool.upstream_idx) refl))

  module _ (stamp : ℕ → String × ℕ) (caller : Caller) (tool_id : String) where
    settle_new-IsSound :
        (b : Bool) (r : Request) (f : Fetched) (st : State N U)
        → IsSound st.read_cache
        → IsSound (settle_new N clock call J E s stamp caller tool_id b r f st).0.read_cache
    unfolding settle_new
    settle_new-IsSound true r f st h = h
    settle_new-IsSound false r f st h = settle-IsSound r f st h

    used_cache :
        (e : Bool) (st : State N U)
        → (count_use N clock call tool_id e st).read_cache ≡ st.read_cache
    unfolding count_use
    used_cache true st = refl
    used_cache false st = refl

    finish-IsSound :
        (r : Request) (mac : Option String) (fields : List String) (f : Fetched) (st : State N U)
        → IsSound st.read_cache
        → IsSound (finish N clock call J E s stamp caller tool_id r mac fields f st).0.read_cache
    unfolding finish
    finish-IsSound r mac fields f st h =
        settle_new-IsSound f.from_cache r f
          (count_use N clock call tool_id (is_error_result f.result) st)
          (subst IsSound (sym (used_cache (is_error_result f.result) st)) h)

    perform-IsSound :
        (r : Request) (mac : Option String) (fields : List String) (st : State N U)
        → IsSound st.read_cache
        → IsSound (perform N clock call J E s stamp caller tool_id r mac fields st).0.read_cache
    unfolding perform
    perform-IsSound r mac fields st h =
        let kept = subst IsSound (sym (fetch_cache N clock call s r st)) h in
        elim (Outcome-cases N clock call (fetch N clock call s r st).1) [
          | inl (f, e) ↦
              rw (e, perform) (finish-IsSound r mac fields f (fetch N clock call s r st).0 kept)
          | inr (n, t, e) ↦ rw (e, perform) kept
        ]

    visible-IsSound :
        (t : Tool) (arguments : Value) (fields : List String) (st : State N U)
        → IsSound st.read_cache
        → IsSound
            (dispatch_visible N clock call J E s stamp caller tool_id t arguments fields
              st).0.read_cache
    unfolding dispatch_visible
    visible-IsSound t arguments fields st h =
        let limits = charge_limits N clock call J E s stamp caller tool_id st in
        let kept : IsSound limits.0.read_cache =
          subst IsSound (sym (charge_limits-Untouched N clock call J E s stamp caller tool_id st).1)
            h in
        let prepared =
          prepare J s tool_id (overlay N clock call J E s stamp caller tool_id) arguments in
        elim (Option-cases limits.1) [
          | inr (w, e) ↦ rw (e, dispatch_visible) kept
          | inl e ↦
              elim (Refusal-cases (admit N clock call J E s stamp caller tool_id t prepared)) [
                | inl (q, a) ↦ rw (e, dispatch_visible) (rw a kept)
                | inr (r, a) ↦
                    rw (e, dispatch_visible)
                      (rw a (
                        perform-IsSound r (mac_of N clock call J E s stamp caller tool_id arguments)
                          fields limits.0 kept))
              ]
        ]

    -- Whatever the call and however it ends, the read cache holds successes only and at most 512 of them
    -- afterwards, if it did before.
    pub dispatch-IsSound :
        (arguments : Value) (fields : List String) (st : State N U)
        → IsSound st.read_cache
        → IsSound
            (dispatch_reach N clock call J E s stamp caller tool_id arguments fields
              st).0.read_cache
    unfolding dispatch_reach logged
    dispatch-IsSound arguments fields st h = elim (Option-cases (s.def tool_id)) [
      | inl e ↦ rw (e, dispatch_reach) h
      | inr (t, e) ↦ elim (Bool-cases (may_call s.visibility caller tool_id).0) [
        | inr no_call ↦ rw (e, dispatch_reach) (rw no_call h)
        | inl may ↦
            rw (e, dispatch_reach)
              (rw may (visible-IsSound t arguments fields (logged s caller tool_id st) h))
      ]
    ]
