-- ===== src/Dispatch/Coherent.antt =====
-- src/surface/dispatch.rs, `dispatch_reach`: a call that may have written.
use mathlib.Core.Option
use mathlib.Core.Path.{subst}
use min_mcp.Prelude.{
  ℕ, String, ◌≡◌, refl, false, List, Option, none, some, arith, inl, inr, Bool-cases, Option-cases,
  if◌then◌else◌,
}
use min_mcp.Json.{Value, MapOps}
use min_mcp.AuditChain.{JsonText}
use min_mcp.Preflight.{Comparing, preflight_error}
use min_mcp.Visibility.{Caller, may_call}
use min_mcp.RateLimit.{Floats}
use min_mcp.Workflow.{Reach}
use min_mcp.Results.{is_error_result}
use min_mcp.Cache.{Key, cached, is_true, cache_allowed}
use min_mcp.Dispatch.{Tool, Surface, State, prepare, Headers, inject, extra_headers, preflight_on}
use min_mcp.Dispatch.Sending.{
  Call, Request, Fetched, fetched, fetch, is_read, owner, count_use, lookup_cached, breaker_gate,
}
use min_mcp.Dispatch.Flow.{
  finished, overlay, mac_of, charge_limits, admit, request, finish, perform, dispatch_visible,
  dispatch_reach, logged, settle_new,
}
use min_mcp.Dispatch.Gates.{Outcome-cases, Decision-cases, Refusal-cases, Supplied-cases}
use min_mcp.Dispatch.Settled.{settle-stale}

module _ (N : Floats) {U : Type 0} (clock : U → ℕ) (call : Call U) where
  fetch_new :
      (s : Surface) (r : Request) (f : Fetched) (st : State N U)
      → r.cache_key ≡ none
      → (fetch N clock call s r st).1 ≡ fetched f
      → f.from_cache ≡ false
  unfolding fetch Option.bind
  fetch_new s r f st key h =
      let miss : lookup_cached N clock call s r st ≡ none = rw key refl in
      elim (Decision-cases (breaker_gate N clock call r st).1) [
        | inl (p, d) ↦ ground (arith, miss, d, h)
        | inr (m, d) ↦ absurd (ground (arith, miss, d, h))
      ]

module _ (N : Floats) {U : Type 0} (clock : U → ℕ) (call : Call U) (J : JsonText) (E : Comparing)
    ⦃M : MapOps⦄ (s : Surface) (stamp : ℕ → String × ℕ) (caller : Caller) (tool_id : String) where
  -- The request is about the tool, and its result is not cached.
  abbrev IsWrite : Tool → Request → Type 0
  IsWrite t r = (r.tool ≡ t) × (r.cache_key ≡ none) × (is_read N clock call J E s r ≡ false)

  abbrev pub MayWrite : Tool → Type 0
  MayWrite t =
      (is_true t.read_only ≡ false)
      × (cache_allowed s.read_cache_ttl_s (overlay N clock call J E s stamp caller tool_id)
            t.read_only
          ≡ false)

  request-IsWrite :
      (t : Tool) (hs : Headers) (sent : Value)
      → MayWrite t
      → IsWrite t (request N clock call J E s stamp caller tool_id t hs sent)
  unfolding request
  request-IsWrite t hs sent (w, c) = (refl, rw c refl, rw c (ground (arith, w)))

  admit-IsWrite :
      (t : Tool) (prepared : Value) (r : Request)
      → MayWrite t
      → admit N clock call J E s stamp caller tool_id t prepared ≡ inr r
      → IsWrite t r
  unfolding admit
  admit-IsWrite t prepared r m a =
      let o = overlay N clock call J E s stamp caller tool_id in
      let headers = extra_headers J stamp (s.tool_headers tool_id) prepared in
      elim (Supplied-cases (inject s.resolve_source (s.user_supplied tool_id) prepared)) [
        | inr (p, q, i) ↦ absurd (ground (arith, i, a))
        | inl (sent, i) ↦
            let checked : Option Value =
              if preflight_on s o then preflight_error E (s.schema tool_id) sent else none in
            elim (Option-cases checked) [
              | inr (se, bad) ↦ absurd (cc (i, bad, a))
              | inl clean ↦
                  let same : request N clock call J E s stamp caller tool_id t headers sent ≡ r =
                    cc (i, clean, a) in
                  subst (IsWrite t) same (request-IsWrite t headers sent m)
            ]
      ]

  perform_stale :
      (t : Tool) (r : Request) (mac : Option String) (fields : List String) (st : State N U)
      (v : Value) (reach : Reach) (k : Key) (life now : ℕ)
      → IsWrite t r
      → owner N clock call J E s k.0 ≡ some t.upstream_idx
      → (perform N clock call J E s stamp caller tool_id r mac fields st).1 ≡ finished v reach
      → cached life now k
          (perform N clock call J E s stamp caller tool_id r mac fields st).0.read_cache
        ≡ none
  unfolding perform finish settle_new
  perform_stale t r mac fields st v reach k life now (same, key, w) o h =
      elim (Outcome-cases N clock call (fetch N clock call s r st).1) [
        | inr (n, x, e) ↦ absurd (ground (arith, e, h))
        | inl (f, e) ↦
            let new = fetch_new N clock call s r f st key e in
            let used =
              count_use N clock call tool_id (is_error_result f.result)
                (fetch N clock call s r st).0 in
            let gone = settle-stale N clock call J E s r f used k life now w (rw same o) in
            ground (arith, e, new, gone)
      ]

  -- When a call of a tool that may write is answered, whatever the answer, no result of a tool of the same
  -- upstream is served from the cache afterwards.
  pub dispatch_invalidates :
      (t : Tool) (arguments : Value) (fields : List String) (st : State N U) (v : Value)
      (reach : Reach) (k : Key) (life now : ℕ)
      → s.def tool_id ≡ some t
      → MayWrite t
      → (dispatch_reach N clock call J E s stamp caller tool_id arguments fields st).1
        ≡ finished v reach
      → owner N clock call J E s k.0 ≡ some t.upstream_idx
      → cached life now k
          (dispatch_reach N clock call J E s stamp caller tool_id arguments fields st).0.read_cache
        ≡ none
  unfolding dispatch_reach dispatch_visible
  dispatch_invalidates t arguments fields st v reach k life now def m h o =
      let prepared =
        prepare J s tool_id (overlay N clock call J E s stamp caller tool_id) arguments in
      let limits =
        charge_limits N clock call J E s stamp caller tool_id (logged s caller tool_id st) in
      elim (Bool-cases (may_call s.visibility caller tool_id).0) [
        | inr no_call ↦ absurd (ground (arith, def, no_call, h))
        | inl may ↦ elim (Option-cases limits.1) [
          | inr (w, l) ↦ absurd (ground (arith, def, may, l, h))
          | inl l ↦
              elim (Refusal-cases (admit N clock call J E s stamp caller tool_id t prepared)) [
                | inl (q, a) ↦ absurd (ground (arith, def, may, l, a, h))
                | inr (r, a) ↦
                    let mac = mac_of N clock call J E s stamp caller tool_id arguments in
                    let gone =
                      perform_stale t r mac fields limits.0 v reach k life now
                        (admit-IsWrite t prepared r m a) o (cc (def, may, l, a, h)) in
                    cc (def, may, l, a, gone)
              ]
        ]
      ]
