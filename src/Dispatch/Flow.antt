-- ===== src/Dispatch/Flow.antt =====
-- src/surface/dispatch.rs, `dispatch_reach`: the call path as a whole.
use mathlib.Core.Option
use min_mcp.Prelude.{
  ℕ, String, Bool, true, false, not, ◌&&◌, List, [], ◌∷◌, Option, none, some, if◌then◌else◌, map,
  ◌⊎◌, inl, inr,
}
use min_mcp.Json.{Value, MapOps}
use min_mcp.AuditChain.{JsonText}
use min_mcp.Preflight.{Comparing, preflight_error}
use min_mcp.Visibility
use min_mcp.Visibility.{Caller, may_call, is_visible}
use min_mcp.RateLimit
use min_mcp.RateLimit.{Floats, Limit}
use min_mcp.Config.{Overlay, overlay_for, error_hints_for}
use min_mcp.Workflow.{Reach}
use min_mcp.Results.{is_error_result}
use min_mcp.Results.Shape.{len}
use min_mcp.Cache.{cache_allowed, canonical_args}
use min_mcp.Dispatch.{
  Tool, Headers, Surface, State, Event, would_deny, would_rate_limit, rate_limited, called, Refusal,
  unknown_tool, over_limit, user_supplied_missing, preflight_failed, breaker_is_open, prepare,
  inject, preflight_on, supplied, missing, extra_headers,
}
use min_mcp.Dispatch.Sending.{Call, Request, Fetched, fetched, blocked, fetch, settle, count_use}
use min_mcp.Dispatch.Answering.{apply_error_hints, nudge_projection, shape_result}

-- The end of a call: a refusal, before anything is sent, or an answer and how far the call got.
pub data Dispatched : Type 0 where
  refused : Refusal → Dispatched
  finished : Value → Reach → Dispatched

abbrev pub no_fields : List String → Bool
no_fields [] = true
no_fields (f ∷ fs) = false

unfoldable pub deny_event : Visibility.Event → Event
deny_event (Visibility.would_deny id scopes) = would_deny id scopes

unfoldable pub limit_event : RateLimit.WouldLimit → Event
limit_event w = would_rate_limit w.tool_id w.limit w.retry_in_s

abbrev pub prepend_all : List Event → List Event → List Event
prepend_all [] log = log
prepend_all (e ∷ es) log = prepend_all es (e ∷ log)

-- The state with the events of the visibility check in its log.
unfoldable pub logged :
    {N : Floats} {U : Type 0} → Surface → Caller → String → State N U → State N U
unfolding deny_event
logged s caller tool_id st = record st {
  log = prepend_all (map deny_event (may_call s.visibility caller tool_id).1) st.log;
}

module _ (N : Floats) {U : Type 0} (clock : U → ℕ) (call : Call U) (J : JsonText) (E : Comparing)
    ⦃M : MapOps⦄ (s : Surface) (stamp : ℕ → String × ℕ) (caller : Caller) (tool_id : String) where
  abbrev pub overlay : Option Overlay
  overlay = overlay_for s.config tool_id

  -- The rate limits, with the event of each limit that would have refused.
  unfoldable pub charge_limits : State N U → State N U × Option (String × ℕ)
  unfolding limit_event
  charge_limits st =
      let (limits, would, refusal) =
        RateLimit.rate_limited N s.rate_limits caller tool_id
          (Option.bind overlay (λ o. o.rate_limit)) (clock st.upstreams) st.limits in
      (record st { limits = limits; log = prepend_all (map limit_event would) st.log }, refusal)

  -- The request of a call whose arguments are complete.
  unfoldable pub request : Tool → Headers → Value → Request
  request t headers arguments = record {
    tool_id = tool_id;
    tool = t;
    overlay = overlay;
    arguments = arguments;
    headers = headers;
    cache_key =
        if cache_allowed s.read_cache_ttl_s overlay t.read_only
        then some (tool_id, canonical_args J arguments)
        else none;
  }

  -- From the arguments as they are after preparation: what the secrets put in, and preflight.
  unfoldable pub admit : Tool → Value → Refusal ⊎ Request
  unfolding request
  admit t prepared =
      let headers = extra_headers J stamp (s.tool_headers tool_id) prepared in
      elim (inject s.resolve_source (s.user_supplied tool_id) prepared) [
        | missing path source ↦ inl (user_supplied_missing path source)
        | supplied arguments ↦
            elim (if preflight_on s overlay
              then preflight_error E (s.schema tool_id) arguments
              else none) [
                | some se ↦ inl (preflight_failed se)
                | none ↦ inr (request t headers arguments)
              ]
      ]

  -- The answer to the caller, from the settled result.
  unfoldable pub shaped_answer : Tool → List String → Bool → Value → Value
  shaped_answer t fields is_error result =
      let shaped =
        shape_result J E s.jq_run (Option.map (λ o. o.response) overlay) fields
          (s.from_spec t.upstream_idx) is_error result in
      let schema : Option Value =
        if is_visible s.visibility caller tool_id then some (s.schema tool_id) else none in
      let hinted = apply_error_hints J E (error_hints_for s.config tool_id) schema shaped in
      if s.three_tool && no_fields fields && not is_error
      then nudge_projection J E hinted
      else hinted

  -- What came from the cache was settled before.
  unfoldable pub settle_new : Bool → Request → Fetched → State N U → State N U × Value
  settle_new true r f st = (st, f.result)
  settle_new false r f st = settle N clock call J E s r f st

  unfoldable pub finish :
      Request → Option String → List String → Fetched → State N U → State N U × Dispatched
  unfolding shaped_answer settle_new
  finish r mac fields f st =
      let used = count_use N clock call tool_id (is_error_result f.result) st in
      let (st', result) = settle_new f.from_cache r f used in
      let is_error = is_error_result result in
      let final = shaped_answer r.tool fields is_error result in
      (
        record st' {
          log =
              called tool_id r.tool.upstream_idx is_error f.from_cache (len (J.display final)) mac
              ∷ st'.log;
        },
        finished final f.reach,
      )

  -- The way of an admitted request.
  unfoldable pub perform :
      Request → Option String → List String → State N U → State N U × Dispatched
  unfolding finish
  perform r mac fields st =
      let (st', outcome) = fetch N clock call s r st in
      elim outcome [
        | blocked failures retry_in_s ↦ (st', refused (breaker_is_open failures retry_in_s))
        | fetched f ↦ finish r mac fields f st'
      ]

  -- The keyed digest of the arguments as the caller sent them.
  abbrev pub mac_of : Value → Option String
  mac_of arguments = Option.map (λ k. k (canonical_args J arguments)) s.args_mac

  -- The call of a visible tool.
  unfoldable pub dispatch_visible : Tool → Value → List String → State N U → State N U × Dispatched
  unfolding charge_limits admit perform
  dispatch_visible t arguments fields st =
      let (st', refusal) = charge_limits st in
      elim refusal [
        | some (what, retry_in_s) ↦ (
          record st' { log = rate_limited tool_id what retry_in_s ∷ st'.log },
          refused (over_limit what retry_in_s),
        )
        | none ↦ elim (admit t (prepare J s tool_id overlay arguments)) [
          | inl r ↦ (st', refused r)
          | inr r ↦ perform r (mac_of arguments) fields st'
        ]
      ]

  unfoldable pub dispatch_reach : Value → List String → State N U → State N U × Dispatched
  unfolding dispatch_visible logged
  dispatch_reach arguments fields st = elim (s.def tool_id) [
    | none ↦ (st, refused (unknown_tool tool_id))
    | some t ↦
        if (may_call s.visibility caller tool_id).0
        then dispatch_visible t arguments fields (logged s caller tool_id st)
        else (logged s caller tool_id st, refused (unknown_tool tool_id))
  ]
