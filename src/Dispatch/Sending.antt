-- ===== src/Dispatch/Sending.antt =====
-- src/surface/dispatch.rs, `dispatch_reach`: the circuit breaker in front of the upstream, the call of the
-- upstream, and what an answer that is not from the cache leaves behind.
use mathlib.Core.Option
use min_mcp.Prelude.{
  ℕ, ◌*◌, String, ◌<>◌, Bool, true, false, ◌||◌, List, [], ◌∷◌, Option, none, some, ◌=?◌,
  if◌then◌else◌, unwrap_or, show,
}
use min_mcp.Json.{Value, MapOps}
use min_mcp.AuditChain.{JsonText}
use min_mcp.Preflight.{Comparing}
use min_mcp.Breaker.{Breaker, BreakerState, closed, check, on_result, Decision, allow, block}
use min_mcp.RateLimit.{Floats}
use min_mcp.Config.{Overlay, Paginate}
use min_mcp.Workflow.{Reach, no_answer, answered}
use min_mcp.Results.{is_error_result}
use min_mcp.Results.Shape.{len}
use min_mcp.Cache.{Key, cached, store_read, bust_upstream_cache}
use min_mcp.Dispatch.{
  Tool, Headers, Surface, State, breaker_open, paginated, Reply, replied, timed_out, failed,
  text_result, second, deadline,
}
use min_mcp.Dispatch.Paging.{paginate, count_items}

abbrev pub Breakers : Type 0
Breakers = List (String × BreakerState)

-- `breakers.entry(tool_id).or_default()`
unfoldable pub breaker_of : String → Breakers → BreakerState
breaker_of k [] = closed
breaker_of k ((j, s) ∷ bs) = if j =? k then s else breaker_of k bs

unfoldable pub put_breaker : String → BreakerState → Breakers → Breakers
put_breaker k s [] = (k, s) ∷ []
put_breaker k s ((j, t) ∷ bs) = if j =? k then (j, s) ∷ bs else (j, t) ∷ put_breaker k s bs

-- The upstream's guidance after a call that may have been carried out.
abbrev pub timeout_guidance : String
timeout_guidance =
    "The operation may or may not have completed upstream — for writes, check state before retrying."

unfoldable pub timeout_text : String → Option ℕ → String
timeout_text tool_id timeout_s =
    "TIMEOUT: "
    <> tool_id
    <> " did not respond within "
    <> show (unwrap_or timeout_s 0)
    <> "s. "
    <> timeout_guidance

unfoldable pub upstream_error_text : String → String → String
upstream_error_text tool_id e =
    "UPSTREAM_ERROR: " <> tool_id <> " — the upstream did not return a tool result: " <> e <> ". "
    <> timeout_guidance
    <> " If this repeats, the upstream may be down — use a different tool or report it."

-- The result that stands for a reply, and how far the call got.
unfoldable pub result_of : String → Option ℕ → Reply → Value × Reach
unfolding timeout_text upstream_error_text text_result
result_of tool_id timeout_s (replied r reach) = (r, reach)
result_of tool_id timeout_s timed_out =
    (text_result (timeout_text tool_id timeout_s) true, no_answer)
result_of tool_id timeout_s (failed e) =
    (text_result (upstream_error_text tool_id e) true, no_answer)

pub record Fetched : Type 0 where
  pub result : Value
  pub reach : Reach
  pub was_probe : Bool
  pub from_cache : Bool

-- What the call is about: the tool, its overlay, the prepared arguments and headers, and the key of the
-- cache if the result may come from it.
pub record Request : Type 0 where
  pub tool_id : String
  pub tool : Tool
  pub overlay : Option Overlay
  pub arguments : Value
  pub headers : Headers
  pub cache_key : Option Key

abbrev pub breaker_cfg : Request → Option Breaker
breaker_cfg r = Option.bind r.overlay (λ o. o.breaker)

abbrev pub timeout_of : Request → Option ℕ
timeout_of r = Option.bind r.overlay (λ o. o.timeout_s)

abbrev pub paginate_cfg : Request → Option Paginate
paginate_cfg r = Option.bind r.overlay (λ o. o.paginate)

abbrev pub ttl : Surface → ℕ
ttl s = s.read_cache_ttl_s * second

-- A call of a tool of an upstream, with its arguments, headers and deadline.
abbrev pub Call : Type 0 → Type 0
Call U = ℕ → String → Value → Headers → Option ℕ → U → U × Reply

-- The result from the cache, else from the upstream; none where the breaker is open: then the
-- failures and the seconds to wait.
pub data Outcome : Type 0 where
  fetched : Fetched → Outcome
  blocked : ℕ → ℕ → Outcome

module _ (N : Floats) {U : Type 0} (clock : U → ℕ) (call : Call U) where
  -- The breaker's decision, with the state after it.
  unfoldable pub breaker_gate : Request → State N U → State N U × Decision
  unfolding breaker_of put_breaker
  breaker_gate r st = elim (breaker_cfg r) [
    | none ↦ (st, allow false)
    | some b ↦
        let (next, decision) = check (breaker_of r.tool_id st.breakers) (clock st.upstreams) in
        (record st { breakers = put_breaker r.tool_id next st.breakers }, decision)
  ]

  unfoldable pub send : Request → State N U → State N U × Value × Reach
  unfolding result_of
  send r st =
      let (u, reply) =
        call r.tool.upstream_idx r.tool.name r.arguments r.headers (deadline r.overlay)
          st.upstreams in
      let (result, reach) = result_of r.tool_id (timeout_of r) reply in
      (record st { upstreams = u }, result, reach)

  abbrev pub lookup_cached : Surface → Request → State N U → Option Value
  lookup_cached s r st =
      Option.bind r.cache_key (λ k. cached (ttl s) (clock st.upstreams) k st.read_cache)

  unfoldable pub fetch : Surface → Request → State N U → State N U × Outcome
  unfolding breaker_gate send
  fetch s r st = elim (lookup_cached s r st) [
    | some v ↦ (
      st,
      fetched (record { result = v; reach = answered; was_probe = false; from_cache = true }),
    )
    | none ↦
        let (st', decision) = breaker_gate r st in
        elim decision [
          | block failures retry_in_s ↦
              (record st' { log = breaker_open r.tool_id ∷ st'.log }, blocked failures retry_in_s)
          | allow probe ↦
              let (st'', result, reach) = send r st' in
              (
                st'',
                fetched (record {
                  result = result;
                  reach = reach;
                  was_probe = probe;
                  from_cache = false;
                }),
              )
        ]
  ]

  unfoldable pub count_use : String → Bool → State N U → State N U
  count_use tool_id is_error st = if is_error then st else record st { uses = tool_id ∷ st.uses }

  unfoldable pub feed_breaker : Request → Bool → Bool → State N U → State N U
  unfolding breaker_of put_breaker
  feed_breaker r is_error was_probe st = elim (breaker_cfg r) [
    | none ↦ st
    | some b ↦ record st {
      breakers =
          put_breaker r.tool_id
            (on_result b (breaker_of r.tool_id st.breakers) is_error was_probe (clock st.upstreams))
            st.breakers;
    }
  ]

  module _ (J : JsonText) (E : Comparing) ⦃M : MapOps⦄ (s : Surface) where
    -- The pages of a list that is paginated: the merged result, and whether it is partial.
    unfoldable pub follow_pages : Request → Bool → Value → State N U → State N U × Value × Bool
    follow_pages r is_error result st = elim (paginate_cfg r) [
      | none ↦ (st, result, false)
      | some p ↦
          if is_error
          then (st, result, false)
          else (let (u, merged, pages) =
                paginate J E
                  (λ args. call r.tool.upstream_idx r.tool.name args r.headers (deadline r.overlay))
                  (s.from_spec r.tool.upstream_idx) p r.arguments result st.upstreams in
              (
                record st {
                  upstreams = u;
                  log =
                      paginated r.tool.name pages.pages (count_items pages.items)
                        pages.partial_error
                      ∷ st.log;
                },
                merged,
                pages.partial_error,
              ))
    ]

    -- Only a success that is whole is cached.
    unfoldable pub cache_result : Request → Bool → Bool → Value → State N U → State N U
    cache_result r is_error partial_pages result st = elim r.cache_key [
      | none ↦ st
      | some k ↦ if is_error || partial_pages then st else record st {
        read_cache =
            store_read (ttl s) (clock st.upstreams) k (len (J.display result)) result st.read_cache;
      }
    ]

    abbrev pub owner : String → Option ℕ
    owner id = Option.map (λ t. t.upstream_idx) (s.def id)

    abbrev pub is_read : Request → Bool
    is_read r =
        (elim r.tool.read_only [ none ↦ false | some b ↦ b ])
        || (elim r.cache_key [ none ↦ false | some k ↦ true ])

    -- A call that is no read removes what is cached of its upstream, also where it failed.
    unfoldable pub invalidate : Request → State N U → State N U
    invalidate r st =
        if is_read r
        then st
        else record st { read_cache = bust_upstream_cache owner r.tool.upstream_idx st.read_cache }

    -- What a result leaves behind that did not come from the cache.
    unfoldable pub settle : Request → Fetched → State N U → State N U × Value
    unfolding feed_breaker follow_pages cache_result invalidate
    settle r f st =
        let is_error = is_error_result f.result in
        let fed = feed_breaker r is_error f.was_probe st in
        let (st', result, partial_pages) = follow_pages r is_error f.result fed in
        (invalidate r (cache_result r (is_error_result result) partial_pages result st'), result)
