-- ===== src/Dispatch.antt =====
-- src/surface/dispatch.rs: the path of one call. Here the surface as the path reads it, the state that it
-- changes, and the arguments and headers of the call before it is sent; the child modules have the calls of
-- the upstream (Sending), the loop over the pages (Paging), the shaping (Answering) and the whole (Flow).
-- The catalog, the secrets, the clock and the upstreams are arguments. A local step takes no time: the clock
-- moves with the upstreams. Latency is not in the event of a call.
pub mod Paging
pub mod Paged
pub mod Sending
pub mod Answering
pub mod Flow
pub mod Gates
pub mod Settled
pub mod Shaped
pub mod Coherent
pub mod Examples
use min_mcp.Prelude.{
  ℕ, ◌+◌, String, ◌<>◌, Bool, true, false, not, ◌&&◌, List, [], ◌∷◌, Option, none, some, any, min,
  ◌*◌, if◌then◌else◌, unwrap_or,
}
use mathlib.Core.Option
use min_mcp.Json.{Value, bool, string, array, object, nil, cons, end, field, MapOps}
use min_mcp.AuditChain.{JsonText}
use min_mcp.Project.{set, set_default}
use min_mcp.Preflight.Decoding.{decode_stringified}
use min_mcp.Visibility
use min_mcp.Breaker.{BreakerState}
use min_mcp.RateLimit
use min_mcp.RateLimit.{Floats, RateLimits}
use min_mcp.Config.{Config, Overlay}
use min_mcp.Generators.{fnv1a, hash_text, resolve_generators}
use min_mcp.Results.{contains_text}
use min_mcp.Workflow.{Reach}
use min_mcp.Cache.{ReadCache, canonical_args}

-- `ToolDef` of upstream.rs
pub record Tool : Type 0 where
  pub upstream_idx : ℕ
  pub name : String
  pub read_only : Option Bool

abbrev pub Headers : Type 0
Headers = List (String × String)

-- The parts of `Surface`, its configuration and the catalog that do not change during a call. `schema` is
-- `resolved_schema`, `resolve_source` is `Secrets::resolve_source`, `args_mac` the keyed digest of a text,
-- `origin` the origin of a tool of an upstream.
pub record Surface : Type 0 where
  pub visibility : Visibility.Config
  pub config : Config
  pub rate_limits : RateLimits
  pub preflight : Bool
  pub read_cache_ttl_s : ℕ
  pub three_tool : Bool
  pub def : String → Option Tool
  pub schema : String → Value
  pub tool_headers : String → Option Headers
  pub user_supplied : String → Headers
  pub from_spec : ℕ → Bool
  pub resolve_source : String → Option String
  pub args_mac : Option (String → String)
  pub jq_run : String → Value → Option Value

-- What is written to the audit log.
pub data Event : Type 0 where
  would_deny : String → List String → Event
  would_rate_limit : String → String → ℕ → Event
  rate_limited : String → String → ℕ → Event
  breaker_open : String → Event
  -- the tool's name, the pages, the items and whether the list is partial
  paginated : String → ℕ → ℕ → Bool → Event
  -- the tool, its upstream, is it an error, is it from the cache, its bytes and the digest of its arguments
  called : String → ℕ → Bool → Bool → ℕ → Option String → Event

pub record State (N : Floats) (U : Type 0) : Type 0 where
  pub limits : RateLimit.Map N
  pub breakers : List (String × BreakerState)
  pub read_cache : ReadCache
  -- the tools of the calls that count for the ranking, the last one first
  pub uses : List String
  pub log : List Event
  pub upstreams : U

-- A call that is refused before anything is sent.
pub data Refusal : Type 0 where
  unknown_tool : String → Refusal
  over_limit : String → ℕ → Refusal
  user_supplied_missing : String → String → Refusal
  preflight_failed : Value → Refusal
  breaker_is_open : ℕ → ℕ → Refusal

-- What an upstream gives back: a result and how far the call got, nothing before the deadline, or an error of the transport.
pub data Reply : Type 0 where
  replied : Value → Reach → Reply
  timed_out : Reply
  failed : String → Reply

unfoldable pub text_block : String → Value
text_block text = object (field "type" (string "text") (field "text" (string text) end))

unfoldable pub text_result : String → Bool → Value
unfolding text_block
text_result text is_error =
    object
      (field "content" (array (cons (text_block text) nil)) (field "isError" (bool is_error) end))

abbrev pub second : ℕ
second = 1_000_000_000

abbrev pub transport_ceiling_s : ℕ
transport_ceiling_s = 120

-- The overlay's `timeout_s`, not above the ceiling, in nanoseconds.
unfoldable pub deadline : Option Overlay → Option ℕ
deadline o = Option.map (λ t. min t transport_ceiling_s * second) (Option.bind o (λ v. v.timeout_s))

unfoldable pub preflight_on : Surface → Option Overlay → Bool
preflight_on s o = unwrap_or (Option.bind o (λ v. v.preflight)) s.preflight

-- The headers from position `i` on; each has a UUID and a time of its own.
unfoldable pub fill_headers : (ℕ → String × ℕ) → String → ℕ → Headers → Headers
fill_headers stamp hash i [] = []
fill_headers stamp hash i ((k, v) ∷ hs) =
    (k, resolve_generators v hash (stamp i).0 (stamp i).1) ∷ fill_headers stamp hash (i + 1) hs

unfoldable pub extra_headers : JsonText → (ℕ → String × ℕ) → Option Headers → Value → Headers
unfolding fill_headers
extra_headers J stamp none arguments = []
extra_headers J stamp (some hs) arguments =
    let hash =
      if any (λ (h : String × String). contains_text "{{hash}}" h.1) hs
      then hash_text (fnv1a (canonical_args J arguments))
      else "" in
    fill_headers stamp hash 0 hs

-- The arguments with the values put in that the agent cannot see, or the field and the source that has none.
pub data Supplied : Type 0 where
  supplied : Value → Supplied
  missing : String → String → Supplied

module _ ⦃M : MapOps⦄ where
  unfoldable pub set_defaults : List (String × Value) → Value → Value
  set_defaults [] arguments = arguments
  set_defaults ((path, val) ∷ ds) arguments = set_defaults ds (set_default arguments path val)

  -- The overlay's defaults, and the texts decoded where preflight is on.
  unfoldable pub prepare : JsonText → Surface → String → Option Overlay → Value → Value
  unfolding set_defaults preflight_on
  prepare J s tool_id o arguments =
      let filled : Value = elim o [
        | none ↦ arguments
        | some v ↦ set_defaults v.defaults arguments
      ] in
      if preflight_on s o then decode_stringified J (s.schema tool_id) filled else filled

  unfoldable pub inject : (String → Option String) → Headers → Value → Supplied
  inject resolve [] arguments = supplied arguments
  inject resolve ((path, source) ∷ us) arguments = elim (resolve source) [
    | none ↦ missing path source
    | some v ↦ inject resolve us (set arguments path (string v))
  ]
