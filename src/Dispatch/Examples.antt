-- ===== src/Dispatch/Examples.antt =====
-- src/surface/dispatch.rs: the theorems on a surface with one tool that may write, whose upstream does not
-- answer, and with one tool whose user's value is missing.
use mathlib.Core.Option
use min_mcp.Prelude.{
  ℕ, suc, ◌+◌, ◌≤◌, String, ◌≡◌, ◌⊎◌, inl, here, refl, true, false, List, [], ◌∷◌, none, some, ◌=?◌,
  length, show, if◌then◌else◌, arith,
}
use min_mcp.Json.{
  Value, object, array, string, nil, cons, end, field, get, get_key, map_items, modify,
}
use min_mcp.Json.Entries.{entries, put, without}
use min_mcp.AuditChain.{JsonText}
use min_mcp.Visibility.{Caller, may_call}
use min_mcp.RateLimit.{rate_limited}
use min_mcp.RateLimit.Examples.{whole}
use min_mcp.Preflight.{preflight_error}
use min_mcp.Project.{set, parse_path, on_items, prune, remove_at, remove_last}
use min_mcp.Preflight.Decoding.{decode_stringified}
use min_mcp.Preflight.Examples.{on_texts}
use min_mcp.Results.{is_error_result, result_payload}
use min_mcp.Results.Examples.{text, strip, result}
use min_mcp.Results.Shape.{
  applies, shape_block, shape_structured, transform_result, apply_response_transform,
}
use min_mcp.Results.Shape.Shaping.{object_only}
use min_mcp.Project.Prune.{resolves}
use min_mcp.Config.{Paginate, overlay_for, error_hints_for}
use min_mcp.Config.Examples.{config}
use min_mcp.Cache.{cache_allowed, cached}
use min_mcp.Workflow.{no_answer, answered}
use min_mcp.Dispatch.{
  Tool, Surface, State, Reply, failed, replied, Headers, user_supplied_missing, inject, prepare,
  preflight_on, extra_headers, text_result, supplied, deadline,
}
use min_mcp.Dispatch.Sending.{
  result_of, timeout_of, Call, Request, Fetched, upstream_error_text, fetch, settle, lookup_cached,
}
use min_mcp.Dispatch.Answering.{shape_result, apply_error_hints}
use min_mcp.Dispatch.Flow.{
  Dispatched, finished, dispatch_reach, overlay, charge_limits, logged, finish, mac_of,
}
use min_mcp.Dispatch.Gates.{Untouched, dispatch_refused, dispatch_finished}
use min_mcp.Dispatch.Settled.{IsSound, dispatch-IsSound}
use min_mcp.Dispatch.Coherent.{dispatch_invalidates}
use min_mcp.Dispatch.Paging.{paginate, page_items, append_items}
use min_mcp.Dispatch.Paged.{After, Trail, all_items, full, noticed, paginate_calls, paginate_trail}
use min_mcp.Dispatch.Shaped.{resolves-shape_result}

abbrev charges : Tool
charges = record { upstream_idx = 0; name = "PostCharges"; read_only = none }

abbrev users : String → Headers
users id = if id =? "stripe.Refund" then ("body.key", "env:KEY") ∷ [] else []

abbrev surface : Surface
surface = record {
  visibility = record {
    filters = record { include = []; exclude = [] };
    scopes = record { rules = []; report_only = false };
  };
  config = record config { overlays = [] };
  rate_limits = record { per_caller = none; per_tool = none; report_only = false };
  preflight = false;
  read_cache_ttl_s = 60;
  three_tool = false;
  def = λ id. some charges;
  schema = λ id. object end;
  tool_headers = λ id. none;
  user_supplied = users;
  from_spec = λ i. false;
  resolve_source = λ source. none;
  args_mac = none;
  jq_run = λ p v. none;
}

abbrev start : State whole ℕ
start = record {
  limits = [];
  breakers = [];
  read_cache = (("stripe.GetCharges", "{}"), 0, text_result "three charges" false) ∷ [];
  uses = [];
  log = [];
  upstreams = 0;
}

-- The upstream is down; it counts the calls.
abbrev down : Call ℕ
down i name arguments headers deadline u = (u + 1, failed "closed")

abbrev clock : ℕ → ℕ
clock u = u

abbrev stamp : ℕ → String × ℕ
stamp i = ("0000", 0)

abbrev alice : Caller
alice = record { scopes = []; subject = some "alice"; origin = none }

abbrev run : String → State whole ℕ × Dispatched
run id = dispatch_reach whole clock down text on_texts surface stamp alice id (object end) [] start

dispatch_refused_example : Untouched whole ℕ start (run "stripe.Refund").0
unfolding dispatch_reach may_call rate_limited inject overlay_for Option.bind
dispatch_refused_example =
    dispatch_refused whole clock down text on_texts surface stamp alice "stripe.Refund" (object end)
      [] start (user_supplied_missing "body.key" "env:KEY") refl

dispatch-IsSound_example : IsSound (run "stripe.PostCharges").0.read_cache
unfolding text_result is_error_result get Option.bind
dispatch-IsSound_example =
    dispatch-IsSound whole clock down text on_texts surface stamp alice "stripe.PostCharges"
      (object end) [] start ((refl, tt), omega arith)

abbrev answer : Value
answer = text_result (upstream_error_text "stripe.PostCharges" "closed") true

-- The call reaches the upstream, which does not answer.
run_answers : (run "stripe.PostCharges").1 ≡ finished answer no_answer
unfolding dispatch_reach may_call rate_limited inject cache_allowed overlay_for Option.bind
    preflight_on fetch apply_error_hints error_hints_for shape_result extra_headers is_error_result
    settle get
run_answers = refl

dispatch_invalidates_example :
    cached 60 1 ("stripe.GetCharges", "{}") (run "stripe.PostCharges").0.read_cache ≡ none
unfolding cache_allowed overlay_for Option.bind
dispatch_invalidates_example =
    dispatch_invalidates whole clock down text on_texts surface stamp alice "stripe.PostCharges"
      charges (object end) [] start answer no_answer ("stripe.GetCharges", "{}") 60 1 refl
      (refl, refl) run_answers refl

abbrev keyed : Value
keyed = object (
    field "required" (array (cons (string "key") nil))
      (field "properties" (object (field "key" (object end) end)) end))

-- The tool requires a key, which is the user's, and its arguments are checked.
abbrev guarded : Surface
guarded = record surface {
  preflight = true;
  schema = λ id. keyed;
  user_supplied = λ id. ("key", "env:KEY") ∷ [];
  resolve_source = λ source. some "k1";
}

abbrev charge_id : String
charge_id = "stripe.PostCharges"

guarded_answers :
    (dispatch_reach whole clock down text on_texts guarded stamp alice charge_id
      (object end)
      []
      start).1
    ≡ finished answer no_answer
unfolding dispatch_reach may_call rate_limited inject cache_allowed overlay_for Option.bind
    preflight_on fetch apply_error_hints error_hints_for shape_result extra_headers is_error_result
    settle get preflight_error prepare set parse_path decode_stringified put modify
guarded_answers = refl

dispatch_finished_example :
    let st₁ =
      (charge_limits whole clock down text on_texts guarded stamp alice charge_id
        (logged guarded alice charge_id start)).0 in
    (t : Tool) × (r : Request) × (f : Fetched) × (some charges ≡ some t)
    × ((may_call guarded.visibility alice charge_id).0 ≡ true)
    × ((charge_limits whole clock down text on_texts guarded stamp alice charge_id
          (logged guarded alice charge_id start)).1
        ≡ none)
    × (inject
          (λ source. some "k1")
          (("key", "env:KEY") ∷ [])
          (prepare text guarded charge_id
            (overlay whole clock down text on_texts guarded stamp alice charge_id)
            (object end))
        ≡ supplied r.arguments)
    × (preflight_on guarded (overlay whole clock down text on_texts guarded stamp alice charge_id)
          ≡ true
        → preflight_error on_texts keyed r.arguments ≡ none)
    × ((lookup_cached whole clock down guarded r st₁ ≡ some f.result)
        ⊎ (let sent =
              down t.upstream_idx t.name r.arguments r.headers (deadline r.overlay) st₁.upstreams in
            ((fetch whole clock down guarded r st₁).0.upstreams ≡ sent.0)
            × ((f.result, f.reach) ≡ result_of r.tool_id (timeout_of r) sent.1)))
    × (dispatch_reach whole clock down text on_texts guarded stamp alice charge_id
          (object end)
          []
          start
        ≡ finish whole clock down text on_texts guarded stamp alice charge_id r
            (mac_of whole clock down text on_texts guarded stamp alice charge_id (object end))
            []
            f
            (fetch whole clock down guarded r st₁).0)
dispatch_finished_example =
    dispatch_finished whole clock down text on_texts guarded stamp alice charge_id (object end) []
      start answer no_answer guarded_answers

abbrev by_cursor : Paginate
by_cursor = record { items = "data"; cursor = "next"; into = "after"; more = none; max_pages = 3 }

-- A text is a page with that text as its item and as the next cursor.
abbrev paged : JsonText
paged = record text {
  from_str =
      λ s. some (object (field "data" (array (cons (string s) nil)) (field "next" (string s) end)));
}

-- Every page names a cursor of its own, and there is no end of pages.
abbrev endless : Value → ℕ → ℕ × Reply
endless args u = (u + 1, replied (text_result (show u) false) answered)

abbrev first_page : Value
first_page = text_result "first" false

paginate_calls_example :
    (n : ℕ) × After paged on_texts endless false by_cursor n 0
      (paginate paged on_texts endless false by_cursor (object end) first_page 0).0
    × (n ≤ 2)
    × ((paginate paged on_texts endless false by_cursor (object end) first_page 0).2.pages ≤ suc n)
    × (n ≤ (paginate paged on_texts endless false by_cursor (object end) first_page 0).2.pages)
    × ((paginate paged on_texts endless false by_cursor (object end) first_page 0).2.pages ≤ 3)
paginate_calls_example =
    paginate_calls paged on_texts endless false by_cursor (object end) first_page 0

paginate_trail_example :
    let r = paginate paged on_texts endless false by_cursor (object end) first_page 0 in
    (ps : List Value) × Trail paged on_texts endless false by_cursor 2
      (object end)
      (result_payload paged first_page false)
      none
      0
      ps
      r.2.partial_error
    × (let all =
          append_items
            (page_items by_cursor (result_payload paged first_page false))
            (all_items paged on_texts endless false by_cursor ps) in
        (get_key "structuredContent" r.1
          ≡ object_only (
              Option.map
                (full paged on_texts endless false by_cursor all)
                (get_key "structuredContent" first_page)))
        × (get_key "content" r.1
            ≡ Option.map
                (λ blocks.
                  noticed paged on_texts endless false by_cursor r.2.partial_error
                    (suc (length ps))
                    (on_items
                      (shape_block paged false (full paged on_texts endless false by_cursor all))
                      blocks))
                (get_key "content" first_page))
        × (r.2.items ≡ all)
        × (r.2.pages ≡ suc (length ps)))
paginate_trail_example =
    paginate_trail paged on_texts endless false by_cursor (object end) first_page 0

resolves-shape_result_example :
    resolves (parse_path "key") (object (field "id" (string "1") end)) ≡ false
unfolding shape_result transform_result apply_response_transform prune remove_at parse_path get
    modify map_items put without Option.bind shape_structured applies remove_last
resolves-shape_result_example =
    resolves-shape_result text on_texts (λ p v. none) strip [] false true result
      (object (field "id" (string "1") end)) "key" here (λ e. cc) refl refl refl refl (inl refl)
      refl
