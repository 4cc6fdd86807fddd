-- ===== src/Dispatch/Paging.antt =====
-- src/surface/dispatch.rs, `paginate`: the loop over the pages of a list and the merged result.
-- The loop runs while fewer than `max_pages` pages are read, so it recurs on the number that is left.
use mathlib.Core.Option
use min_mcp.Prelude.{
  ℕ, zero, suc, ◌+◌, ◌-◌, ◌<>◌, Bool, true, false, ◌||◌, Option, none, some, if◌then◌else◌,
  unwrap_or, show, is_empty,
}
use min_mcp.Json.{
  Value, bool, array, Items, nil, cons, MapOps, as_array, as_bool, as_str, is_null, modify,
}
use min_mcp.AuditChain.{JsonText}
use min_mcp.Preflight.{Comparing}
use min_mcp.Project.{set, on_fields}
use min_mcp.Patch.{push}
use min_mcp.Results.{get_path, result_payload, is_error_result}
use min_mcp.Results.Shape.{transform_result}
use min_mcp.Config.{Paginate}
use min_mcp.Dispatch.{Reply, replied, timed_out, failed, text_block}

abbrev pub append_items : Items → Items → Items
append_items nil ys = ys
append_items (cons x xs) ys = cons x (append_items xs ys)

abbrev pub count_items : Items → ℕ
count_items nil = 0
count_items (cons x xs) = suc (count_items xs)

abbrev pub no_items : Items → Bool
no_items nil = true
no_items (cons x xs) = false

unfoldable pub page_items : Paginate → Value → Items
page_items p payload = unwrap_or (Option.bind (get_path payload p.items) as_array) nil

-- The gate `more`, where there is one.
unfoldable pub is_more : Paginate → Value → Bool
is_more p payload = elim p.more [
  | none ↦ true
  | some mf ↦ unwrap_or (Option.bind (get_path payload mf) as_bool) false
]

abbrev pub is_empty_text : Value → Bool
is_empty_text v = elim (as_str v) [ none ↦ false | some s ↦ is_empty s ]

-- The cursor of the next page, unless it is absent, null or empty.
unfoldable pub next_cursor : Paginate → Value → Option Value
next_cursor p payload = elim (get_path payload p.cursor) [
  | none ↦ none
  | some c ↦ if is_null c || is_empty_text c then none else some c
]

-- Is it the cursor of the page before?
unfoldable pub is_stuck : Comparing → Option Value → Value → Bool
is_stuck E none cursor = false
is_stuck E (some prev) cursor = E.value_eq prev cursor

-- The cursor to go on with, or none where the loop breaks before it calls.
unfoldable pub go_on : Comparing → Paginate → Value → Option Value → Option Value
unfolding is_more next_cursor is_stuck
go_on E p payload prev =
    if is_more p payload
    then elim (next_cursor p payload) [
      | none ↦ none
      | some c ↦ if is_stuck E prev c then none else some c
    ]
    else none

pub record Pages : Type 0 where
  pub items : Items
  pub pages : ℕ
  pub partial_error : Bool

module _ {U : Type 0} (J : JsonText) (E : Comparing) ⦃M : MapOps⦄ (call : Value → U → U × Reply)
    (from_spec : Bool) (p : Paginate) where
  -- The page of a reply: none where the reply is a failure, of whatever shape.
  unfoldable pub page_of : Reply → Option Value
  page_of (replied next reach) =
      if is_error_result next then none else some (result_payload J next from_spec)
  page_of timed_out = none
  page_of (failed e) = none

  -- The turns that are left, the arguments, the payload of the last page, its cursor, what is collected.
  unfoldable pub follow : ℕ → Value → Value → Option Value → Items → ℕ → U → U × Pages
  unfolding page_of page_items go_on
  follow zero args payload prev items pages u =
      (u, record { items = items; pages = pages; partial_error = false })
  follow (suc left) args payload prev items pages u = elim (go_on E p payload prev) [
    | none ↦ (u, record { items = items; pages = pages; partial_error = false })
    | some cursor ↦
        let args' : Value = set args p.into cursor in
        let reply : U × Reply = call args' u in
        elim (page_of reply.1) [
          | none ↦ (reply.0, record { items = items; pages = pages; partial_error = true })
          | some next ↦
              if no_items (page_items p next)
              then (reply.0, record { items = items; pages = pages; partial_error = false })
              else follow left args' next (some cursor) (append_items items (page_items p next))
                  (pages + 1) reply.0
        ]
  ]

  -- The items put into the first page's result, its gate closed.
  unfoldable pub merge : Value → Items → Value
  merge first items = transform_result J first from_spec (λ payload.
      let full : Value = set payload p.items (array items) in
      elim p.more [ none ↦ full | some mf ↦ set full mf (bool false) ])

  unfoldable pub with_notice : ℕ → Value → Value
  with_notice pages merged =
      on_fields
        (modify "content" (λ blocks. elim blocks [
          | array bs ↦ array (
              push
                (text_block (
                  "PAGINATION: stopped after "
                  <> show pages
                  <> " page(s) on an upstream error or timeout; the list may be incomplete."))
                bs)
          | other ↦ other
        ]))
        merged

  -- The merged result with the count of pages and items, and whether it is partial.
  unfoldable pub paginate : Value → Value → U → U × Value × Pages
  unfolding follow merge with_notice page_items
  paginate args first u =
      let payload : Value = result_payload J first from_spec in
      let run : U × Pages = follow (p.max_pages - 1) args payload none (page_items p payload) 1 u in
      let merged : Value = merge first run.1.items in
      (run.0, if run.1.partial_error then with_notice run.1.pages merged else merged, run.1)
