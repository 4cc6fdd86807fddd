-- ===== src/Dispatch/Paged.antt =====
-- src/surface/dispatch.rs, `paginate`: how far the loop goes and what it collects.
use min_mcp.Prelude.{
  ℕ, zero, suc, ◌+◌, ◌-◌, ◌≤◌, ◌≡◌, refl, sym, ap, ◌∙◌, ◌<>◌, show, if◌then◌else◌, max, Bool, true,
  false, List, [], ◌∷◌, Option, none, some, arith, Bool-cases, Option-cases, inl, inr, length,
}
use mathlib.Core.Option
use min_mcp.Json.{Value, array, bool, Items, nil, cons, MapOps, get_key}
use min_mcp.AuditChain.{JsonText}
use min_mcp.Preflight.{Comparing}
use min_mcp.Project.{set, on_items}
use min_mcp.Patch.{push}
use min_mcp.Results.Shape.{shape_block}
use min_mcp.Results.Shape.Shaping.{
  object_only, get_key-modify, get_key-modify_ne, structured-transform_result,
  content-transform_result,
}
use min_mcp.Results.{result_payload}
use min_mcp.Config.{Paginate}
use min_mcp.Dispatch.{Reply, text_block}
use min_mcp.Dispatch.Paging.{
  Pages, append_items, no_items, page_items, go_on, page_of, follow, paginate, merge, with_notice,
}

append_items_assoc :
    (a b c : Items) → append_items (append_items a b) c ≡ append_items a (append_items b c)
append_items_assoc nil b c = refl
append_items_assoc (cons x a) b c = cc (append_items_assoc a b c)

append_items-nil : (a : Items) → append_items a nil ≡ a
append_items-nil nil = refl
append_items-nil (cons x a) = cc (append_items-nil a)

module _ {U : Type 0} (J : JsonText) (E : Comparing) ⦃M : MapOps⦄ (call : Value → U → U × Reply)
    (from_spec : Bool) (p : Paginate) where
  -- The items of pages, in their order.
  abbrev pub all_items : List Value → Items
  all_items [] = nil
  all_items (q ∷ ps) = append_items (page_items p q) (all_items ps)

  -- The state of the upstream after some calls.
  pub data After : ℕ → U → U → Type 0 where
    no_call : {u : U} → After zero u u
    one_call : {n : ℕ} {u v : U} (args : Value) → After n (call args u).0 v → After (suc n) u v

  -- The pages read after a page, by the rules of pagination: with so many turns left, the arguments, the
  -- page's payload, its cursor and the state of the upstream; and whether an error ended it.
  pub data Trail : ℕ → Value → Value → Option Value → U → List Value → Bool → Type 0 where
    limit :
        {args payload : Value} {prev : Option Value} {u : U}
        → Trail zero args payload prev u [] false
    ended :
        {left : ℕ} {args payload : Value} {prev : Option Value} {u : U}
        → go_on E p payload prev ≡ none
        → Trail (suc left) args payload prev u [] false
    broken :
        {left : ℕ} {args payload : Value} {prev : Option Value} {u : U} (c : Value)
        → go_on E p payload prev ≡ some c
        → page_of J E call from_spec p (call (set args p.into c) u).1 ≡ none
        → Trail (suc left) args payload prev u [] true
    drained :
        {left : ℕ} {args payload : Value} {prev : Option Value} {u : U} (c next : Value)
        → go_on E p payload prev ≡ some c
        → page_of J E call from_spec p (call (set args p.into c) u).1 ≡ some next
        → no_items (page_items p next) ≡ true
        → Trail (suc left) args payload prev u [] false
    page :
        {left : ℕ} {args payload : Value} {prev : Option Value} {u : U} {ps : List Value} {b : Bool}
        (c next : Value)
        → go_on E p payload prev ≡ some c
        → page_of J E call from_spec p (call (set args p.into c) u).1 ≡ some next
        → no_items (page_items p next) ≡ false
        → Trail left (set args p.into c) next (some c) (call (set args p.into c) u).0 ps b
        → Trail (suc left) args payload prev u (next ∷ ps) b

  abbrev run : ℕ → Value → Value → Option Value → Items → ℕ → U → U × Pages
  run = follow J E call from_spec p

  follow_calls :
      (left : ℕ) (args payload : Value) (prev : Option Value) (items : Items) (pages : ℕ) (u : U)
      → (n : ℕ) × After n u (run left args payload prev items pages u).0
        × (n ≤ left)
        × ((run left args payload prev items pages u).1.pages ≤ pages + n)
        × (pages + n ≤ suc (run left args payload prev items pages u).1.pages)
  unfolding follow
  follow_calls zero args payload prev items pages u =
      (0, no_call, omega arith, omega arith, omega arith)
  follow_calls (suc left) args payload prev items pages u =
      elim (Option-cases (go_on E p payload prev)) [
        | inl e ↦ (0, rw (e, follow) no_call, omega arith, ground (arith, e), ground (arith, e))
        | inr (c, e) ↦
            let args' : Value = set args p.into c in
            elim (Option-cases (page_of J E call from_spec p (call args' u).1)) [
              | inl b ↦ (
                1,
                rw (e, follow) (rw b (one_call args' no_call)),
                omega arith,
                ground (arith, e, b),
                ground (arith, e, b),
              )
              | inr (next, b) ↦ elim (Bool-cases (no_items (page_items p next))) [
                | inl d ↦ (
                  1,
                  rw (e, follow) (rw b (rw d (one_call args' no_call))),
                  omega arith,
                  ground (arith, e, b, d),
                  ground (arith, e, b, d),
                )
                | inr d ↦
                    let (n, a, l, q, q') =
                      follow_calls left args' next (some c) (append_items items (page_items p next))
                        (pages + 1) (call args' u).0 in
                    (
                      suc n,
                      rw (e, follow) (rw b (rw d (one_call args' a))),
                      omega arith,
                      ground (arith, e, b, d, q),
                      ground (arith, e, b, d, q'),
                    )
              ]
            ]
      ]

  -- The upstream is called once for each page after the first, or once more than that: where the last call
  -- gave no page that counts. These are at most `max_pages` less one calls, none where `max_pages` is 0,
  -- and at most `max_pages` pages are read, the first among them, or 1 where `max_pages` is 0.
  pub paginate_calls :
      (args first : Value) (u : U)
      → (n : ℕ) × After n u (paginate J E call from_spec p args first u).0
        × (n ≤ p.max_pages - 1)
        × ((paginate J E call from_spec p args first u).2.pages ≤ suc n)
        × (n ≤ (paginate J E call from_spec p args first u).2.pages)
        × ((paginate J E call from_spec p args first u).2.pages ≤ max p.max_pages 1)
  unfolding paginate
  paginate_calls args first u =
      let payload = result_payload J first from_spec in
      let (n, a, l, q, q') =
        follow_calls (p.max_pages - 1) args payload none (page_items p payload) 1 u in
      (n, a, l, omega (arith, q), omega (arith, q'), omega (arith, l, q))

  follow_trail :
      (left : ℕ) (args payload : Value) (prev : Option Value) (items : Items) (pages : ℕ) (u : U)
      → (ps : List Value) × Trail left args payload prev u ps
          (run left args payload prev items pages u).1.partial_error
        × ((run left args payload prev items pages u).1.items ≡ append_items items (all_items ps))
        × ((run left args payload prev items pages u).1.pages ≡ pages + length ps)
  unfolding follow
  follow_trail zero args payload prev items pages u =
      ([], limit, sym (append_items-nil items), omega arith)
  follow_trail (suc left) args payload prev items pages u =
      elim (Option-cases (go_on E p payload prev)) [
        | inl e ↦ (
          [],
          rw (e, follow) (ended e),
          rw (e, follow) (sym (append_items-nil items)),
          rw (e, follow) (omega arith),
        )
        | inr (c, e) ↦
            let args' : Value = set args p.into c in
            elim (Option-cases (page_of J E call from_spec p (call args' u).1)) [
              | inl b ↦ (
                [],
                rw (e, follow) (rw b (broken c e b)),
                rw (e, follow) (rw b (sym (append_items-nil items))),
                rw (e, follow) (rw b (omega arith)),
              )
              | inr (next, b) ↦ elim (Bool-cases (no_items (page_items p next))) [
                | inl d ↦ (
                  [],
                  rw (e, follow) (rw b (rw d (drained c next e b d))),
                  rw (e, follow) (rw b (rw d (sym (append_items-nil items)))),
                  rw (e, follow) (rw b (rw d (omega arith))),
                )
                | inr d ↦
                    let (ps, t, i, q) =
                      follow_trail left args' next (some c) (append_items items (page_items p next))
                        (pages + 1) (call args' u).0 in
                    (
                      next ∷ ps,
                      rw (e, follow) (rw b (rw d (page c next e b d t))),
                      rw (e, follow)
                          (rw b (
                            rw d
                              (i ∙ append_items_assoc items (page_items p next) (all_items ps)))),
                      rw (e, follow) (rw b (rw d (omega (arith, q)))),
                    )
              ]
            ]
      ]

  -- A payload with the items put where its own stand, its gate closed.
  abbrev pub full : Items → Value → Value
  full items payload =
      let listed : Value = set payload p.items (array items) in
      elim p.more [ none ↦ listed | some gate ↦ set listed gate (bool false) ]

  -- The notice after the other blocks, where the list is partial.
  abbrev pub noticed : Bool → ℕ → Value → Value
  noticed partial pages blocks =
      if partial
      then elim blocks [
        | array bs ↦ array (
            push
              (text_block (
                "PAGINATION: stopped after "
                <> show pages
                <> " page(s) on an upstream error or timeout; the list may be incomplete."))
              bs)
        | other ↦ other
      ]
      else blocks

  structured-paginate :
      (args first : Value) (u : U)
      → let r = paginate J E call from_spec p args first u in
        get_key "structuredContent" r.1
        ≡ object_only (Option.map (full r.2.items) (get_key "structuredContent" first))
  unfolding paginate merge with_notice
  structured-paginate args first u =
      let r = paginate J E call from_spec p args first u in
      let merged = merge J E call from_spec p first r.2.items in
      let kept = structured-transform_result J first from_spec (full r.2.items) in
      elim (Bool-cases r.2.partial_error) [
        | inr e ↦ rw (e, paginate) kept
        | inl e ↦
            rw (e, paginate)
              (get_key-modify_ne "content" "structuredContent" (noticed true r.2.pages) merged refl
                ∙ kept)
      ]

  content-paginate :
      (args first : Value) (u : U)
      → let r = paginate J E call from_spec p args first u in
        get_key "content" r.1
        ≡ Option.map
            (λ blocks.
              noticed r.2.partial_error r.2.pages
                (on_items (shape_block J from_spec (full r.2.items)) blocks))
            (get_key "content" first)
  unfolding paginate merge with_notice
  content-paginate args first u =
      let r = paginate J E call from_spec p args first u in
      let merged = merge J E call from_spec p first r.2.items in
      let kept = content-transform_result J first from_spec (full r.2.items) in
      elim (Bool-cases r.2.partial_error) [
        | inr e ↦ rw (e, paginate) kept
        | inl e ↦
            rw (e, paginate)
              (get_key-modify "content" (noticed true r.2.pages) merged
                ∙ ap (Option.map (noticed true r.2.pages)) kept
                ∙ map_map _ _ (get_key "content" first))
      ]
    where
      map_map :
          (f g : Value → Value) (o : Option Value)
          → Option.map f (Option.map g o) ≡ Option.map (λ x. f (g x)) o
      map_map f g none = refl
      map_map f g (some x) = refl

  -- The result that is returned has the items of the first page and then those of the pages of a trail from
  -- it, in their order: each page is asked for with the cursor of the page before, an error ends the list
  -- and marks it as partial, and without one it ends at the page limit, at a page that names no further
  -- cursor, or where the upstream returns no more items. The items are put into the first result's
  -- structured copy, and into its texts as `shape_block` does, with a notice where the list is partial.
  pub paginate_trail :
      (args first : Value) (u : U)
      → let r = paginate J E call from_spec p args first u in
        (ps : List Value) × Trail
          (p.max_pages - 1)
          args
          (result_payload J first from_spec)
          none
          u
          ps
          r.2.partial_error
        × (let all =
              append_items (page_items p (result_payload J first from_spec)) (all_items ps) in
            (get_key "structuredContent" r.1
              ≡ object_only (Option.map (full all) (get_key "structuredContent" first)))
            × (get_key "content" r.1
                ≡ Option.map
                    (λ blocks.
                      noticed r.2.partial_error
                        (suc (length ps))
                        (on_items (shape_block J from_spec (full all)) blocks))
                    (get_key "content" first))
            × (r.2.items ≡ all)
            × (r.2.pages ≡ suc (length ps)))
  unfolding paginate
  paginate_trail args first u =
      let r = paginate J E call from_spec p args first u in
      let payload = result_payload J first from_spec in
      let (ps, t, i, q) =
        follow_trail (p.max_pages - 1) args payload none (page_items p payload) 1 u in
      let count : r.2.pages ≡ suc (length ps) = omega (arith, q) in
      (
        ps,
        t,
        (
          structured-paginate args first u
              ∙ ap (λ x. object_only (Option.map (full x) (get_key "structuredContent" first))) i,
          content-paginate args first u
              ∙ ap
                  (λ x.
                    Option.map
                      (λ blocks.
                        noticed r.2.partial_error r.2.pages
                          (on_items (shape_block J from_spec (full x)) blocks))
                      (get_key "content" first))
                  i
              ∙ ap
                  (λ n.
                    Option.map
                      (λ blocks. noticed r.2.partial_error n (
                        on_items
                          (shape_block J from_spec
                            (full (append_items (page_items p payload) (all_items ps))))
                          blocks))
                      (get_key "content" first))
                  count,
          i,
          count,
        ),
      )
