-- ===== src/Config/Index.antt =====
-- src/config.rs: the overlay index and the linear scan.
use mathlib.Core.Option
use min_mcp.Prelude.{
  ℕ, suc, ◌+◌, String, ◌≡◌, refl, true, false, inl, inr, List, [], ◌∷◌, Option, none, some, arith,
  any, ◌=?◌, if◌then◌else◌, map, eq_iff, Bool-cases, Option-cases,
}
use min_mcp.Visibility.{no_entries}
use min_mcp.Config.{
  Overlay, Config, ConfigError, index_from, index_overlays, indexed, nth_overlay, find_overlay,
  overlay_for, check_unique, Url, duplicate_overlay, validate,
}

-- Where the first overlay of a tool stands.
position : String → List Overlay → Option ℕ
position id [] = none
position id (o ∷ os) = if o.tool =? id then some 0 else Option.map suc (position id os)

abbrev tools : List Overlay → List String
tools os = map (λ (o : Overlay). o.tool) os

check_unique-step :
    (e : String → ConfigError) (seen : List String) (x : String) (xs : List String)
    → check_unique e seen (x ∷ xs) ≡ none
    → (any (λ s. s =? x) seen ≡ false) × (check_unique e (x ∷ seen) xs ≡ none)
unfolding check_unique
check_unique-step e seen x xs h = ground arith

-- An overlay of a tool that was seen would be an error.
position-none :
    (e : String → ConfigError) (seen : List String) (id : String) (os : List Overlay)
    → check_unique e seen (tools os) ≡ none
    → any (λ s. s =? id) seen ≡ true
    → position id os ≡ none
unfolding position
position-none e seen id [] u h = refl
position-none e seen id (o ∷ os) u h =
    let step = check_unique-step e seen o.tool (tools os) u in
    elim (Bool-cases (o.tool =? id)) [
      | inl same ↦ ground (arith, eq_iff o.tool id, step)
      | inr other ↦
          let rest = position-none e (o.tool ∷ seen) id os step.1 (ground (arith, h)) in
          ground (arith, rest)
    ]

find_overlay-position :
    (id : String) (os : List Overlay)
    → Option.bind (position id os) (λ i. nth_overlay i os) ≡ find_overlay id os
unfolding position nth_overlay find_overlay Option.bind
find_overlay-position id [] = refl
find_overlay-position id (o ∷ os) = elim (Option-cases (position id os)) [
  | inl p ↦ ground (arith, p, find_overlay-position id os)
  | inr (j, p) ↦ ground (arith, p, find_overlay-position id os)
]

indexed-index_from :
    (e : String → ConfigError) (seen : List String) (id : String) (i : ℕ) (os : List Overlay)
    (index : List (String × ℕ))
    → check_unique e seen (tools os) ≡ none
    → indexed id (index_from i os index)
      ≡ (elim (position id os) [ none ↦ indexed id index | some j ↦ some (i + j) ])
unfolding position index_from indexed
indexed-index_from e seen id i [] index u = refl
indexed-index_from e seen id i (o ∷ os) index u =
    let step = check_unique-step e seen o.tool (tools os) u in
    let ih = indexed-index_from e (o.tool ∷ seen) id (i + 1) os ((o.tool, i) ∷ index) step.1 in
    elim (Bool-cases (o.tool =? id)) [
      | inl same ↦
          let gone = position-none e (o.tool ∷ seen) id os step.1 (ground (arith, same)) in
          ground (arith, ih, gone)
      | inr other ↦ ground (arith, ih)
    ]

no_entries-index_from :
    (i : ℕ) (os : List Overlay) (index : List (String × ℕ))
    → no_entries index ≡ false
    → no_entries (index_from i os index) ≡ false
unfolding index_from
no_entries-index_from i [] index h = h
no_entries-index_from i (o ∷ os) index h =
    no_entries-index_from (i + 1) os ((o.tool, i) ∷ index) refl

lookup_all :
    (e : String → ConfigError) (id : String) (os : List Overlay)
    → check_unique e [] (tools os) ≡ none
    → Option.bind (indexed id (index_from 0 os [])) (λ i. nth_overlay i os) ≡ find_overlay id os
unfolding indexed Option.bind
lookup_all e id os u =
    let whole = indexed-index_from e [] id 0 os [] u in
    let found = find_overlay-position id os in
    elim (Option-cases (position id os)) [
      | inl p ↦ ground (arith, p, whole, found)
      | inr (j, p) ↦
          let there_it_is : indexed id (index_from 0 os []) ≡ some j = ground (arith, p, whole) in
          ground (arith, p, there_it_is, found)
    ]

overlay_for-cases :
    (id : String) (e : String → ConfigError) (c : Config) (os : List Overlay)
    → c.overlays ≡ os
    → check_unique e [] (tools os) ≡ none
    → overlay_for (index_overlays c) id ≡ find_overlay id os
unfolding overlay_for index_overlays index_from
overlay_for-cases id e c [] same u = rw same (cc)
overlay_for-cases id e c (o ∷ os) same u =
    let some_entry = no_entries-index_from 1 os ((o.tool, 0) ∷ []) refl in
    rw same (rw some_entry (lookup_all e id (o ∷ os) u))

validate_unique :
    (parse_url : String → Option Url) (max_permits : ℕ) (env : Option String) (c : Config)
    → validate parse_url max_permits env c ≡ none
    → check_unique duplicate_overlay [] (tools c.overlays) ≡ none
unfolding validate
validate_unique parse_url max_permits env c h = ground arith

-- In a configuration that was accepted, the indexed lookup of a tool's overlay gives the first overlay
-- that is listed for the tool, or none.
pub overlay_for-index_overlays :
    (parse_url : String → Option Url) (max_permits : ℕ) (env : Option String) (c : Config)
    (tool_id : String)
    → validate parse_url max_permits env c ≡ none
    → overlay_for (index_overlays c) tool_id ≡ find_overlay tool_id c.overlays
overlay_for-index_overlays parse_url max_permits env c tool_id h =
    overlay_for-cases tool_id duplicate_overlay c c.overlays refl
      (validate_unique parse_url max_permits env c h)
