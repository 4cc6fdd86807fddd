-- ===== src/Visibility/Filtering.antt =====
-- src/config.rs: `passes_filter` against `upstream_enabled`, which decides whether a backend is
-- started at all.
use min_mcp.Prelude.{
  String, ◌<>◌, ◌≡◌, ◌≢◌, refl, inl, inr, ◌⊎◌, ◌↔◌, true, false, [], ◌∷◌, arith, Bool-cases, At,
  All, any, any-At, At-any, All-At, contains, eq_iff, starts_with, strip_suffix,
}
use text.Mathlib.TextLemmas.{cons-append}
use min_mcp.Visibility.{
  Config, passes_filter, upstream_enabled, filter_match, references_upstream, covers_whole_upstream,
  no_entries, pattern_match,
}
use min_mcp.Visibility.Patterns.{Anchors, references-filter, filter-covers}

-- Every tool of an upstream that passes the filters finds its upstream enabled, so no backend is
-- skipped that a visible tool needs: for an upstream's name with no `.` and no `*` in it, and
-- wildcards of the include list that do not stand inside that name.
upstream_enabled-passes_filter :
    (c : Config) (up name : String)
    → contains b'.' up ≡ false
    → contains b'*' up ≡ false
    → All (Anchors up) c.filters.include
    → passes_filter c up ((up <> ".") <> name) ≡ true
    → upstream_enabled c up ≡ true
unfolding passes_filter upstream_enabled
upstream_enabled-passes_filter c up name d s a h =
    let id = (up <> ".") <> name in
    let covers = λ (p : String). covers_whole_upstream p up in
    let matches = λ (p : String). filter_match p up id in
    let refers = λ (p : String). references_upstream p up in
    elim (Bool-cases (any covers c.filters.exclude)) [
      | inl e ↦
          let (p, i, k) = any-At covers c.filters.exclude e in
          ground (arith, At-any matches i (filter-covers p up name d s k))
      | inr e ↦ elim (Bool-cases (any matches c.filters.include)) [
        | inl f ↦
            let (p, i, k) = any-At matches c.filters.include f in
            ground (
              arith,
              At-any refers i
                  (references-filter p up name (All-At (Anchors up) c.filters.include a i) k),
            )
        | inr f ↦ ground (arith)
      ]
    ]

-- Whether a tool passes the filters, as a rule: it is on the include list or there is none, and it
-- is not on the exclude list, which wins.
pub record Passes (c : Config) (up id : String) : Type 0 where
  pub included :
      (no_entries c.filters.include ≡ true)
      ⊎ ((p : String) × At p c.filters.include × (filter_match p up id ≡ true))
  pub not_excluded : (p : String) → At p c.filters.exclude → filter_match p up id ≡ false

-- A tool passes the filters exactly if the include list is empty or has a pattern that matches, and
-- no pattern of the exclude list matches.
pub passes_filter_iff :
    (c : Config) (up id : String) → (passes_filter c up id ≡ true) ↔ Passes c up id
unfolding passes_filter
passes_filter_iff c up id =
    let matches = λ (p : String). filter_match p up id in
    (
      λ h. record {
        included = elim (Bool-cases (no_entries c.filters.include)) [
          | inl e ↦ inl e
          | inr e ↦ inr (any-At matches c.filters.include (ground arith))
        ];
        not_excluded = λ p i. elim (Bool-cases (filter_match p up id)) [
          | inl e ↦ absurd (ground (arith, At-any matches i e))
          | inr e ↦ e
        ];
      },
      λ r. elim (Bool-cases (any matches c.filters.exclude)) [
        | inl e ↦
            let (p, i, k) = any-At matches c.filters.exclude e in
            absurd (ground (arith, r.not_excluded p i))
        | inr e ↦ elim (r.included) [
          | inl n ↦ ground (arith)
          | inr (p, i, k) ↦ ground (arith, At-any matches i k)
        ]
      ],
    )

star_matches : (up id : String) → filter_match "*" up id ≡ true
unfolding filter_match contains pattern_match strip_suffix starts_with
star_matches up id = refl

star_refers : (up : String) → up ≢ "" → references_upstream "*" up ≡ false
unfolding references_upstream strip_suffix starts_with
star_refers String.[] n = absurd (n refl)
star_refers (String.◌∷◌ c u) n = ground (arith, eq_iff "" (String.◌∷◌ c u), cons-append c u ".")

-- With the one include pattern `*`, every tool passes the filters and yet no upstream with a name
-- is enabled: the wildcard stands inside the name, where `references_upstream` does not look.
pub star_disables :
    (c : Config) (up id : String)
    → c.filters.include ≡ "*" ∷ []
    → c.filters.exclude ≡ []
    → up ≢ ""
    → (passes_filter c up id ≡ true) × (upstream_enabled c up ≡ false)
unfolding passes_filter upstream_enabled
star_disables c up id e f n = (ground (arith, star_matches up id), ground (arith, star_refers up n))
