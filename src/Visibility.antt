-- ===== src/Visibility.antt =====
-- Which tools a caller sees and may call: `Filters`, `Scopes` and the functions over them of
-- src/config.rs, `Caller` of src/caller.rs, and `allowed` and `may_call` of src/surface.rs.
pub mod Examples
pub mod Patterns
pub mod Filtering
pub mod Granting
use mathlib.Core.Option
use min_mcp.Prelude.{
  ℕ, String, ◌<>◌, Bool, true, false, not, ◌&&◌, ◌||◌, List, [], ◌∷◌, Option, none, some, any, ◌=?◌,
  if◌then◌else◌, starts_with, strip_suffix, contains, unwrap_or,
}

pub record ScopeRule : Type 0 where
  pub scope : String
  pub tools : List String

pub record Scopes : Type 0 where
  pub rules : List ScopeRule
  pub report_only : Bool

pub record Filters : Type 0 where
  pub include : List String
  pub exclude : List String

-- What of `Config` decides on visibility.
pub record Config : Type 0 where
  pub filters : Filters
  pub scopes : Scopes

pub record Caller : Type 0 where
  pub scopes : List String
  pub subject : Option String
  pub origin : Option String

abbrev pub label : Caller → String
label c = unwrap_or c.subject "anonymous"

abbrev pub rate_key : Caller → String
rate_key c = elim c.subject [ some s ↦ s | none ↦ unwrap_or c.origin "anonymous" ]

-- `xs.is_empty()`
abbrev pub no_entries {ℓ} : {A : Type ℓ} → List A → Bool
no_entries [] = true
no_entries (x ∷ xs) = false

pub pattern_match : String → String → Bool
pattern_match pattern value = elim (strip_suffix b'*' pattern) [
  | some prefix ↦ starts_with value prefix
  | none ↦ pattern =? value
]

pub filter_match : String → String → String → Bool
filter_match pattern upstream tool_id =
    if not (contains b'.' pattern) && not (contains b'*' pattern)
    then pattern =? upstream
    else pattern_match pattern tool_id

pub references_upstream : String → String → Bool
references_upstream pattern upstream =
    let core = unwrap_or (strip_suffix b'*' pattern) pattern in
    core =? upstream || starts_with core (upstream <> ".")

pub covers_whole_upstream : String → String → Bool
covers_whole_upstream pattern upstream = pattern =? upstream || pattern =? (upstream <> ".*")

pub passes_filter : Config → String → String → Bool
passes_filter c upstream tool_id =
    let m = λ (p : String). filter_match p upstream tool_id in
    if not (no_entries c.filters.include) && not (any m c.filters.include)
    then false
    else not (any m c.filters.exclude)

pub upstream_enabled : Config → String → Bool
upstream_enabled c upstream =
    if not (no_entries c.filters.include)
      && not (any (λ p. references_upstream p upstream) c.filters.include)
    then false
    else not (any (λ p. covers_whole_upstream p upstream) c.filters.exclude)

-- Does a rule grant the tool to a holder of these scopes?
pub grants : String → List String → ScopeRule → Bool
grants tool_id granted rule =
    any (λ g. g =? rule.scope) granted && any (λ p. pattern_match p tool_id) rule.tools

pub allowed : Config → String → List String → Bool
unfolding grants
allowed c tool_id granted =
    if no_entries c.scopes.rules then true else any (grants tool_id granted) c.scopes.rules

-- `Surface::allowed`: visibility as enforced.
pub is_visible : Config → Caller → String → Bool
is_visible c caller tool_id = c.scopes.report_only || allowed c tool_id caller.scopes

-- An event of the audit log: `would_deny`, with the tool and the caller's scopes.
pub data Event : Type 0 where
  would_deny : String → List String → Event

-- `Surface::may_call`: its answer, and what it writes to the log.
unfoldable pub may_call : Config → Caller → String → Bool × List Event
unfolding allowed
may_call c caller id =
    if not c.scopes.report_only
    then (allowed c id caller.scopes, [])
    else if not (allowed c id caller.scopes)
    then (true, would_deny id caller.scopes ∷ [])
    else (true, [])
