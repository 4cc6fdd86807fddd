-- ===== src/Visibility/Examples.antt =====
-- A configuration with both kinds of rules: the theorems on visibility at concrete inputs.
use min_mcp.Prelude.{
  String, ◌≡◌, ◌≢◌, ◌↔◌, ◌⊎◌, refl, true, false, [], ◌∷◌, none, some, strip_suffix, starts_with,
}
use mathlib.Core.Option.{some_inj}
use text.Mathlib.TextLemmas.{cons≢nil}
use min_mcp.Visibility.{
  Config, ScopeRule, Caller, passes_filter, upstream_enabled, allowed, no_entries,
}
use min_mcp.Visibility.Patterns.{Anchors}
use min_mcp.Visibility.Filtering.{star_disables}
use min_mcp.Visibility.Granting.{Granted, allowed_iff}

abbrev billing : ScopeRule
billing = record { scope = "billing"; tools = "stripe.Post*" ∷ "stripe.GetCharges" ∷ [] }

abbrev ops : ScopeRule
ops = record { scope = "ops"; tools = "github.*" ∷ [] }

abbrev shop : Config
shop = record {
  filters = record {
    include = "stripe.Post*" ∷ "github" ∷ [];
    exclude = "stripe.PostRefunds" ∷ [];
  };
  scopes = record { rules = billing ∷ ops ∷ []; report_only = false };
}

abbrev rollout : Config
rollout = record {
  filters = record { include = "*" ∷ []; exclude = [] };
  scopes = record { rules = billing ∷ []; report_only = true };
}

abbrev alice : Caller
alice = record { scopes = "ops" ∷ []; subject = some "alice"; origin = none }

longer : (r : String) → "stripe.Post" ≡ r → starts_with "stripe." r ≢ true
unfolding starts_with
longer r e h = absurd (cc)

anchored_post : Anchors "stripe" "stripe.Post*"
unfolding strip_suffix starts_with
anchored_post r e h = absurd (longer r (some_inj.0 e) h)

anchored_github : Anchors "stripe" "github"
unfolding strip_suffix starts_with
anchored_github r e h = absurd (cc)

star_disables_example :
    (passes_filter rollout "github" "github.GetRepo" ≡ true)
    × (upstream_enabled rollout "github" ≡ false)
star_disables_example = star_disables rollout "github" "github.GetRepo" refl refl cons≢nil

allowed_iff_example :
    (allowed shop "github.GetRepo" ("ops" ∷ []) ≡ true)
    ↔ ((no_entries shop.scopes.rules ≡ true) ⊎ Granted shop "github.GetRepo" ("ops" ∷ []))
allowed_iff_example = allowed_iff shop "github.GetRepo" ("ops" ∷ [])
