-- ===== src/Config/Valid.antt =====
-- src/config.rs: what `Config::validate` accepts.
use min_mcp.Prelude.{
  ℕ, suc, zero, ◌≤◌, ◌<◌, String, ◌≡◌, true, false, ◌||◌, ◌&&◌, List, [], ◌∷◌, Option, none, some,
  arith, any, ◌=?◌, map, All,
}
use min_mcp.Config.{
  Overlay, Config, ConfigError, UpstreamConfig, AuthConfig, ProtectedResource, Url, validate,
  check_unique, check_kind, check_upstream, check_upstreams, check_in_flight, check_anonymous,
  check_resource, is_some, count_true, has_verifier, duplicate_overlay, duplicate_workflow,
}

-- No text stands in the list twice, and none of `seen` stands in it.
abbrev pub IsFresh : List String → List String → Type 0
IsFresh seen [] = Unit
IsFresh seen (x ∷ xs) = (any (λ s. s =? x) seen ≡ false) × IsFresh (x ∷ seen) xs

-- An upstream of one kind, with what that kind needs.
pub record IsUpstream (up : UpstreamConfig) : Type 0 where
  pub one_kind : count_true (is_some up.command ∷ is_some up.url ∷ is_some up.spec ∷ []) ≡ 1
  pub base : is_some up.spec ≡ true → is_some up.base_url ≡ true
  pub one_credential : is_some up.auth_env && is_some up.api_key ≡ false

unique-IsFresh :
    (e : String → ConfigError) (seen xs : List String)
    → check_unique e seen xs ≡ none
    → IsFresh seen xs
unfolding check_unique
unique-IsFresh e seen [] h = tt
unique-IsFresh e seen (x ∷ xs) h = (ground arith, unique-IsFresh e (x ∷ seen) xs (ground arith))

check_upstream-IsUpstream :
    (seen : List String) (up : UpstreamConfig) → check_upstream seen up ≡ none → IsUpstream up
unfolding check_upstream check_kind
check_upstream-IsUpstream seen up h = record {
  one_kind = ground arith;
  base = λ s. ground (arith, s);
  one_credential = ground arith;
}

check_upstreams-IsUpstream :
    (seen : List String) (ups : List UpstreamConfig)
    → check_upstreams seen ups ≡ none
    → All IsUpstream ups
unfolding check_upstreams
check_upstreams-IsUpstream seen [] h = tt
check_upstreams-IsUpstream seen (up ∷ ups) h = (
  check_upstream-IsUpstream seen up (ground arith),
  check_upstreams-IsUpstream (up.name ∷ seen) ups (ground arith),
)

upstreams-IsFresh :
    (seen : List String) (ups : List UpstreamConfig)
    → check_upstreams seen ups ≡ none
    → IsFresh seen (map (λ (u : UpstreamConfig). u.name) ups)
unfolding check_upstreams check_upstream
upstreams-IsFresh seen [] h = tt
upstreams-IsFresh seen (up ∷ ups) h =
    (ground arith, upstreams-IsFresh (up.name ∷ seen) ups (ground arith))

-- What an accepted configuration is, field by field.
pub record IsValid (max_permits : ℕ) (env : Option String) (c : Config) : Type 0 where
  pub upstreams : All IsUpstream c.upstreams
  pub names : IsFresh [] (map (λ (u : UpstreamConfig). u.name) c.upstreams)
  pub calls : c.max_concurrent_calls ≤ max_permits
  pub body : 0 < c.max_body_bytes
  pub in_flight_positive : 0 < c.max_in_flight
  pub in_flight : c.max_in_flight ≤ max_permits
  pub identity :
      c.auth.allow_anonymous ≡ true
      → has_verifier env c.auth || is_some c.auth.trusted_scopes ≡ true
  pub resource : is_some c.auth.protected_resource ≡ true → has_verifier env c.auth ≡ true
  pub overlays : IsFresh [] (map (λ (o : Overlay). o.tool) c.overlays)
  pub workflows : IsFresh [] c.workflow_ids

in_flight_bounds :
    (max_permits n : ℕ) → check_in_flight max_permits n ≡ none → (0 < n) × (n ≤ max_permits)
unfolding check_in_flight
in_flight_bounds max_permits zero h = absurd (cc)
in_flight_bounds max_permits (suc n) h = ground arith

resource_checked :
    (parse_url : String → Option Url) (max_permits : ℕ) (env : Option String) (a : AuthConfig)
    (r : Option ProtectedResource)
    → check_resource parse_url max_permits env a r ≡ none
    → is_some r ≡ true
    → has_verifier env a ≡ true
unfolding check_resource
resource_checked parse_url max_permits env a none h s = absurd (cc)
resource_checked parse_url max_permits env a (some r) h s = ground arith

module _ (parse_url : String → Option Url) (max_permits : ℕ) (env : Option String) (c : Config)
    (h : validate parse_url max_permits env c ≡ none) where
  upstreams_pass : check_upstreams [] c.upstreams ≡ none
  unfolding validate
  upstreams_pass = ground arith

  in_flight_pass : check_in_flight max_permits c.max_in_flight ≡ none
  unfolding validate
  in_flight_pass = ground arith

  anonymous_pass : check_anonymous env c.auth ≡ none
  unfolding validate
  anonymous_pass = ground arith

  resource_pass : check_resource parse_url max_permits env c.auth c.auth.protected_resource ≡ none
  unfolding validate
  resource_pass = ground arith

  limits_pass : (c.max_concurrent_calls ≤ max_permits) × (0 < c.max_body_bytes)
  unfolding validate
  limits_pass = ground arith

  overlays_pass :
      check_unique duplicate_overlay [] (map (λ (o : Overlay). o.tool) c.overlays) ≡ none
  unfolding validate
  overlays_pass = ground arith

  workflows_pass : check_unique duplicate_workflow [] c.workflow_ids ≡ none
  unfolding validate
  workflows_pass = ground arith

  -- A configuration that passes the checks has upstreams of one kind each with what they need and
  -- different names, both caps on calls within the semaphore's bounds and not zero where zero would
  -- hang, a caller identity where anonymous callers or a protected resource are configured, and at
  -- most one overlay for a tool and one workflow for an id.
  pub validate-IsValid : IsValid max_permits env c
  unfolding check_anonymous
  validate-IsValid = record {
    upstreams = check_upstreams-IsUpstream [] c.upstreams upstreams_pass;
    names = upstreams-IsFresh [] c.upstreams upstreams_pass;
    calls = limits_pass.0;
    body = limits_pass.1;
    in_flight_positive = (in_flight_bounds max_permits c.max_in_flight in_flight_pass).0;
    in_flight = (in_flight_bounds max_permits c.max_in_flight in_flight_pass).1;
    identity = λ a. ground (arith, a, anonymous_pass);
    resource =
        resource_checked parse_url max_permits env c.auth c.auth.protected_resource resource_pass;
    overlays =
        unique-IsFresh duplicate_overlay [] (map (λ (o : Overlay). o.tool) c.overlays)
          overlays_pass;
    workflows = unique-IsFresh duplicate_workflow [] c.workflow_ids workflows_pass;
  }
