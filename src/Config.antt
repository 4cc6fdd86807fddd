-- ===== src/Config.antt =====
-- src/config.rs: the checks of a configuration that the deserializer cannot express (`Config::validate`),
-- and the overlay of a tool (`index_overlays`, `overlay_for`, `error_hints_for`).
-- A record has the fields that the modelled code reads. A `HashSet` is the list of what was put in; the
-- overlay index, a `HashMap`, is the list of its insertions, the last one first.
-- `Url::parse`, tokio's bound on permits and the variable MINMCP_JWT_SECRET are arguments.
pub mod Valid
pub mod Index
pub mod Examples
use mathlib.Core.Option
use Prim.Native.Char.{code}
use min_mcp.Prelude.{
  ℕ, zero, suc, ◌+◌, String, Bool, true, false, not, ◌&&◌, ◌||◌, List, [], ◌∷◌, ◌++◌, Option, none,
  some, any, ltb, leb, ◌==◌, ◌=?◌, if◌then◌else◌, is_empty, map,
}
use min_mcp.Json.{Value}
use min_mcp.Visibility.{no_entries}
use min_mcp.Breaker.{Breaker}
use min_mcp.RateLimit.{Limit}
use min_mcp.Results.Shape.{ResponseTransform}

pub record Paginate : Type 0 where
  pub items : String
  pub cursor : String
  pub into : String
  pub more : Option String
  pub max_pages : ℕ

pub record ErrorHint : Type 0 where
  pub containing : String
  pub hint : String
  pub at_field : Option String
  pub retryable : Option Bool

pub record Overlay : Type 0 where
  pub tool : String
  pub defaults : List (String × Value)
  pub error_hints : List ErrorHint
  pub response : ResponseTransform
  pub paginate : Option Paginate
  pub preflight : Option Bool
  pub cacheable : Option Bool
  pub timeout_s : Option ℕ
  pub rate_limit : Option Limit
  pub breaker : Option Breaker

pub record UpstreamConfig : Type 0 where
  pub name : String
  pub command : Option String
  pub url : Option String
  pub spec : Option String
  pub base_url : Option String
  pub auth_env : Option String
  pub api_key : Option String

pub record VaultAuth : Type 0 where
  pub approle : Bool
  pub kubernetes : Bool

pub record ProtectedResource : Type 0 where
  pub resource : String
  pub authorization_servers : List String

pub record AuthConfig : Type 0 where
  pub jwt_secret : Option String
  pub jwt_public_key : Option String
  pub jwt_public_key_file : Option String
  pub jwks_url : Option String
  pub allow_anonymous : Bool
  pub protected_resource : Option ProtectedResource
  -- `trusted_headers.scopes`
  pub trusted_scopes : Option String

pub record Config : Type 0 where
  pub upstreams : List UpstreamConfig
  pub vault : Option VaultAuth
  pub auth : AuthConfig
  pub max_concurrent_calls : ℕ
  pub max_body_bytes : ℕ
  pub max_in_flight : ℕ
  pub overlays : List Overlay
  pub overlay_index : List (String × ℕ)
  pub error_hints : List ErrorHint
  pub workflow_ids : List String

-- What `reqwest::Url::parse` gives, as far as it is read.
pub record Url : Type 0 where
  pub scheme : String
  pub fragment : Option String

pub data ConfigError : Type 0 where
  duplicate_upstream no_kind many_kinds needs_base_url two_credentials : String → ConfigError
  two_vault_logins no_scopes_header : ConfigError
  too_many_calls too_many_in_flight : ℕ → ConfigError
  no_body_bytes no_in_flight anonymous_without_identity resource_without_verifier : ConfigError
  resource_not_url : String → ConfigError
  resource_not_http no_issuer : ConfigError
  duplicate_overlay duplicate_workflow : String → ConfigError

abbrev pub is_some {ℓ} : {A : Type ℓ} → Option A → Bool
is_some none = false
is_some (some a) = true

-- `bail!` unless the check before it has failed.
infixr 6 ◌then◌
abbrev pub ◌then◌ : Option ConfigError → Option ConfigError → Option ConfigError
none then later = later
some e then later = some e

abbrev pub bail_if : Bool → ConfigError → Option ConfigError
bail_if true e = some e
bail_if false e = none

-- `char::is_whitespace`
unfoldable pub is_whitespace : ℕ → Bool
is_whitespace c =
    leb 9 c && leb c 13
    || c == 0x20
    || c == 0x85
    || c == 0xa0
    || c == 0x1680
    || leb 0x2000 c && leb c 0x200a
    || c == 0x2028
    || c == 0x2029
    || c == 0x202f
    || c == 0x205f
    || c == 0x3000

-- `s.trim().is_empty()`
pub is_blank : String → Bool
unfolding is_whitespace
is_blank String.[] = true
is_blank (String.◌∷◌ c s) = is_whitespace (code c) && is_blank s

-- `Auth::secret`; the first argument is the variable MINMCP_JWT_SECRET.
pub secret : Option String → AuthConfig → Option String
secret none a = a.jwt_secret
secret (some s) a = some s

pub has_verifier : Option String → AuthConfig → Bool
unfolding secret
has_verifier env a =
    is_some a.jwks_url
    || is_some a.jwt_public_key
    || is_some a.jwt_public_key_file
    || is_some (secret env a)

abbrev pub is_spec : UpstreamConfig → Bool
is_spec up = is_some up.spec

-- `kinds.iter().filter(|k| **k).count()`
abbrev pub count_true : List Bool → ℕ
count_true [] = 0
count_true (true ∷ bs) = suc (count_true bs)
count_true (false ∷ bs) = count_true bs

pub check_kind : UpstreamConfig → Option ConfigError
check_kind up = elim (count_true (is_some up.command ∷ is_some up.url ∷ is_some up.spec ∷ [])) [
  | zero ↦ some (no_kind up.name)
  | suc n ↦ elim n [ zero ↦ none | suc m ↦ some (many_kinds up.name) ]
]

pub check_upstream : List String → UpstreamConfig → Option ConfigError
unfolding check_kind
check_upstream seen up =
    bail_if (any (λ s. s =? up.name) seen) (duplicate_upstream up.name)
    then check_kind up
    then bail_if (is_spec up && not (is_some up.base_url)) (needs_base_url up.name)
    then bail_if (is_some up.auth_env && is_some up.api_key) (two_credentials up.name)

pub check_upstreams : List String → List UpstreamConfig → Option ConfigError
unfolding check_upstream
check_upstreams seen [] = none
check_upstreams seen (up ∷ ups) = check_upstream seen up then check_upstreams (up.name ∷ seen) ups

-- A name that was seen before is an error.
pub check_unique : (String → ConfigError) → List String → List String → Option ConfigError
check_unique e seen [] = none
check_unique e seen (x ∷ xs) =
    bail_if (any (λ s. s =? x) seen) (e x) then check_unique e (x ∷ seen) xs

pub check_vault : Option VaultAuth → Option ConfigError
check_vault none = none
check_vault (some v) = bail_if (v.approle && v.kubernetes) two_vault_logins

pub check_trusted : Option String → Option ConfigError
unfolding is_blank
check_trusted none = none
check_trusted (some scopes) = bail_if (is_blank scopes) no_scopes_header

pub check_in_flight : ℕ → ℕ → Option ConfigError
check_in_flight max_permits zero = some no_in_flight
check_in_flight max_permits (suc n) = bail_if (ltb max_permits (suc n)) (too_many_in_flight (suc n))

pub check_anonymous : Option String → AuthConfig → Option ConfigError
unfolding has_verifier
check_anonymous env a =
    bail_if (a.allow_anonymous && not (has_verifier env a) && not (is_some a.trusted_scopes))
      anonymous_without_identity

abbrev pub is_http : Url → Bool
is_http url = not (is_some url.fragment) && (url.scheme =? "https" || url.scheme =? "http")

module _ (parse_url : String → Option Url) (max_permits : ℕ) (env : Option String) where
  pub check_resource : AuthConfig → Option ProtectedResource → Option ConfigError
  unfolding has_verifier
  check_resource a none = none
  check_resource a (some pr) =
      bail_if (not (has_verifier env a)) resource_without_verifier
      then (elim (parse_url pr.resource) [
        | none ↦ some (resource_not_url pr.resource)
        | some url ↦
            bail_if (not (is_http url)) resource_not_http
            then bail_if (no_entries pr.authorization_servers) no_issuer
      ])

  unfoldable pub validate : Config → Option ConfigError
  unfolding check_upstreams check_vault check_trusted check_in_flight check_anonymous check_resource
      check_unique
  validate c =
      check_upstreams [] c.upstreams
      then check_vault c.vault
      then check_trusted c.auth.trusted_scopes
      then bail_if (ltb max_permits c.max_concurrent_calls) (too_many_calls c.max_concurrent_calls)
      then bail_if (c.max_body_bytes == 0) no_body_bytes
      then check_in_flight max_permits c.max_in_flight
      then check_anonymous env c.auth
      then check_resource c.auth c.auth.protected_resource
      then check_unique duplicate_overlay [] (map (λ (o : Overlay). o.tool) c.overlays)
      then check_unique duplicate_workflow [] c.workflow_ids

-- The index after the overlays from position `i` on were put in.
pub index_from : ℕ → List Overlay → List (String × ℕ) → List (String × ℕ)
index_from i [] index = index
index_from i (o ∷ os) index = index_from (i + 1) os ((o.tool, i) ∷ index)

pub index_overlays : Config → Config
unfolding index_from
index_overlays c = record c { overlay_index = index_from 0 c.overlays [] }

-- `overlay_index.get(tool_id)`
unfoldable pub indexed : String → List (String × ℕ) → Option ℕ
indexed tool_id [] = none
indexed tool_id ((t, i) ∷ index) = if t =? tool_id then some i else indexed tool_id index

unfoldable pub nth_overlay : ℕ → List Overlay → Option Overlay
nth_overlay i [] = none
nth_overlay zero (o ∷ os) = some o
nth_overlay (suc i) (o ∷ os) = nth_overlay i os

-- `overlays.iter().find(|o| o.tool == tool_id)`
unfoldable pub find_overlay : String → List Overlay → Option Overlay
find_overlay tool_id [] = none
find_overlay tool_id (o ∷ os) = if o.tool =? tool_id then some o else find_overlay tool_id os

unfoldable pub overlay_for : Config → String → Option Overlay
unfolding indexed nth_overlay find_overlay
overlay_for c tool_id =
    if not (no_entries c.overlay_index)
    then Option.bind (indexed tool_id c.overlay_index) (λ i. nth_overlay i c.overlays)
    else find_overlay tool_id c.overlays

unfoldable pub error_hints_for : Config → String → List ErrorHint
unfolding overlay_for
error_hints_for c tool_id =
    c.error_hints ++ (elim (overlay_for c tool_id) [ none ↦ [] | some o ↦ o.error_hints ])
