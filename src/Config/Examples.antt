-- ===== src/Config/Examples.antt =====
-- src/config.rs: the theorems on a configuration with two upstreams and an overlay.
use min_mcp.Prelude.{String, ◌≡◌, refl, false, [], ◌∷◌, Option, none, some}
use min_mcp.Results.Shape.{ResponseTransform, always}
use min_mcp.Config.{
  Overlay, UpstreamConfig, AuthConfig, Config, Url, validate, index_overlays, overlay_for,
  find_overlay,
}
use min_mcp.Config.Valid.{IsValid, validate-IsValid}
use min_mcp.Config.Index.{overlay_for-index_overlays}

abbrev pub unchanged : ResponseTransform
unchanged = record { keep = []; remove = []; renames = []; sets = []; jq = none; when = always }

abbrev pub overlay_of : String → Overlay
overlay_of tool = record {
  tool = tool;
  defaults = [];
  error_hints = [];
  response = unchanged;
  paginate = none;
  preflight = none;
  cacheable = none;
  timeout_s = some 5;
  rate_limit = none;
  breaker = none;
}

abbrev up : String → UpstreamConfig
up name = record {
  name = name;
  command = some "serve";
  url = none;
  spec = none;
  base_url = none;
  auth_env = none;
  api_key = none;
}

abbrev auth : AuthConfig
auth = record {
  jwt_secret = none;
  jwt_public_key = none;
  jwt_public_key_file = none;
  jwks_url = none;
  allow_anonymous = false;
  protected_resource = none;
  trusted_scopes = none;
}

abbrev pub config : Config
config = record {
  upstreams = up "stripe" ∷ up "github" ∷ [];
  vault = none;
  auth = auth;
  max_concurrent_calls = 64;
  max_body_bytes = 1048576;
  max_in_flight = 256;
  overlays = overlay_of "stripe.PostCharges" ∷ overlay_of "github.issues" ∷ [];
  overlay_index = [];
  error_hints = [];
  workflow_ids = "refund" ∷ [];
}

abbrev no_url : String → Option Url
no_url s = none

validate-IsValid_example : IsValid 1000 none config
unfolding validate
validate-IsValid_example = validate-IsValid no_url 1000 none config refl

overlay_for-index_overlays_example :
    overlay_for (index_overlays config) "github.issues"
    ≡ find_overlay "github.issues" config.overlays
unfolding validate
overlay_for-index_overlays_example =
    overlay_for-index_overlays no_url 1000 none config "github.issues" refl
