-- ===== src/Redirect/Examples.antt =====
-- src/redirect.rs: the theorems on redirects at concrete chains.
use min_mcp.Prelude.{
  ℕ, String, ◌≤◌, refl, [], ◌∷◌, Option, none, some, length, All, ◌=?◌, if◌then◌else◌,
}
use min_mcp.Redirect.{Url, decide, allowed}
use min_mcp.Redirect.Chains.{Hops, none_yet, hop, SafeFrom, Hops-SafeFrom}

known_default : String → Option ℕ
known_default s = if s =? "https" then some 443 else if s =? "http" then some 80 else none

abbrev plain : Url
plain = record { scheme = "http"; host_str = some "api.x.com"; port = none }

abbrev secure : Url
secure = record { scheme = "https"; host_str = some "api.x.com"; port = none }

abbrev explicit : Url
explicit = record { scheme = "https"; host_str = some "api.x.com"; port = some 443 }

abbrev elsewhere : Url
elsewhere = record { scheme = "https"; host_str = some "evil.com"; port = none }

upgraded : Hops known_default plain (secure ∷ [])
unfolding decide allowed known_default
upgraded = hop secure none_yet refl

stayed : Hops known_default secure (explicit ∷ secure ∷ [])
unfolding decide allowed known_default
stayed = hop secure (hop explicit none_yet refl) refl

Hops-SafeFrom_example :
    All (SafeFrom known_default plain) (secure ∷ []) × (length (secure ∷ []) ≤ 10)
Hops-SafeFrom_example = Hops-SafeFrom known_default plain (secure ∷ []) upgraded
