-- ===== src/Redirect.antt =====
-- src/redirect.rs: where a client that carries a credential may be redirected.
-- `reqwest::Url` is not of this repository: a URL is what the module reads of it, and the port that is
-- known for a scheme is a parameter.
pub mod Examples
pub mod Chains
use min_mcp.Prelude.{
  ℕ, String, ◌<>◌, Bool, true, false, not, ◌&&◌, ◌||◌, List, [], ◌∷◌, Option, none, some, ltb, ◌==◌,
  ◌=?◌, if◌then◌else◌, length, unwrap_or, show,
}

pub record Url : Type 0 where
  pub scheme : String
  pub host_str : Option String
  pub port : Option ℕ

-- What reqwest is told: `follow`, `stop` (the 3xx is the answer) or an error.
pub data Action : Type 0 where
  follow stop : Action
  error : String → Action

abbrev pub max_hops : ℕ
max_hops = 10

abbrev pub same_text : Option String → Option String → Bool
same_text none none = true
same_text (some a) (some b) = a =? b
same_text none (some b) = false
same_text (some a) none = false

abbrev pub same_port : Option ℕ → Option ℕ → Bool
same_port none none = true
same_port (some a) (some b) = a == b
same_port none (some b) = false
same_port (some a) none = false

abbrev pub is_none : Option ℕ → Bool
is_none none = true
is_none (some a) = false

module _ (known_default : String → Option ℕ) where
  -- `u.port_or_known_default()`
  abbrev pub port_or_known_default : Url → Option ℕ
  port_or_known_default u = elim u.port [ some p ↦ some p | none ↦ known_default u.scheme ]

  pub allowed : Url → Url → Bool
  allowed from to =
      if not (same_text from.host_str to.host_str)
      then false
      else (let same =
            from.scheme =? to.scheme
            && same_port (port_or_known_default from) (port_or_known_default to) in
          let upgrade =
            from.scheme =? "http" && to.scheme =? "https" && is_none from.port && is_none to.port in
          same || upgrade)

  pub origin : Url → String
  origin u = elim (port_or_known_default u) [
    | some p ↦ u.scheme <> "://" <> unwrap_or u.host_str "" <> ":" <> show p
    | none ↦ u.scheme <> "://" <> unwrap_or u.host_str ""
  ]

  refused : Url → Url → String
  refused start url =
      "refused redirect from "
      <> origin start
      <> " to "
      <> origin url
      <> ": a redirect off the configured origin would carry credentials"

  -- An attempt: the URLs requested so far, the first first, and the one it leads to.
  pub decide : List Url → Url → Action
  unfolding refused
  decide [] url = stop
  decide (start ∷ more) url =
      if ltb max_hops (length (start ∷ more))
      then error "too many redirects (over 10)"
      else if allowed start url
      then follow
      else error (refused start url)
