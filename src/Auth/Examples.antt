-- ===== src/Auth/Examples.antt =====
-- src/auth.rs and src/oauth.rs: the theorems at a concrete key set, introspector and token, and runs.
use mathlib.Core.Option
use min_mcp.Prelude.{
  ◌*◌, ◌-◌, ◌≤◌, ◌≡◌, refl, ◌⊎◌, true, false, String, List, [], ◌∷◌, Option, none, some, arith,
  non_empty, ◌=?◌, if◌then◌else◌,
}
use min_mcp.Json.{get, Value, string, bool, object, end, field, get_key, as_bool}
use min_mcp.Auth.{
  second, jwks_min_refresh, ClaimChecks, Jwks, Validation, rs256, validation, key_of, claims_by_set,
  Introspector, cached, active, extract_scopes,
}
use min_mcp.Auth.Refreshing.{fetches, fetches_bound, claims_by_set-ok}
use min_mcp.Auth.Live.{active-true}

extract_scopes_runs :
    extract_scopes (object (field "scope" (string "read  write") end)) "scope"
    ≡ "read" ∷ "write" ∷ []
unfolding extract_scopes get non_empty
extract_scopes_runs = refl

-- Three requests for a refresh in two minutes, of which the second is too early.
fetches_bound_example :
    jwks_min_refresh
      * fetches {K = String}
          (record { keys = []; attempted_at = some 0 })
          (record { time = 60 * second; waits = true; is_busy = false; gives = none }
            ∷ record { time = 90 * second; waits = true; is_busy = false; gives = none }
            ∷ record { time = 120 * second; waits = false; is_busy = false; gives = none }
            ∷ [])
    ≤ 125 * second - 0
fetches_bound_example =
    fetches_bound [] 0 (125 * second)
      (record { time = 60 * second; waits = true; is_busy = false; gives = none }
        ∷ record { time = 90 * second; waits = true; is_busy = false; gives = none }
        ∷ record { time = 120 * second; waits = false; is_busy = false; gives = none }
        ∷ [])
      (omega arith, (omega arith, (omega arith, omega arith)))

-- A decoder that reads a token signed with its key.
abbrev decode_text : String → String → Validation → Option Value
decode_text token key v = if token =? key then some (string token) else none

abbrev header_k1 : String → Option (Option String)
header_k1 token = some (some "k1")

abbrev no_checks : ClaimChecks
no_checks = record { audience = none; issuer = none }

abbrev one_key : Jwks String
one_key = record { keys = ("k1", "alice") ∷ []; attempted_at = some 0 }

-- The source is not asked.
abbrev no_answer : Option (List (String × String))
no_answer = none

claims_by_set-ok_example :
    (kid : String) × (key : String) × (header_k1 "alice" ≡ some (some kid))
    × (key_of kid
          (claims_by_set decode_text header_k1 "alice" no_checks false 5 no_answer no_answer
            one_key).0.keys
        ≡ some key)
    × (decode_text "alice" key (validation rs256 no_checks) ≡ some (string "alice"))
    × (no_answer ≡ none → no_answer ≡ none → key_of kid one_key.keys ≡ some key)
unfolding claims_by_set
claims_by_set-ok_example =
    claims_by_set-ok decode_text header_k1 "alice" no_checks false 5 no_answer no_answer one_key
      (string "alice") refl

abbrev asking : Introspector
asking = record { ttl = 60 * second; fail_open = false; cache = [] }

abbrev says_active : Value
says_active = object (field "active" (bool true) end)

active-true_example :
    (cached asking "d1" 5 ≡ some true)
    ⊎ ((body : Value) × (some says_active ≡ some body)
        × (Option.bind (get_key "active" body) as_bool ≡ some true))
unfolding active Option.bind get
active-true_example = active-true asking "d1" none 0 5 (some says_active) refl refl
