-- ===== src/Auth.antt =====
-- src/auth.rs: who a token says the caller is, the key set with its refreshes, and the introspection of a
-- token; src/oauth.rs: the token for an upstream.
-- jsonwebtoken's `decode` and `decode_header`, the fetch of a key set, the answer of an endpoint and ring's
-- digest are arguments. An `Instant` is a number of nanoseconds, and the map of an `RwLock` or a `Mutex` the
-- list of its entries. `busy` is whether another task is fetching when `try_lock` is called.
pub mod Refreshing
pub mod Live
pub mod Examples
use Prim.Native.Char.{code}
use Prim.Native.String.{String}
use mathlib.Core.Option
use min_mcp.Prelude.{
  ℕ, ◌+◌, ◌-◌, ◌*◌, max, Bool, true, false, not, ◌&&◌, List, [], ◌∷◌, Option, none, some, ltb, leb,
  ◌==◌, ◌=?◌, if◌then◌else◌, unwrap_or, is_empty, length, cons_head, non_empty,
}
use min_mcp.Json.{Value, string, array, get_key, as_str, as_bool}
use min_mcp.Preflight.{strings}
use min_mcp.Visibility.{Caller}
use min_mcp.Config.{is_whitespace}

abbrev pub second : ℕ
second = 1_000_000_000

abbrev pub jwks_min_refresh : ℕ
jwks_min_refresh = 60 * second

abbrev pub jwks_max_age : ℕ
jwks_max_age = 600 * second

abbrev pub introspection_cache_max : ℕ
introspection_cache_max = 4096

pub record ClaimChecks : Type 0 where
  pub audience : Option String
  pub issuer : Option String

pub data Algorithm : Type 0 where
  hs256 rs256 : Algorithm

-- What jsonwebtoken is asked to validate besides the signature and `exp`: no audience is not checked.
pub record Validation : Type 0 where
  pub algorithm : Algorithm
  pub audience : Option String
  pub issuer : Option String
  pub required_claims : List String

abbrev claim_if : String → Option String → List String → List String
claim_if name none required = required
claim_if name (some v) required = name ∷ required

unfoldable pub validation : Algorithm → ClaimChecks → Validation
validation alg checks = record {
  algorithm = alg;
  audience = checks.audience;
  issuer = checks.issuer;
  required_claims = claim_if "iss" checks.issuer (claim_if "aud" checks.audience ("exp" ∷ []));
}

-- `s.split_whitespace()`
unfoldable pub words : String → List String
unfolding is_whitespace
words String.[] = String.[] ∷ []
words (String.◌∷◌ c s) =
    let rest = words s in if is_whitespace (code c) then String.[] ∷ rest else cons_head c rest

unfoldable pub trim_start : String → String
unfolding is_whitespace
trim_start String.[] = String.[]
trim_start (String.◌∷◌ c s) =
    let rest = trim_start s in if is_whitespace (code c) then rest else String.◌∷◌ c s

unfoldable pub trim_end : String → String
unfolding is_whitespace
trim_end String.[] = String.[]
trim_end (String.◌∷◌ c s) =
    let rest = trim_end s in
    if is_empty rest && is_whitespace (code c) then String.[] else String.◌∷◌ c rest

unfoldable pub extract_scopes : Value → String → List String
unfolding words
extract_scopes claims claim = elim (get_key claim claims) [
  | none ↦ []
  | some v ↦ elim v [ string s ↦ non_empty (words s) | array a ↦ strings a | _ ↦ [] ]
]

-- A set of keys by their id. Where it is fetched from a URL, `attempted_at` is the last attempt.
pub record Jwks (K : Type 0) : Type 0 where
  pub keys : List (String × K)
  pub attempted_at : Option ℕ

pub data JwtVerifier (K : Type 0) : Type 0 where
  shared_secret public_key : K → JwtVerifier K
  key_set : Jwks K → JwtVerifier K

pub data AuthError : Type 0 where
  unreadable_header no_kid not_valid : AuthError
  unknown_kid : String → AuthError

pub data Checked (A : Type 0) : Type 0 where
  ok : A → Checked A
  err : AuthError → Checked A

module _ {K : Type 0} where
  abbrev pub key_of : String → List (String × K) → Option K
  key_of kid [] = none
  key_of kid ((j, k) ∷ keys) = if j =? kid then some k else key_of kid keys

  -- Is there a source, not asked within the floor, and no other task that is asking it?
  unfoldable pub may_fetch : Bool → Bool → ℕ → Jwks K → Bool
  may_fetch wait busy now set = elim set.attempted_at [
    | none ↦ false
    | some at ↦ if busy && not wait then false else leb jwks_min_refresh (now - at)
  ]

  -- `fetched` is what the source gives if it is asked.
  unfoldable pub refresh : Bool → Bool → ℕ → Option (List (String × K)) → Jwks K → Jwks K
  unfolding may_fetch
  refresh wait busy now fetched set =
      if may_fetch wait busy now set
      then record { keys = unwrap_or fetched set.keys; attempted_at = some now }
      else set

  abbrev pub is_old : ℕ → Jwks K → Bool
  is_old now set = elim set.attempted_at [ none ↦ false | some at ↦ ltb jwks_max_age (now - at) ]

  -- The set after a refresh for its age.
  unfoldable pub aged : Bool → ℕ → Option (List (String × K)) → Jwks K → Jwks K
  unfolding refresh
  aged busy now fetched set = if is_old now set then refresh false busy now fetched set else set

  -- The set after a key is looked up: one that is not there is a reason to refresh.
  unfoldable pub looked_up : String → Bool → ℕ → Option (List (String × K)) → Jwks K → Jwks K
  unfolding refresh
  looked_up kid busy now fetched set = elim (key_of kid set.keys) [
    | some k ↦ set
    | none ↦ refresh true busy now fetched set
  ]

  module _ (decode : String → K → Validation → Option Value)
      (header : String → Option (Option String)) where
    unfoldable pub verify : String → Algorithm → K → ClaimChecks → Checked Value
    unfolding validation
    verify token alg key checks = elim (decode token key (validation alg checks)) [
      | none ↦ err not_valid
      | some claims ↦ ok claims
    ]

    -- The set after a validation with it, and its result. `first` and `next` are what the source gives.
    unfoldable pub claims_by_set :
        String
        → ClaimChecks
        → Bool
        → ℕ
        → Option (List (String × K))
        → Option (List (String × K))
        → Jwks K
        → Jwks K × Checked Value
    unfolding verify aged looked_up
    claims_by_set token checks busy now first next set = elim (header token) [
      | none ↦ (set, err unreadable_header)
      | some h ↦ elim h [
        | none ↦ (set, err no_kid)
        | some kid ↦
            let after = looked_up kid busy now next (aged busy now first set) in
            elim (key_of kid after.keys) [
              | none ↦ (after, err (unknown_kid kid))
              | some key ↦ (after, verify token rs256 key checks)
            ]
      ]
    ]

    unfoldable pub claims :
        String
        → ClaimChecks
        → Bool
        → ℕ
        → Option (List (String × K))
        → Option (List (String × K))
        → JwtVerifier K
        → JwtVerifier K × Checked Value
    unfolding claims_by_set trim_start trim_end
    claims text checks busy now first next verifier =
        let token = trim_start (trim_end text) in
        elim verifier [
          | shared_secret k ↦ (shared_secret k, verify token hs256 k checks)
          | public_key k ↦ (public_key k, verify token rs256 k checks)
          | key_set set ↦
              let (after, result) = claims_by_set token checks busy now first next set in
              (key_set after, result)
        ]

-- The caller that a validated token identifies.
unfoldable pub caller : String → String → Value → Caller
unfolding extract_scopes
caller scope_claim subject_claim c = record {
  scopes = extract_scopes c scope_claim;
  subject = Option.bind (get_key subject_claim c) as_str;
  origin = none;
}

-- The verdicts by the digest of the token.
abbrev pub Verdicts : Type 0
Verdicts = List (String × ℕ × Bool)

pub record Introspector : Type 0 where
  pub ttl : ℕ
  pub fail_open : Bool
  pub cache : Verdicts

-- An answer of the endpoint: none where it is not reached, is no success or is unreadable.
pub data Liveness : Type 0 where
  live : Bool → Liveness
  unreachable : Liveness

abbrev pub find_verdict : String → Verdicts → Option (ℕ × Bool)
find_verdict k [] = none
find_verdict k ((j, at, b) ∷ c) = if j =? k then some (at, b) else find_verdict k c

abbrev pub put_verdict : String → ℕ → Bool → Verdicts → Verdicts
put_verdict k at b [] = (k, at, b) ∷ []
put_verdict k at b ((j, at', b') ∷ c) =
    if j =? k then (j, at, b) ∷ c else (j, at', b') ∷ put_verdict k at b c

abbrev pub retain_fresh : ℕ → ℕ → Verdicts → Verdicts
retain_fresh ttl now [] = []
retain_fresh ttl now ((j, at, b) ∷ c) =
    if ltb (now - at) ttl then (j, at, b) ∷ retain_fresh ttl now c else retain_fresh ttl now c

unfoldable pub cached : Introspector → String → ℕ → Option Bool
cached i key now = elim (find_verdict key i.cache) [
  | none ↦ none
  | some (at, b) ↦ if ltb (now - at) i.ttl then some b else none
]

-- `unix_now` is the time in seconds since 1970, against which the token's `exp` is read.
unfoldable pub remember : Introspector → String → Bool → Option ℕ → ℕ → ℕ → Introspector
remember i key b exp unix_now now =
    let kept = retain_fresh i.ttl now i.cache in
    let room : Verdicts =
      if leb introspection_cache_max (length i.cache)
      then (if leb introspection_cache_max (length kept) then [] else kept)
      else i.cache in
    if (elim exp [ none ↦ false | some e ↦ leb e unix_now ])
    then i
    else record i { cache = put_verdict key now b room }

-- `active` of the body of a success
unfoldable pub liveness_of : Option Value → Liveness
liveness_of none = unreachable
liveness_of (some body) = live (unwrap_or (Option.bind (get_key "active" body) as_bool) false)

-- The state after, and whether the token is live: none where that is not known and not taken for granted.
unfoldable pub active :
    Introspector → String → Option ℕ → ℕ → ℕ → Option Value → Introspector × Option Bool
unfolding cached remember liveness_of
active i key exp unix_now now reply = elim (cached i key now) [
  | some hit ↦ (i, some hit)
  | none ↦ elim (liveness_of reply) [
    | live b ↦ (remember i key b exp unix_now now, some b)
    | unreachable ↦ (i, if i.fail_open then some true else none)
  ]
]

-- The token for an upstream and when it stops being usable.
abbrev pub Bearer : Type 0
Bearer = Option (String × ℕ)

unfoldable pub current : ℕ → Bearer → Option String
current now none = none
current now (some (token, expiry)) = if ltb now expiry then some token else none

unfoldable pub parse_token_response : (Value → Option ℕ) → Value → Option (String × ℕ)
parse_token_response as_u64 body =
    Option.map (λ token. (token, unwrap_or (Option.bind (get_key "expires_in" body) as_u64) 3600))
      (Option.bind (get_key "access_token" body) as_str)

-- `reply` is the body of the token endpoint's answer, if it is asked and succeeds.
unfoldable pub bearer : (Value → Option ℕ) → ℕ → Option Value → Bearer → Bearer × Option String
unfolding current parse_token_response
bearer as_u64 now reply held = elim (current now held) [
  | some token ↦ (held, some token)
  | none ↦ elim (Option.bind reply (parse_token_response as_u64)) [
    | none ↦ (held, none)
    | some (token, ttl) ↦ (some (token, now + max (ttl - 60) 1 * second), some token)
  ]
]
