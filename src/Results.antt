-- ===== src/Results.antt =====
-- src/surface/results.rs: what is read of a tool's result, how it is shaped and how it is cut; `Expect` and
-- `ResponseTransform` are of src/config.rs, `budget_truncate` of src/surface/minify.rs.
-- The jq filter is an argument. The entries of a `HashMap` are listed in the order of the loop.
pub mod Examples
pub mod Expecting
pub mod Shape
use mathlib.Core.Option
use Prim.Native.Char.{code}
use min_mcp.Prelude.{
  ℕ, suc, zero, ◌+◌, ◌-◌, ◌*◌, ◌^◌, String, ◌<>◌, Bool, true, false, not, ◌&&◌, ◌||◌, List, [], ◌∷◌,
  ◌++◌, Option, none, some, ltb, leb, ◌==◌, ◌=?◌, if◌then◌else◌, unwrap_or, split, starts_with,
  is_empty, length, as_bytes, utf8,
}
use min_mcp.Json.{
  Value, null, bool, number, string, array, object, Items, nil, cons, Fields, end, field, MapOps,
  get, get_key, has_key, as_array, as_object, as_str, as_bool, is_null, map_items, modify,
}
use min_mcp.Json.Access.{nth}
use min_mcp.Project.{on_fields, on_items, project, prune, rename, set}
use min_mcp.AuditChain.{JsonText}

abbrev pub first_item : Items → Option Value
first_item nil = none
first_item (cons x xs) = some x

abbrev pub last_item : Items → Option Value
last_item nil = none
last_item (cons x nil) = some x
last_item (cons x (cons y ys)) = last_item (cons y ys)

abbrev pub is_object : Value → Bool
is_object (object m) = true
is_object _ = false

-- `s.strip_suffix(t)`
unfoldable pub strip_text : String → String → Option String
strip_text t String.[] = if is_empty t then some String.[] else none
strip_text t (String.◌∷◌ c s) =
    let rest = strip_text t s in
    if (String.◌∷◌ c s) =? t then some String.[] else Option.map (λ r. String.◌∷◌ c r) rest

-- `s.contains(t)`
unfoldable pub contains_text : String → String → Bool
contains_text t String.[] = is_empty t
contains_text t (String.◌∷◌ c s) = starts_with (String.◌∷◌ c s) t || contains_text t s

abbrev pub usize_mod : ℕ
usize_mod = 2 ^ 64

-- The value of decimal digits after `n`, if they are all digits and it fits a `usize`.
unfoldable pub digits_value : ℕ → String → Option ℕ
digits_value n String.[] = some n
digits_value n (String.◌∷◌ c s) =
    let m = 10 * n + (code c - 48) in
    let rest = digits_value m s in
    if leb 48 (code c) && leb (code c) 57 && ltb m usize_mod then rest else none

-- `s.parse::<usize>().ok()`: one sign `+` is allowed before the digits.
pub parse_usize : String → Option ℕ
unfolding digits_value
parse_usize String.[] = none
parse_usize (String.◌∷◌ c s) =
    if code c == b'+' && not (is_empty s) then digits_value 0 s else digits_value 0 (String.◌∷◌ c s)

unfoldable pub result_text : Value → String
result_text result =
    let blocks = Option.bind (get_key "content" result) as_array in
    unwrap_or (Option.bind (Option.bind (Option.bind blocks first_item) (get_key "text")) as_str) ""

pub is_envelope : Value → Bool
is_envelope parsed = is_object parsed && has_key "status" parsed && has_key "body" parsed

-- One segment of a path.
pub get_segment : String → Value → Option Value
unfolding parse_usize strip_text
get_segment seg cur = elim (strip_text "[last]" seg) [
  | some key ↦
      if is_empty key
      then Option.bind (as_array cur) last_item
      else Option.bind (Option.bind (get_key key cur) as_array) last_item
  | none ↦ elim cur [
    | object m ↦ get seg m
    | array a ↦ Option.bind (parse_usize seg) (λ i. nth i a)
    | _ ↦ none
  ]
]

unfoldable pub get_segments : List String → Value → Option Value
unfolding get_segment
get_segments [] cur = some cur
get_segments (seg ∷ rest) cur = elim (get_segment seg cur) [
  | none ↦ none
  | some v ↦ get_segments rest v
]

pub get_path : Value → String → Option Value
unfolding get_segments
get_path v path = get_segments (split b'.' path) v

module _ (J : JsonText) where
  pub result_payload : Value → Bool → Value
  unfolding result_text is_envelope
  result_payload result from_spec = elim (J.from_str (result_text result)) [
    | none ↦ string (result_text result)
    | some parsed ↦
        if from_spec && is_envelope parsed
        then elim (unwrap_or (get_key "body" parsed) null) [
          | string body ↦ unwrap_or (J.from_str body) parsed
          | body ↦ body
        ]
        else parsed
  ]

pub record Expect : Type 0 where
  pub status : Option ℕ
  pub is_error : Option Bool
  pub has : List String
  pub missing : List String
  pub containing : Option String

-- The reasons of a check that fails.
pub data Unmet : Type 0 where
  is_error_was : Bool → Bool → Unmet
  status_was : ℕ → Option ℕ → Unmet
  not_found missing_or_null unexpectedly_present : String → Unmet

-- `result.get("isError").and_then(as_bool).unwrap_or(false)`
unfoldable pub is_error_result : Value → Bool
is_error_result result = unwrap_or (Option.bind (get_key "isError" result) as_bool) false

-- Nothing, or null, stands at the path.
pub is_missing : Value → String → Bool
unfolding get_path
is_missing payload p = elim (get_path payload p) [ none ↦ true | some v ↦ is_null v ]

abbrev pub same_bool : Bool → Bool → Bool
same_bool true b = b
same_bool false b = not b

abbrev pub same_number : Option ℕ → ℕ → Bool
same_number none n = false
same_number (some m) n = m == n

unfoldable pub unmet_has : Value → List String → List Unmet
unfolding is_missing
unmet_has payload [] = []
unmet_has payload (p ∷ ps) =
    let rest = unmet_has payload ps in
    if is_missing payload p then missing_or_null p ∷ rest else rest

unfoldable pub unmet_missing : Value → List String → List Unmet
unfolding is_missing
unmet_missing payload [] = []
unmet_missing payload (p ∷ ps) =
    let rest = unmet_missing payload ps in
    if not (is_missing payload p) then unexpectedly_present p ∷ rest else rest

abbrev pub no_paths : List String → Bool
no_paths [] = true
no_paths (p ∷ ps) = false

module _ (J : JsonText) where
  -- The status of a spec backend's envelope.
  pub result_status : Value → Option ℕ
  unfolding result_text
  result_status result =
      Option.bind (Option.bind (J.from_str (result_text result)) (get_key "status")) J.as_u64

  pub unmet_is_error : Value → Option Bool → List Unmet
  unfolding is_error_result
  unmet_is_error result none = []
  unmet_is_error result (some want) =
      if not (same_bool (is_error_result result) want)
      then is_error_was want (is_error_result result) ∷ []
      else []

  pub unmet_status : Value → Option ℕ → List Unmet
  unfolding result_status
  unmet_status result none = []
  unmet_status result (some want) =
      if not (same_number (result_status result) want)
      then status_was want (result_status result) ∷ []
      else []

  pub unmet_contains : Value → Option String → List Unmet
  unfolding result_text contains_text
  unmet_contains result none = []
  unmet_contains result (some sub) =
      if not (contains_text sub (result_text result)) then not_found sub ∷ [] else []

  pub unmet_paths : Value → Bool → Expect → List Unmet
  unfolding result_payload unmet_has unmet_missing
  unmet_paths result from_spec e =
      if not (no_paths e.has) || not (no_paths e.missing)
      then (let payload = result_payload J result from_spec in
          unmet_has payload e.has ++ unmet_missing payload e.missing)
      else []

  pub eval_expect : Value → Bool → Expect → Bool × List Unmet
  unfolding unmet_is_error unmet_status unmet_contains unmet_paths
  eval_expect result from_spec e =
      let fails : List Unmet =
        unmet_is_error result e.is_error
        ++ unmet_status result e.status
        ++ unmet_contains result e.containing
        ++ unmet_paths result from_spec e in
      (elim fails [ [] ↦ true | f ∷ fs ↦ false ], fails)
