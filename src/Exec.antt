-- ===== src/Exec.antt =====
-- src/exec.rs: an operation of a spec as an HTTP request, and its response as a result.
-- Sending the request is an argument. What a spec says of an operation's parameters and body (`query_styles`,
-- `body_media_type`) is in the record `Target`. `J` is serde_json's printing and parsing.
pub mod Path
pub mod Headers
pub mod Examples
use Prim.Native.Char.{Char, code}
use Prim.Native.String.{String}
use mathlib.Core.Option
use min_mcp.Prelude.{
  ℕ, zero, suc, ◌+◌, ◌-◌, ◌*◌, ◌/◌, ◌%◌, ◌<>◌, Bool, true, false, not, ◌&&◌, ◌||◌, List, [], ◌∷◌,
  ◌++◌, map, Option, none, some, ltb, leb, ◌==◌, ◌=?◌, if◌then◌else◌, unwrap_or, replace, digit,
  show, utf8, contains, is_empty,
}
use min_mcp.Json.{
  Value, null, bool, number, string, array, object, Items, nil, cons, Fields, end, field, as_object,
  as_str, is_null,
}
use min_mcp.AuditChain.{JsonText}
use min_mcp.Results.{contains_text}

abbrev pub max_response_chars : ℕ
max_response_chars = 2_000_000

-- Letters, digits and `-`, `.`, `_`, `~`.
unfoldable pub is_unreserved : ℕ → Bool
is_unreserved b =
    leb b'A' b && leb b b'Z'
    || leb b'a' b && leb b b'z'
    || leb b'0' b && leb b b'9'
    || b == b'-'
    || b == b'.'
    || b == b'_'
    || b == b'~'

-- The digits of `{b:02X}`.
unfoldable pub upper_digit : ℕ → String
unfolding digit
upper_digit n =
    if n == 10
    then "A"
    else if n == 11
    then "B"
    else if n == 12
    then "C"
    else if n == 13
    then "D"
    else if n == 14
    then "E"
    else if n == 15
    then "F"
    else digit n

unfoldable pub escape : List ℕ → String
unfolding upper_digit
escape [] = ""
escape (b ∷ bs) = "%" <> upper_digit (b / 16) <> upper_digit (b % 16) <> escape bs

-- A character whose byte is unreserved stands for itself; of any other each byte is escaped.
unfoldable pub encode_chars : String → String
unfolding is_unreserved escape
encode_chars String.[] = ""
encode_chars (String.◌∷◌ c s) =
    let rest = encode_chars s in
    if is_unreserved (code c) then String.◌∷◌ c rest else escape (utf8 (code c)) <> rest

unfoldable pub encode_path_segment : String → String
unfolding encode_chars
encode_path_segment s = if s =? "." then "%2E" else if s =? ".." then "%2E%2E" else encode_chars s

abbrev pub Pairs : Type 0
Pairs = List (String × String)

abbrev pub show_bool : Bool → String
show_bool true = "true"
show_bool false = "false"

-- An element's key: `prefix[i]`.
abbrev pub in_brackets : String → String → String
in_brackets prefix k = prefix <> "[" <> k <> "]"

-- A value as form pairs, in Stripe's bracket notation.
mutual
  pub flatten_form : Value → String → Pairs
  flatten_form (object m) prefix = flatten_fields m prefix
  flatten_form (array a) prefix = flatten_items a 0 prefix
  flatten_form (bool b) prefix = (prefix, show_bool b) ∷ []
  flatten_form null prefix = []
  flatten_form (string s) prefix = (prefix, s) ∷ []
  flatten_form (number n) prefix = (prefix, n) ∷ []

  pub flatten_fields : Fields → String → Pairs
  flatten_fields end prefix = []
  flatten_fields (field k v m) prefix =
      flatten_form v (if is_empty prefix then k else in_brackets prefix k)
      ++ flatten_fields m prefix

  pub flatten_items : Items → ℕ → String → Pairs
  flatten_items nil i prefix = []
  flatten_items (cons v a) i prefix =
      flatten_form v (in_brackets prefix (show i)) ++ flatten_items a (i + 1) prefix

pub data QueryStyle : Type 0 where
  repeated deep : QueryStyle
  delimited : String → QueryStyle

pub scalar_str : Value → Option String
scalar_str (string s) = some s
scalar_str (bool b) = some (show_bool b)
scalar_str (number n) = some n
scalar_str v = none

-- `items.iter().map(scalar_str).collect::<Option<Vec<_>>>()`
pub scalars : Items → Option (List String)
unfolding scalar_str
scalars nil = some []
scalars (cons v a) = Option.bind (scalar_str v) (λ s. Option.map (λ ss. s ∷ ss) (scalars a))

-- `vs.join(sep)`
pub join : String → List String → String
join sep [] = ""
join sep (s ∷ []) = s
join sep (s ∷ t ∷ ss) = s <> sep <> join sep (t ∷ ss)

pub serialize_array : String → Items → QueryStyle → Pairs
unfolding flatten_form scalars join
serialize_array key items deep = flatten_form (array items) key
serialize_array key items repeated = elim (scalars items) [
  | none ↦ flatten_form (array items) key
  | some vs ↦ map (λ v. (key, v)) vs
]
serialize_array key items (delimited sep) = elim (scalars items) [
  | none ↦ flatten_form (array items) key
  | some vs ↦ (key, join sep vs) ∷ []
]

pub serialize_query : String → Value → QueryStyle → Pairs
unfolding serialize_array
serialize_query key (array items) style = serialize_array key items style
serialize_query key (object m) style = flatten_form (object m) key
serialize_query key null style = []
serialize_query key scalar style = elim (scalar_str scalar) [ none ↦ [] | some s ↦ (key, s) ∷ [] ]

-- What of an operation and its spec goes into a request. The method is in upper case.
pub record Target : Type 0 where
  pub op_id : String
  pub method : String
  pub path : String
  pub query_styles : String → Option QueryStyle
  pub default_query_style : QueryStyle
  pub body_media_type : Option String

pub record Executor : Type 0 where
  pub base_url : String
  pub api_key : String
  pub accept : Option String
  pub headers : Pairs
  pub is_json_format : Bool

pub data Body : Type 0 where
  no_body : Body
  json_body : Value → Body
  form_body : Pairs → Body

pub record HttpRequest : Type 0 where
  pub method : String
  pub url : String
  pub headers : Pairs
  pub query : Option Pairs
  pub body : Body

unfoldable pub lower : ℕ → ℕ
lower c = if leb b'A' c && leb c b'Z' then c + 32 else c

-- `a.eq_ignore_ascii_case(b)`
unfoldable pub eq_ignore_ascii_case : String → String → Bool
unfolding lower
eq_ignore_ascii_case String.[] String.[] = true
eq_ignore_ascii_case String.[] (String.◌∷◌ d t) = false
eq_ignore_ascii_case (String.◌∷◌ c s) String.[] = false
eq_ignore_ascii_case (String.◌∷◌ c s) (String.◌∷◌ d t) =
    lower (code c) == lower (code d) && eq_ignore_ascii_case s t

-- `merged.retain(|(mk, _)| !mk.eq_ignore_ascii_case(k))`
unfoldable pub without_header : String → Pairs → Pairs
unfolding eq_ignore_ascii_case
without_header k [] = []
without_header k ((mk, v) ∷ hs) =
    if eq_ignore_ascii_case mk k then without_header k hs else (mk, v) ∷ without_header k hs

unfoldable pub put_headers : Pairs → Pairs → Pairs
unfolding without_header
put_headers [] merged = merged
put_headers ((k, v) ∷ extra) merged = put_headers extra (without_header k merged ++ ((k, v) ∷ []))

unfoldable pub base_headers : Executor → Pairs
base_headers x =
    ("user-agent", "min-mcp")
    ∷ ((if is_empty x.api_key then [] else ("authorization", "Bearer " <> x.api_key) ∷ [])
        ++ (elim x.accept [ none ↦ [] | some a ↦ ("accept", a) ∷ [] ])
        ++ x.headers)

pub query_pairs : Target → Fields → Pairs
unfolding serialize_query
query_pairs op end = []
query_pairs op (field k v q) =
    serialize_query k v (unwrap_or (op.query_styles k) op.default_query_style) ++ query_pairs op q

abbrev pub is_no_fields : Value → Bool
is_no_fields (object end) = true
is_no_fields v = false

unfoldable pub body_of : Target → Value → Body
unfolding flatten_form
body_of op body =
    if is_null body || is_no_fields body
    then no_body
    else if contains_text "json" (unwrap_or op.body_media_type "")
    then json_body body
    else form_body (flatten_form body "")

module _ (J : JsonText) where
  abbrev pub text_of : Value → String
  text_of v = unwrap_or (as_str v) (J.display v)

  -- Each placeholder replaced by the value of that name, as one segment.
  unfoldable pub fill_path : Fields → String → String
  unfolding encode_path_segment
  fill_path end path = path
  fill_path (field k v pp) path =
      fill_path pp (replace path ("{" <> k <> "}") (encode_path_segment (text_of v)))

  -- The request, or none where a placeholder is left.
  unfoldable pub build_request :
      Executor → Target → Value → Value → Value → Pairs → Option HttpRequest
  unfolding fill_path put_headers base_headers query_pairs body_of
  build_request x op path_params query_params body extra =
      let path : String = elim (as_object path_params) [
        | none ↦ op.path
        | some pp ↦ fill_path pp op.path
      ] in
      if contains b'{' path
      then none
      else some (record {
        method = op.method;
        url = x.base_url <> path;
        headers = put_headers extra (base_headers x);
        query = Option.map (query_pairs op) (as_object query_params);
        body = body_of op body;
      })

  -- The first characters of a text, and whether any were cut.
  pub truncate_chars : ℕ → String → String × Bool
  truncate_chars n String.[] = ("", false)
  truncate_chars zero (String.◌∷◌ c s) = ("", true)
  truncate_chars (suc n) (String.◌∷◌ c s) =
      let (cut, truncated) = truncate_chars n s in (String.◌∷◌ c cut, truncated)

  -- The body for the result, and whether it is cut, for a cap of `n` characters.
  pub format_body : ℕ → String → Bool → Value × Bool
  unfolding truncate_chars
  format_body n text as_json =
      let plain = truncate_chars n text in
      elim (if as_json then J.from_str text else none) [
        | none ↦ (string plain.0, plain.1)
        | some v ↦
            let compact = truncate_chars n (J.display v) in
            if compact.1 then (string compact.0, true) else (v, false)
      ]
