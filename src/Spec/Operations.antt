-- ===== src/Spec/Operations.antt =====
-- src/spec.rs: the operations of a spec and their ids (`Spec::from_value`).
-- The set of ids is the list of them. The search for a number that is free has one more try than there are ids.
use Prim.Native.Char.{code}
use Prim.Native.String.{String}
use mathlib.Core.Option
use min_mcp.Prelude.{
  ℕ, zero, suc, ◌+◌, ◌<>◌, Bool, ◌||◌, List, [], ◌∷◌, ◌++◌, Option, none, some, ◌==◌, ◌=?◌,
  if◌then◌else◌, unwrap_or, show, length, any,
}
use min_mcp.Json.{Value, Fields, end, field, get_key, as_object, as_str}
use min_mcp.Exec.{eq_ignore_ascii_case}
use min_mcp.Spec.{Operation}

abbrev pub http_methods : List String
http_methods = "get" ∷ "post" ∷ "put" ∷ "patch" ∷ "delete" ∷ "head" ∷ "options" ∷ []

abbrev find_method : String → List String → Option String
find_method key [] = none
find_method key (m ∷ ms) = if eq_ignore_ascii_case m key then some m else find_method key ms

-- `path.trim_matches('/')`, from both ends
abbrev trim_slash_start : String → String
trim_slash_start String.[] = String.[]
trim_slash_start (String.◌∷◌ c s) =
    let rest = trim_slash_start s in if code c == b'/' then rest else String.◌∷◌ c s

abbrev trim_slash_end : String → String
trim_slash_end String.[] = String.[]
trim_slash_end (String.◌∷◌ c s) = elim (trim_slash_end s) [
  | String.[] ↦ if code c == b'/' then String.[] else String.◌∷◌ c String.[]
  | String.◌∷◌ d t ↦ String.◌∷◌ c (String.◌∷◌ d t)
]

abbrev slug : String → String
slug String.[] = String.[]
slug (String.◌∷◌ c s) =
    let rest = slug s in
    if code c == b'/'
    then String.◌∷◌ "_" rest
    else if code c == b'{' || code c == b'}'
    then rest
    else String.◌∷◌ c rest

unfoldable pub make_op_id : Value → String → String → String
make_op_id op method path = elim (Option.bind (get_key "operationId" op) as_str) [
  | some id ↦ id
  | none ↦ method <> "_" <> slug (trim_slash_end (trim_slash_start path))
]

abbrev text_at : String → Value → String
text_at k op = unwrap_or (Option.bind (get_key k op) as_str) ""

unfoldable pub operations_at : String → Fields → List Operation
unfolding make_op_id eq_ignore_ascii_case
operations_at path end = []
operations_at path (field method op item) =
    let rest = operations_at path item in
    elim (find_method method http_methods) [
      | none ↦ rest
      | some m ↦ elim (as_object op) [
        | none ↦ rest
        | some fields ↦
            record {
              op_id = make_op_id op m path;
              method = m;
              path = path;
              summary = text_at "summary" op;
              description = text_at "description" op;
              raw = op;
            }
            ∷ rest
      ]
    ]

unfoldable pub operations_of : Fields → List Operation
unfolding operations_at
operations_of end = []
operations_of (field path v paths) =
    let rest = operations_of paths in
    elim (as_object v) [ none ↦ rest | some item ↦ operations_at path item ++ rest ]

abbrev pub contains_id : String → List String → Bool
contains_id id seen = any (λ s. s =? id) seen

abbrev pub numbered : String → ℕ → String
numbered base i = base <> "_" <> show i

-- `while seen.contains(..) { i += 1 }`
unfoldable pub free_id : ℕ → String → ℕ → List String → String
free_id zero base i seen = numbered base i
free_id (suc left) base i seen =
    let later = free_id left base (i + 1) seen in
    if contains_id (numbered base i) seen then later else numbered base i

unfoldable pub give_ids : List String → List Operation → List Operation
unfolding free_id
give_ids seen [] = []
give_ids seen (op ∷ ops) =
    let id : String =
      if contains_id op.op_id seen then free_id (suc (length seen)) op.op_id 2 seen else op.op_id in
    record op { op_id = id } ∷ give_ids (id ∷ seen) ops

unfoldable pub operations : Value → List Operation
unfolding operations_of give_ids
operations root = elim (Option.bind (get_key "paths" root) as_object) [
  | none ↦ []
  | some paths ↦ give_ids [] (operations_of paths)
]
