-- ===== src/Spec.antt =====
-- src/spec.rs: the operations of an OpenAPI or Swagger spec, and its references.
-- A map is rebuilt in the order of its entries; a `HashMap` is the list of what was put in, of which the last
-- counts. Reading a file and parsing it are left out.
pub mod Size
pub mod Bodies
pub mod Params
pub mod Required
pub mod Operations
pub mod Ids
pub mod Examples
use Prim.Native.String.{String}
use mathlib.Core.Option
use min_mcp.Prelude.{
  ℕ, zero, suc, ◌+◌, ◌-◌, ◌<>◌, Bool, true, false, not, ◌&&◌, List, [], ◌∷◌, ◌++◌, Option, none,
  some, ◌==◌, ◌=?◌, if◌then◌else◌, unwrap_or, any, split, starts_with, is_empty,
}
use min_mcp.Json.{
  Value, null, bool, number, string, array, object, Items, nil, cons, Fields, end, field, get,
  get_key, as_object, as_array, as_str, as_bool, or_insert, has_key, is_null, MapOps,
}
use min_mcp.Exec.{QueryStyle, repeated, deep, delimited, Target}

abbrev pub max_ref_chain : ℕ
max_ref_chain = 12

abbrev pub max_resolved_nodes : ℕ
max_resolved_nodes = 10_000

-- `budget` is what is left of the nodes, `cut` whether a reference was left out.
pub record Expansion : Type 0 where
  pub budget : ℕ
  pub cut : Bool

abbrev pub ref_of : Fields → Option String
ref_of m = Option.bind (get "$ref" m) as_str

abbrev pub marker : String → String → Value
marker name r = object (field name (string r) end)

-- `r[2..]`
unfoldable pub after_two : String → String
after_two String.[] = ""
after_two (String.◌∷◌ c String.[]) = ""
after_two (String.◌∷◌ c (String.◌∷◌ d s)) = s

unfoldable pub descend : List String → Value → Option Value
descend [] target = some target
descend (part ∷ parts) target = elim (get_key part target) [
  | none ↦ none
  | some t ↦ descend parts t
]

unfoldable pub spend : Expansion → Option Expansion
spend pass = elim pass.budget [ zero ↦ none | suc b ↦ some (record pass { budget = b }) ]

-- What a reference is replaced by: its text, its node, the references followed so far, and the pass.
abbrev pub Follow : Type 0
Follow = String → Value → List String → Expansion → Option (Value × Expansion)

-- `expand` but for following a reference.
mutual
  unfolding spend starts_with get

  pub walk : Follow → Value → List String → Expansion → Option (Value × Expansion)
  walk follow null seen pass = Option.map (λ p. (null, p)) (spend pass)
  walk follow (bool b) seen pass = Option.map (λ p. (bool b, p)) (spend pass)
  walk follow (number n) seen pass = Option.map (λ p. (number n, p)) (spend pass)
  walk follow (string s) seen pass = Option.map (λ p. (string s, p)) (spend pass)
  walk follow (array a) seen pass = elim (spend pass) [
    | none ↦ none
    | some p ↦ Option.map (λ x. (array x.0, x.1)) (walk_items follow a seen p)
  ]
  walk follow (object m) seen pass = elim (spend pass) [
    | none ↦ none
    | some p ↦ elim (ref_of m) [
      | none ↦ Option.map (λ x. (object x.0, x.1)) (walk_fields follow m seen p)
      | some r ↦ elim (any (λ s. s =? r) seen) [
        | true ↦ some (marker "$circular" r, p)
        | false ↦ elim (starts_with r "#/") [
          | false ↦ some (object m, p)
          | true ↦ follow r (object m) seen p
        ]
      ]
    ]
  ]

  pub walk_items : Follow → Items → List String → Expansion → Option (Items × Expansion)
  walk_items follow nil seen pass = some (nil, pass)
  walk_items follow (cons v a) seen pass = elim (walk follow v seen pass) [
    | none ↦ none
    | some x ↦ Option.map (λ y. (cons x.0 y.0, y.1)) (walk_items follow a seen x.1)
  ]

  pub walk_fields : Follow → Fields → List String → Expansion → Option (Fields × Expansion)
  walk_fields follow end seen pass = some (end, pass)
  walk_fields follow (field k v m) seen pass = elim (walk follow v seen pass) [
    | none ↦ none
    | some x ↦ Option.map (λ y. (field k x.0 y.0, y.1)) (walk_fields follow m seen x.1)
  ]

-- At the limit a reference is left out.
unfoldable pub leave_out : ℕ → Follow
leave_out limit r node seen pass =
    some (if limit == max_ref_chain then node else marker "$omitted" r, record pass { cut = true })

module _ (root : Value) where
  -- One pass. `left` is the limit less the depth: how many references may still be followed.
  unfoldable pub expand : ℕ → ℕ → Value → List String → Expansion → Option (Value × Expansion)
  unfolding walk leave_out descend after_two split
  expand limit zero = walk (leave_out limit)
  expand limit (suc left) =
      let deeper = expand limit left in
      walk (λ r node seen pass. elim (descend (split b'/' (after_two r)) root) [
        | none ↦ some (node, pass)
        | some target ↦ deeper target (seen ++ (r ∷ [])) pass
      ])

  -- The passes with the limits from one on, as many as are left, after the best so far.
  unfoldable pub resolve_from : ℕ → ℕ → Value → Value → Value
  unfolding expand
  resolve_from zero limit node best = best
  resolve_from (suc left) limit node best =
      elim (expand limit limit node [] (record { budget = max_resolved_nodes; cut = false })) [
        | none ↦ best
        | some (v, pass) ↦ if pass.cut then resolve_from left (limit + 1) node v else v
      ]

  unfoldable pub resolve : Value → Value
  unfolding resolve_from
  resolve node = resolve_from (max_ref_chain + 1) 0 node node

pub record Operation : Type 0 where
  pub op_id : String
  pub method : String
  pub path : String
  pub summary : String
  pub description : String
  pub raw : Value

pub record Spec : Type 0 where
  pub swagger2 : Bool
  pub root : Value

-- `application/json`, or else the first.
unfoldable pub pick_media : Fields → Option (String × Value)
unfolding get
pick_media content = elim (get "application/json" content) [
  | some media ↦ some ("application/json", media)
  | none ↦ elim content [ end ↦ none | field k media rest ↦ some (k, media) ]
]

unfoldable pub body_schema : Spec → Operation → Bool → Value
unfolding resolve pick_media
body_schema spec op resolved =
    let raw : Value = unwrap_or (get_key "requestBody" op.raw) null in
    let rb : Value = if resolved then resolve spec.root raw else raw in
    elim (Option.bind (get_key "content" rb) as_object) [
      | none ↦ null
      | some content ↦ unwrap_or (Option.bind (pick_media content) (λ x. get_key "schema" x.1)) null
    ]

unfoldable pub body_media_type : Operation → Option String
unfolding pick_media
body_media_type op = elim (get_key "requestBody" op.raw) [
  | none ↦ none
  | some rb ↦ elim (get_key "content" rb) [
    | none ↦ none
    | some v ↦ elim (as_object v) [
      | none ↦ none
      | some content ↦ Option.map (λ x. x.0) (pick_media content)
    ]
  ]
]

abbrev pub param_explode : Value → Bool → Bool
param_explode p default = unwrap_or (Option.bind (get_key "explode" p) as_bool) default

abbrev pub delimited_or_repeated : Value → String → QueryStyle
delimited_or_repeated p sep = if param_explode p false then repeated else delimited sep

unfoldable pub default_query_style : Spec → QueryStyle
default_query_style spec = if spec.swagger2 then delimited "," else repeated

-- Swagger's `collectionFormat`
abbrev collection_style : String → QueryStyle
collection_style cf =
    if cf =? "multi"
    then repeated
    else if cf =? "ssv"
    then delimited " "
    else if cf =? "tsv"
    then delimited "\t"
    else if cf =? "pipes"
    then delimited "|"
    else delimited ","

unfoldable pub query_style_of : Spec → Value → QueryStyle
unfolding default_query_style
query_style_of spec p = elim (Option.bind (get_key "collectionFormat" p) as_str) [
  | some cf ↦ collection_style cf
  | none ↦
      let style : String = unwrap_or (Option.bind (get_key "style" p) as_str) "" in
      if style =? "deepObject"
      then deep
      else if style =? "spaceDelimited"
      then delimited_or_repeated p " "
      else if style =? "pipeDelimited"
      then delimited_or_repeated p "|"
      else if style =? "form"
      then (if param_explode p true then repeated else delimited ",")
      else default_query_style spec
]

abbrev pub Styles : Type 0
Styles = List (String × QueryStyle)

abbrev pub is_in : String → Value → Bool
is_in place p = elim (Option.bind (get_key "in" p) as_str) [ none ↦ false | some s ↦ s =? place ]

unfoldable pub styles_of : Spec → Items → Styles
unfolding query_style_of
styles_of spec nil = []
styles_of spec (cons p a) =
    let rest = styles_of spec a in
    if is_in "query" p
    then (elim (Option.bind (get_key "name" p) as_str) [
      | none ↦ rest
      | some name ↦ (name, query_style_of spec p) ∷ rest
    ])
    else rest

abbrev pub items_of : Value → Items
items_of v = unwrap_or (as_array v) nil

unfoldable pub query_styles : Spec → Operation → Styles
unfolding styles_of resolve
query_styles spec op =
    styles_of spec
      (items_of (resolve spec.root (unwrap_or (get_key "parameters" op.raw) (array nil))))

-- `styles.get(k)`
unfoldable pub style_for : String → Styles → Option QueryStyle
style_for k [] = none
style_for k ((name, style) ∷ rest) = elim (style_for k rest) [
  | some later ↦ some later
  | none ↦ if name =? k then some style else none
]

-- `to_uppercase` of a method that an operation may have.
unfoldable pub upper_method : String → String
upper_method m =
    if m =? "get"
    then "GET"
    else if m =? "post"
    then "POST"
    else if m =? "put"
    then "PUT"
    else if m =? "patch"
    then "PATCH"
    else if m =? "delete"
    then "DELETE"
    else if m =? "head"
    then "HEAD"
    else if m =? "options"
    then "OPTIONS"
    else m

-- What of an operation goes into a request.
unfoldable pub target_of : Spec → Operation → Target
unfolding query_styles style_for default_query_style body_media_type upper_method
target_of spec op = record {
  op_id = op.op_id;
  method = upper_method op.method;
  path = op.path;
  query_styles = λ k. style_for k (query_styles spec op);
  default_query_style = default_query_style spec;
  body_media_type = body_media_type op;
}
