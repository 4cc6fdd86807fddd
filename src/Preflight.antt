-- ===== src/Preflight.antt =====
-- src/surface/preflight.rs: the check of a call's arguments against the tool's schema before it is sent,
-- and the structured error that tells the caller what to change.
-- How serde_json compares values and numbers is the record `Comparing`.
pub mod Examples
pub mod Accepting
pub mod Decoding
use mathlib.Core.Option
use min_mcp.Prelude.{
  String, ◌<>◌, Bool, true, false, not, ◌&&◌, ◌||◌, List, [], ◌∷◌, Option, none, some, ◌=?◌,
  if◌then◌else◌, any, is_empty, unwrap_or, split, non_empty,
}
use min_mcp.Json.{
  Value, null, bool, number, string, array, object, Items, nil, cons, Fields, end, field, MapOps,
  get, get_key, has_key, any_item, is_str, as_array, as_str, as_bool, is_null,
}

pub record Comparing : Type 1 where
  pub F : Type 0
  -- `a == b` on values
  pub value_eq : Value → Value → Bool
  pub as_f64 : Value → Option F
  pub f64_eq : F → F → Bool

-- `a.iter().filter_map(Value::as_str)`
unfoldable pub strings : Items → List String
strings nil = []
strings (cons x xs) = elim (as_str x) [ none ↦ strings xs | some s ↦ s ∷ strings xs ]

-- The field's name stands in the container's `required` list.
unfoldable pub in_required : Value → String → Bool
in_required container name = elim (Option.bind (get_key "required" container) as_array) [
  | none ↦ false
  | some a ↦ any_item (is_str name) a
]

pub required : Value → List String
unfolding strings
required container =
    unwrap_or (Option.map strings (Option.bind (get_key "required" container) as_array)) []

pub null_allowed : Value → Bool
null_allowed pschema =
    (elim (Option.bind (get_key "nullable" pschema) as_bool) [ none ↦ false | some b ↦ b ])
    || (elim (Option.bind (get_key "type" pschema) as_array) [
      | none ↦ false
      | some types ↦ any_item (is_str "null") types
    ])
    || (elim (Option.bind (get_key "enum" pschema) as_array) [
      | none ↦ false
      | some e ↦ any_item is_null e
    ])

-- A field that is not given, or given as null where the schema does not allow that.
pub is_absent : Value → Option Value → Bool
is_absent pschema none = true
is_absent pschema (some v) = is_null v && not (null_allowed pschema)

abbrev pub has_alternatives : Value → Bool
has_alternatives pschema = has_key "anyOf" pschema || has_key "oneOf" pschema

abbrev pub is_object_type : Value → Bool
is_object_type pschema = elim (get_key "type" pschema) [ none ↦ false | some t ↦ is_str "object" t ]

abbrev pub path_of : String → String → String
path_of prefix name = if is_empty prefix then name else prefix <> "." <> name

module _ (E : Comparing) ⦃M : MapOps⦄ where
  pub enum_value_matches : Value → Value → Bool
  enum_value_matches allowed got =
      if E.value_eq allowed got then true else elim (E.as_f64 allowed) [
        | none ↦ false
        | some a ↦ elim (E.as_f64 got) [ none ↦ false | some g ↦ E.f64_eq a g ]
      ]

  pub is_out_of_enum : Value → Value → Bool
  unfolding enum_value_matches
  is_out_of_enum pschema v = elim (Option.bind (get_key "enum" pschema) as_array) [
    | none ↦ false
    | some en ↦ not (any_item (λ x. enum_value_matches x v) en)
  ]

  -- The object of an error on a field with the schema `prop`.
  error_object : Value → String → String → Bool → Value
  error_object prop display reason is_required =
      let obj =
        M.insert "required" (bool is_required)
          (M.insert "field" (string display) (M.insert "error" (string reason) end)) in
      let described : Fields = elim (get_key "enum" prop) [
        | none ↦ obj
        | some e ↦ M.insert "allowed_values" e obj
      ] in
      let full : Fields = elim (Option.bind (get_key "description" prop) as_str) [
        | none ↦ described
        | some d ↦ M.insert "description" (string d) described
      ] in
      let fix =
        if has_key "enum" prop
        then "set " <> display <> " to one of allowed_values, then retry"
        else "set " <> display <> " (see description) in the arguments, then retry" in
      object (M.insert "fix" (string fix) full)

  pub structured_field_error : Value → String → String → String → Option Value
  unfolding error_object in_required
  structured_field_error container name display reason =
      elim (Option.bind (get_key "properties" container) (get_key name)) [
        | none ↦ none
        | some prop ↦ some (error_object prop display reason (in_required container name))
      ]

  -- One turn of the loop over the properties: `inner` walks the field's own schema, `later` is what the
  -- rest of the loop returns.
  pub check_field :
      Value
      → String
      → Value
      → String
      → Option Value
      → (Value → Option Value)
      → Option Value
      → Option Value
  unfolding is_absent required is_out_of_enum structured_field_error
  check_field container name pschema path val inner later =
      if any (λ r. r =? name) (required container) && is_absent pschema val
      then structured_field_error container name path "missing_required_field"
      else elim val [
        | none ↦ later
        | some v ↦
            if is_null v
            then later
            else if has_alternatives pschema
            then later
            else if is_out_of_enum pschema v
            then structured_field_error container name path "invalid_enum_value"
            else if is_object_type pschema
            then elim (inner v) [ none ↦ later | some e ↦ some e ]
            else later
      ]

  -- The walk looks up `properties` in the container and goes through its entries. `walk_object` is that
  -- lookup, so the recursion is on the schema.
  mutual
    unfolding check_field

    pub preflight_walk : Value → Value → String → Option Value
    preflight_walk (object m) args prefix = walk_object (object m) m args prefix
    preflight_walk _ args prefix = none

    pub walk_object : Value → Fields → Value → String → Option Value
    walk_object container end args prefix = none
    walk_object container (field k v m) args prefix =
        let found = walk_properties container v args prefix in
        let later = walk_object container m args prefix in
        if k =? "properties" then found else later

    pub walk_properties : Value → Value → Value → String → Option Value
    walk_properties container (object props) args prefix = walk_fields container props args prefix
    walk_properties container _ args prefix = none

    pub walk_fields : Value → Fields → Value → String → Option Value
    walk_fields container end args prefix = none
    walk_fields container (field name pschema rest) args prefix =
        let path = path_of prefix name in
        let inner = λ (v : Value). preflight_walk pschema v path in
        let later = walk_fields container rest args prefix in
        check_field container name pschema path (get_key name args) inner later

  unfoldable pub preflight_error : Value → Value → Option Value
  unfolding preflight_walk
  preflight_error schema args = preflight_walk schema args ""

  -- Walk all parts of a path but the last, which is the field.
  unfoldable pub nav_parts : Value → List String → Option (Value × String)
  nav_parts node [] = none
  nav_parts node (s ∷ []) = some (node, s)
  nav_parts node (s ∷ next ∷ parts) = elim (Option.bind (get_key "properties" node) (get_key s)) [
    | none ↦ none
    | some n ↦ nav_parts n (next ∷ parts)
  ]

  pub nav_ref : Value → String → Option (Value × String)
  unfolding nav_parts split non_empty
  nav_ref schema path = nav_parts schema (non_empty (split b'.' path))

  pub structured_field_error_at : Value → String → String → Option Value
  unfolding nav_ref structured_field_error
  structured_field_error_at root dotted reason = elim (nav_ref root dotted) [
    | none ↦ none
    | some (container, name) ↦ structured_field_error container name dotted reason
  ]
