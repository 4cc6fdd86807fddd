-- ===== src/Spec/Params.antt =====
-- src/spec.rs: the input schema of an operation (`build_input_schema`).
use Prim.Native.String.{String}
use mathlib.Core.Option
use min_mcp.Prelude.{
  ◌<>◌, Bool, true, false, not, ◌&&◌, List, [], ◌∷◌, ◌++◌, none, some, if◌then◌else◌, unwrap_or,
  is_empty,
}
use min_mcp.Json.{
  Value, null, string, array, object, Items, nil, cons, Fields, end, field, get_key, as_str,
  as_bool, is_null, or_insert, MapOps,
}
use min_mcp.Spec.{Spec, Operation, resolve, body_schema, is_in, items_of, upper_method}

-- The parts of an input schema that the parameters give.
pub record Params : Type 0 where
  pub path_props : Fields
  pub path_req : List String
  pub query_props : Fields
  pub query_req : List String
  pub form_props : Fields
  pub body : Value

abbrev pub strings_json : List String → Items
strings_json [] = nil
strings_json (s ∷ ss) = cons (string s) (strings_json ss)

abbrev pub has_no_fields : Fields → Bool
has_no_fields end = true
has_no_fields (field k v m) = false

abbrev pub has_no_names : List String → Bool
has_no_names [] = true
has_no_names (s ∷ ss) = false

module _ ⦃M : MapOps⦄ where
  abbrev keep_key : Value → String → Fields → Fields
  keep_key p k m = elim (get_key k p) [ none ↦ m | some v ↦ M.insert k v m ]

  abbrev pub schema_of_param : Value → Value
  schema_of_param p = elim (get_key "schema" p) [
    | some s ↦ s
    | none ↦
        object
          (keep_key p "enum" (keep_key p "items" (keep_key p "format" (keep_key p "type" end))))
  ]

  unfoldable pub param_prop : Value → Value
  param_prop p = elim (schema_of_param p) [
    | object o ↦ elim (get_key "description" p) [
      | none ↦ object o
      | some d ↦ object (or_insert "description" d (λ x. x) o)
    ]
    | v ↦ v
  ]

  unfoldable pub param_object : Fields → List String → String → Value
  param_object props required desc =
      let m : Fields =
        M.insert "description" (string desc) (M.insert "type" (string "object") end) in
      let m' : Fields = if has_no_fields props then m else M.insert "properties" (object props) m in
      object (
        if has_no_names required
        then m'
        else M.insert "required" (array (strings_json required)) m')

  unfoldable pub add_param : Spec → Bool → Params → Value → Params
  unfolding param_prop resolve
  add_param spec resolved acc p =
      let name : String = unwrap_or (Option.bind (get_key "name" p) as_str) "" in
      let required : Bool = unwrap_or (Option.bind (get_key "required" p) as_bool) false in
      if is_empty name
      then acc
      else if is_in "path" p
      then record acc {
        path_props = M.insert name (param_prop p) acc.path_props;
        path_req = (if required then acc.path_req ++ (name ∷ []) else acc.path_req);
      }
      else if is_in "query" p
      then record acc {
        query_props = M.insert name (param_prop p) acc.query_props;
        query_req = (if required then acc.query_req ++ (name ∷ []) else acc.query_req);
      }
      else if is_in "body" p
      then (let s : Value = unwrap_or (get_key "schema" p) null in
          record acc { body = (if resolved then resolve spec.root s else s) })
      else if is_in "formData" p
      then record acc { form_props = M.insert name (param_prop p) acc.form_props }
      else acc

  unfoldable pub add_params : Spec → Bool → Params → Items → Params
  unfolding add_param
  add_params spec resolved acc nil = acc
  add_params spec resolved acc (cons p a) =
      let next = add_param spec resolved acc p in add_params spec resolved next a

  unfoldable pub build_input_schema : Spec → Operation → Bool → Value
  unfolding add_params body_schema param_object resolve upper_method
  build_input_schema spec op resolved =
      let raw : Value = unwrap_or (get_key "parameters" op.raw) (array nil) in
      let params : Value = if resolved then resolve spec.root raw else raw in
      let start : Params = record {
        path_props = end;
        path_req = [];
        query_props = end;
        query_req = [];
        form_props = end;
        body = body_schema spec op resolved;
      } in
      let all = add_params spec resolved start (items_of params) in
      let body : Value =
        if is_null all.body && not (has_no_fields all.form_props)
        then object
            (field "type" (string "object") (field "properties" (object all.form_props) end))
        else all.body in
      let description : String =
        upper_method op.method
        <> " "
        <> op.path
        <> " — call via {path_params, query_params, body}." in
      object (
        field "type" (string "object") (
          field "description" (string description) (
            field "properties"
              (object (
                field "path_params"
                  (param_object all.path_props all.path_req
                    "Values for {placeholders} in the path.")
                  (field "query_params"
                    (param_object all.query_props all.query_req "Query-string parameters.")
                    (field "body" body end))))
              end)))
