-- ===== src/Preflight/Decoding.antt =====
-- src/surface/preflight.rs, `decode_stringified`: arguments that were sent as the JSON text of an object or
-- an array.
use mathlib.Core.Option
use min_mcp.Prelude.{
  String, ◌≡◌, refl, ◌∙◌, Bool, false, not, ◌&&◌, Option, none, some, ◌=?◌, if◌then◌else◌, arith,
}
use min_mcp.Json.{
  Value, array, object, Fields, end, field, MapOps, get, get_key, is_str, as_str, modify,
}
use min_mcp.Json.Maps.{get-modify}
use min_mcp.Project.{on_fields}
use min_mcp.AuditChain.{JsonText}
use min_mcp.Preflight.{is_object_type}

-- `declared == Some("array")`
abbrev pub is_array_type : Value → Bool
is_array_type pschema = elim (get_key "type" pschema) [ none ↦ false | some t ↦ is_str "array" t ]

-- What a text is replaced by, if it parses to the declared type.
abbrev pub fits_type : Value → Value → Option Value
fits_type pschema (object m) = if is_object_type pschema then some (object m) else none
fits_type pschema (array a) = if is_array_type pschema then some (array a) else none
fits_type pschema v = none

module _ (J : JsonText) ⦃M : MapOps⦄ where
  -- The value after the text is decoded; none where the loop goes on to the next field.
  pub decoded : Value → Value → Option Value
  decoded pschema val = elim (as_str val) [
    | none ↦ some val
    | some text ↦
        if not (is_object_type pschema) && not (is_array_type pschema)
        then some val
        else Option.bind (J.from_str text) (fits_type pschema)
  ]

  -- As in the walk, the recursion is on the schema: `decode_in` looks up its properties.
  unfoldable mutual
    unfolding decoded

    pub decode_stringified : Value → Value → Value
    decode_stringified (object m) args = decode_in m args
    decode_stringified _ args = args

    decode_in : Fields → Value → Value
    decode_in end args = args
    decode_in (field k v m) args =
        let found = decode_properties v args in
        let later = decode_in m args in if k =? "properties" then found else later

    decode_properties : Value → Value → Value
    decode_properties (object props) args = on_fields (decode_fields props) args
    decode_properties _ args = args

    decode_fields : Fields → Fields → Fields
    decode_fields end args = args
    decode_fields (field name pschema rest) args =
        let inner = λ (v : Value). decode_stringified pschema v in
        decode_fields rest (
          modify name
            (λ val. elim (decoded pschema val) [
              | none ↦ val
              | some v ↦ if is_object_type pschema then inner v else v
            ])
            args)

  -- A field that the schema does not name is left as it was given.
  get-decode_fields :
      (props args : Fields) (name : String)
      → get name props ≡ none
      → get name (decode_fields props args) ≡ get name args
  unfolding decode_stringified get
  get-decode_fields end args name h = refl
  get-decode_fields (field k pschema rest) args name h =
      let change = λ (val : Value). elim (decoded pschema val) as (λ o. Value) [
        | none ↦ val
        | some v ↦ if is_object_type pschema then decode_stringified pschema v else v
      ] in
      get-decode_fields rest (modify k change args) name (ground (arith, h))
      ∙ get-modify k name change args
      ∙ ground (arith, h)
