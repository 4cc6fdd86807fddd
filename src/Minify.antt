-- ===== src/Minify.antt =====
-- src/surface/minify.rs: schemas cut for display, prose first.
-- The recursion follows the places where a schema keeps schemas; `minify_entries` looks them up while it
-- goes through the entries, so that it is on the structure of the schema.
pub mod Names
pub mod Examples
use mathlib.Core.Option
use min_mcp.Prelude.{
  ℕ, zero, suc, ◌+◌, ◌-◌, String, ◌<>◌, Bool, true, false, not, ◌&&◌, ◌||◌, Option, none, some, ltb,
  ◌=?◌, if◌then◌else◌, show,
}
use min_mcp.Json.{
  Value, null, bool, number, string, array, object, Items, nil, cons, Fields, end, field, MapOps,
  get,
}
use min_mcp.Results.Shape.{len, truncate}

abbrev pub minify_enum_cap : ℕ
minify_enum_cap = 24

abbrev pub minify_desc_chars : ℕ
minify_desc_chars = 120

-- `truncate_in_place`
pub truncate_text : ℕ → String → String
truncate_text max s = if ltb max (len s) then truncate max s <> "…" else s

-- Where children stand: under the keys of a map, as one schema, or in a list.
pub data Place : Type 0 where
  under_keys one_schema in_list nowhere : Place

abbrev pub place_of : String → Place
place_of k =
    if k =? "properties" || k =? "patternProperties" || k =? "definitions" || k =? "$defs"
    then under_keys
    else if k =? "items" || k =? "additionalProperties" || k =? "not"
    then one_schema
    else if k =? "anyOf" || k =? "oneOf" || k =? "allOf" || k =? "prefixItems"
    then in_list
    else nowhere

unfoldable pub count : Items → ℕ
count nil = 0
count (cons x xs) = suc (count xs)

unfoldable pub take_items : ℕ → Items → Items
take_items zero xs = nil
take_items (suc n) nil = nil
take_items (suc n) (cons x xs) = cons x (take_items n xs)

abbrev pub cut_description : Value → Value
cut_description (string d) = string (truncate_text minify_desc_chars d)
cut_description v = v

module _ ⦃M : MapOps⦄ where
  -- `vals.truncate(24)`, and how many were left out
  cut_enum : Option Value → Fields → Fields
  unfolding take_items count
  cut_enum (some (array vals)) m =
      if ltb minify_enum_cap (count vals)
      then M.insert "enum_truncated"
          (string
            ("+" <> show (count vals - minify_enum_cap) <> " more values (see the API's own docs)"))
          (M.insert "enum" (array (take_items minify_enum_cap vals)) m)
      else m
  cut_enum _ m = m

  cut_described : Option Value → Fields → Fields
  cut_described none m = m
  cut_described (some d) m = M.insert "description" (cut_description d) m

  -- What `minify_schema` does to a schema before its children.
  pub soften : Fields → Fields
  unfolding cut_enum cut_described
  soften m =
      let bare = M.remove "examples" (M.remove "example" m) in
      let described = cut_described (get "description" bare) bare in
      cut_enum (get "enum" described) described

  elide_enum : Option Value → Fields → Fields
  elide_enum none m = m
  elide_enum (some e) m = M.insert "enum_truncated" (string "elided") (M.remove "enum" m)

  -- What `minify_schema_hard` does to it.
  pub harden : Fields → Fields
  unfolding elide_enum
  harden m =
      let bare =
        M.remove "enum_truncated"
          (M.remove "format" (M.remove "title" (M.remove "description" m))) in
      elide_enum (get "enum" bare) bare

  -- `for_each_child_schema`, with `strip` done at each schema. The keys that `strip` touches hold no
  -- schemas, so it can be done after the children.
  mutual
    pub minify : (Fields → Fields) → Value → Value
    minify strip (object m) = object (strip (minify_entries strip m))
    minify strip (array xs) = array xs
    minify strip null = null
    minify strip (bool b) = bool b
    minify strip (number n) = number n
    minify strip (string s) = string s

    minify_entries : (Fields → Fields) → Fields → Fields
    minify_entries strip end = end
    minify_entries strip (field k v m) =
        field k (minify_at strip (place_of k) v) (minify_entries strip m)

    minify_at : (Fields → Fields) → Place → Value → Value
    minify_at strip under_keys (object m) = object (minify_values strip m)
    minify_at strip one_schema (object m) = object (strip (minify_entries strip m))
    minify_at strip in_list (array xs) = array (minify_items strip xs)
    minify_at strip p v = v

    minify_values : (Fields → Fields) → Fields → Fields
    minify_values strip end = end
    minify_values strip (field k v m) = field k (minify strip v) (minify_values strip m)

    minify_items : (Fields → Fields) → Items → Items
    minify_items strip nil = nil
    minify_items strip (cons x xs) = cons (minify strip x) (minify_items strip xs)

  pub minify_schema : Value → Value
  unfolding minify soften
  minify_schema v = minify soften v

  pub minify_schema_hard : Value → Value
  unfolding minify harden
  minify_schema_hard v = minify harden v
