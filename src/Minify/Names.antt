-- ===== src/Minify/Names.antt =====
-- src/surface/minify.rs: the names of fields in a schema that was cut for display.
use mathlib.Core.Option
use min_mcp.Prelude.{
  ◌-◌, ◌<>◌, show, String, ◌≡◌, refl, sym, ap, ◌∙◌, inl, inr, Bool, true, false, List, [], ◌∷◌,
  Option, none, some, ltb, ◌=?◌, Bool-cases, Option-cases, eq_iff,
}
use min_mcp.Json.{
  Value, null, bool, number, string, array, object, Items, Fields, end, field, MapOps, get, get_key,
  as_object,
}
use min_mcp.Patch.{has_property, exists_at, path_parts, field_path_exists}
use min_mcp.Patch.Hidden.{field_path_exists-parts}
use min_mcp.Minify.{
  minify, minify_entries, minify_at, minify_values, minify_schema, minify_schema_hard, soften,
  harden, cut_enum, cut_described, elide_enum, cut_description, minify_enum_cap, count, take_items,
  place_of, under_keys,
}

module _ ⦃M : MapOps⦄ where
  left_out : Items → Value
  left_out vals =
      string ("+" <> show (count vals - minify_enum_cap) <> " more values (see the API's own docs)")

  cut_long :
      (vals : Items) (m : Fields)
      → ltb minify_enum_cap (count vals) ≡ true
      → cut_enum (some (array vals)) m
        ≡ M.insert "enum_truncated"
            (left_out vals)
            (M.insert "enum" (array (take_items minify_enum_cap vals)) m)
  unfolding cut_enum left_out
  cut_long vals m e = cc (e)

  cut_short :
      (vals : Items) (m : Fields)
      → ltb minify_enum_cap (count vals) ≡ false
      → cut_enum (some (array vals)) m ≡ m
  unfolding cut_enum
  cut_short vals m e = cc (e)

  get-minify_values :
      (strip : Fields → Fields) (k : String) (m : Fields)
      → get k (minify_values strip m) ≡ Option.map (minify strip) (get k m)
  unfolding minify get
  get-minify_values strip k end = refl
  get-minify_values strip k (field j v m) = elim (Bool-cases (j =? k)) [
    | inl e ↦ cc (e)
    | inr e ↦ cc (e, get-minify_values strip k m)
  ]

  get-minify_entries :
      (strip : Fields → Fields) (k : String) (m : Fields)
      → get k (minify_entries strip m) ≡ Option.map (minify_at strip (place_of k)) (get k m)
  unfolding minify get
  get-minify_entries strip k end = refl
  get-minify_entries strip k (field j v m) = elim (Bool-cases (j =? k)) [
    | inl e ↦ cc (e, (eq_iff j k).0 e)
    | inr e ↦ cc (e, get-minify_entries strip k m)
  ]

  -- `soften` and `harden` do not touch `properties`.
  get-cut_enum :
      (o : Option Value) (m : Fields) → get "properties" (cut_enum o m) ≡ get "properties" m
  unfolding cut_enum
  get-cut_enum (some (array vals)) m = elim (Bool-cases (ltb minify_enum_cap (count vals))) [
    | inl e ↦
        ap (get "properties") (cut_long vals m e)
        ∙ M.get-insert "enum_truncated" "properties" (left_out vals)
            (M.insert "enum" (array (take_items minify_enum_cap vals)) m)
        ∙ M.get-insert "enum" "properties" (array (take_items minify_enum_cap vals)) m
    | inr e ↦ ap (get "properties") (cut_short vals m e)
  ]
  get-cut_enum none m = refl
  get-cut_enum (some null) m = refl
  get-cut_enum (some (bool b)) m = refl
  get-cut_enum (some (number n)) m = refl
  get-cut_enum (some (string s)) m = refl
  get-cut_enum (some (object f)) m = refl

  get-cut_described :
      (o : Option Value) (m : Fields) → get "properties" (cut_described o m) ≡ get "properties" m
  unfolding cut_described
  get-cut_described none m = refl
  get-cut_described (some d) m = M.get-insert "description" "properties" (cut_description d) m

  get-elide_enum :
      (o : Option Value) (m : Fields) → get "properties" (elide_enum o m) ≡ get "properties" m
  unfolding elide_enum
  get-elide_enum none m = refl
  get-elide_enum (some e) m =
      M.get-insert "enum_truncated" "properties" (string "elided") (M.remove "enum" m)
      ∙ M.get-remove "enum" "properties" m

  get-soften : (m : Fields) → get "properties" (soften m) ≡ get "properties" m
  unfolding soften
  get-soften m =
      let bare = M.remove "examples" (M.remove "example" m) in
      let described = cut_described (get "description" bare) bare in
      get-cut_enum (get "enum" described) described
      ∙ get-cut_described (get "description" bare) bare
      ∙ M.get-remove "examples" "properties" (M.remove "example" m)
      ∙ M.get-remove "example" "properties" m

  get-harden : (m : Fields) → get "properties" (harden m) ≡ get "properties" m
  unfolding harden
  get-harden m =
      let m₁ = M.remove "description" m in
      let m₂ = M.remove "title" m₁ in
      let m₃ = M.remove "format" m₂ in
      let m₄ = M.remove "enum_truncated" m₃ in
      get-elide_enum (get "enum" m₄) m₄
      ∙ M.get-remove "enum_truncated" "properties" m₃
      ∙ M.get-remove "format" "properties" m₂
      ∙ M.get-remove "title" "properties" m₁
      ∙ M.get-remove "description" "properties" m

  -- What stands under a name of the properties, of an object or not.
  bind-minify_at :
      (strip : Fields → Fields) (name : String) (o : Option Value)
      → Option.bind (Option.map (minify_at strip under_keys) o) (get_key name)
        ≡ Option.map (minify strip) (Option.bind o (get_key name))
  unfolding minify Option.bind
  bind-minify_at strip name none = refl
  bind-minify_at strip name (some (object m)) = get-minify_values strip name m
  bind-minify_at strip name (some null) = refl
  bind-minify_at strip name (some (bool b)) = refl
  bind-minify_at strip name (some (number n)) = refl
  bind-minify_at strip name (some (string s)) = refl
  bind-minify_at strip name (some (array xs)) = refl

  abbrev named : String → Value → Option Value
  named name v = Option.bind (get_key "properties" v) (get_key name)

  named-minify :
      (strip : Fields → Fields)
      → ((m : Fields) → get "properties" (strip m) ≡ get "properties" m)
      → (name : String) (v : Value)
      → named name (minify strip v) ≡ Option.map (minify strip) (named name v)
  unfolding minify Option.bind
  named-minify strip keeps name (object m) =
      ap (λ o. Option.bind o (get_key name))
        (keeps (minify_entries strip m) ∙ get-minify_entries strip "properties" m)
      ∙ bind-minify_at strip name (get "properties" m)
  named-minify strip keeps name null = refl
  named-minify strip keeps name (bool b) = refl
  named-minify strip keeps name (number n) = refl
  named-minify strip keeps name (string s) = refl
  named-minify strip keeps name (array xs) = refl

  abbrev is_there : Option Value → Bool
  is_there none = false
  is_there (some v) = true

  has_property-named :
      (name : String) (o : Option Value)
      → (elim (Option.bind o as_object) as (λ x. Bool) [
        | none ↦ false
        | some p ↦ elim (get name p) [ none ↦ false | some v ↦ true ]
      ])
        ≡ is_there (Option.bind o (get_key name))
  unfolding Option.bind
  has_property-named name none = refl
  has_property-named name (some (object m)) = refl
  has_property-named name (some null) = refl
  has_property-named name (some (bool b)) = refl
  has_property-named name (some (number n)) = refl
  has_property-named name (some (string s)) = refl
  has_property-named name (some (array xs)) = refl

  is_there-map : (f : Value → Value) (o : Option Value) → is_there (Option.map f o) ≡ is_there o
  is_there-map f none = refl
  is_there-map f (some v) = refl

  has_property-minify :
      (strip : Fields → Fields)
      → ((m : Fields) → get "properties" (strip m) ≡ get "properties" m)
      → (name : String) (v : Value) → has_property name (minify strip v) ≡ has_property name v
  unfolding has_property
  has_property-minify strip keeps name v =
      has_property-named name (get_key "properties" (minify strip v))
      ∙ ap is_there (named-minify strip keeps name v)
      ∙ is_there-map (minify strip) (named name v)
      ∙ sym (has_property-named name (get_key "properties" v))

  abbrev exists_in : List String → Option Value → Bool
  exists_in parts o = elim o [ none ↦ false | some n ↦ exists_at parts n ]

  exists-minify :
      (strip : Fields → Fields)
      → ((m : Fields) → get "properties" (strip m) ≡ get "properties" m)
      → (parts : List String) (v : Value) → exists_at parts (minify strip v) ≡ exists_at parts v
  unfolding exists_at
  exists-minify strip keeps [] v = refl
  exists-minify strip keeps (name ∷ []) v = has_property-minify strip keeps name v
  exists-minify strip keeps (name ∷ next ∷ parts) v =
      ap (exists_in (next ∷ parts)) (named-minify strip keeps name v)
      ∙ elim (Option-cases (named name v)) [
        | inl e ↦
            ap (λ o. exists_in (next ∷ parts) (Option.map (minify strip) o)) e
            ∙ sym (ap (exists_in (next ∷ parts)) e)
        | inr (c, e) ↦
            ap (λ o. exists_in (next ∷ parts) (Option.map (minify strip) o)) e
            ∙ exists-minify strip keeps (next ∷ parts) c
            ∙ sym (ap (exists_in (next ∷ parts)) e)
      ]

  -- Cutting a schema for display, softly or hard, neither hides a field nor makes one up, at any depth.
  pub field_path_exists-minify :
      (schema : Value) (path : String)
      → (field_path_exists (minify_schema schema) path ≡ field_path_exists schema path)
        × (field_path_exists (minify_schema_hard schema) path ≡ field_path_exists schema path)
  unfolding minify_schema minify_schema_hard
  field_path_exists-minify schema path =
      (exists_minified soften get-soften schema path, exists_minified harden get-harden schema path)
    where
      exists_minified :
          (strip : Fields → Fields)
          → ((m : Fields) → get "properties" (strip m) ≡ get "properties" m)
          → (schema : Value) (path : String)
          → field_path_exists (minify strip schema) path ≡ field_path_exists schema path
      exists_minified strip keeps schema path =
          field_path_exists-parts (minify strip schema) path
          ∙ exists-minify strip keeps (path_parts path) schema
          ∙ sym (field_path_exists-parts schema path)
