-- ===== src/Patch/Hidden.antt =====
-- src/surface/patch.rs: fields that an overlay hides, or says the user supplies.
use mathlib.Core.Option
use min_mcp.Prelude.{
  String, ◌≡◌, refl, ap, ◌∙◌, inl, inr, Bool, true, false, List, [], ◌∷◌, Option, none, some,
  Bool-cases, Option-cases, arith, eq_iff,
}
use min_mcp.Json.{
  Value, null, bool, number, string, array, object, Fields, MapOps, get, get_key, as_object, modify,
}
use min_mcp.Json.Maps.{get-modify}
use min_mcp.Project.{on_fields}
use min_mcp.Preflight.{in_required}
use min_mcp.Patch.{
  FieldSpec, is_hidden, has_property, set_required, patch_fields, patch_at, exists_at,
  field_path_exists, path_parts,
}
use min_mcp.Patch.Required.{get-set_required_ne, in_required-clear}

-- What the walk to the container finds under a segment.
abbrev pub stepped : String → Value → Option Value
stepped seg v = Option.bind (get_key "properties" v) (get_key seg)

pub field_path_exists-parts :
    (schema : Value) (path : String)
    → field_path_exists schema path ≡ exists_at (path_parts path) schema
unfolding field_path_exists
field_path_exists-parts schema path = refl

module _ ⦃M : MapOps⦄ where
  hidden_fields : (s : FieldSpec) (name : String) (m : Fields) → Fields
  hidden_fields s name m =
      set_required (modify "properties" (on_fields (M.remove name)) m) name false

  patch_hidden :
      (s : FieldSpec) (name : String) (m : Fields)
      → is_hidden s ≡ true
      → has_property name (object m) ≡ true
      → patch_fields s name m ≡ hidden_fields s name m
  unfolding patch_fields hidden_fields
  patch_hidden s name m h p = cc (h, p)

  patch_nothing :
      (s : FieldSpec) (name : String) (m : Fields)
      → has_property name (object m) ≡ false
      → patch_fields s name m ≡ m
  unfolding patch_fields
  patch_nothing s name m p = cc (p)

  abbrev in_properties : String → Option Value → Bool
  in_properties name o = elim (Option.bind o as_object) [
    | none ↦ false
    | some p ↦ elim (get name p) [ none ↦ false | some v ↦ true ]
  ]

  in_properties-remove :
      (name : String) (o : Option Value)
      → in_properties name (Option.map (on_fields (M.remove name)) o) ≡ false
  unfolding Option.bind
  in_properties-remove name none = refl
  in_properties-remove name (some (object p)) =
      let gone : get name (M.remove name p) ≡ none =
        M.get-remove name name p ∙ ground (arith, eq_iff name name) in
      cc (gone)
  in_properties-remove name (some null) = refl
  in_properties-remove name (some (bool b)) = refl
  in_properties-remove name (some (number n)) = refl
  in_properties-remove name (some (string t)) = refl
  in_properties-remove name (some (array xs)) = refl

  has_property-hidden :
      (s : FieldSpec) (name : String) (m : Fields)
      → has_property name (object (hidden_fields s name m)) ≡ false
  unfolding hidden_fields has_property
  has_property-hidden s name m =
      let m' = modify "properties" (on_fields (M.remove name)) m in
      ap (in_properties name) (
        get-set_required_ne m' name "properties" false refl
        ∙ get-modify "properties" "properties" (on_fields (M.remove name)) m)
      ∙ in_properties-remove name (get "properties" m)

  -- A hidden field is no property of the object that contained it.
  has_property-patch_fields :
      (s : FieldSpec) (name : String) (m : Fields)
      → is_hidden s ≡ true
      → has_property name (object (patch_fields s name m)) ≡ false
  has_property-patch_fields s name m h = elim (Bool-cases (has_property name (object m))) [
    | inl e ↦
        ap (λ x. has_property name (object x)) (patch_hidden s name m h e)
        ∙ has_property-hidden s name m
    | inr e ↦ ap (λ x. has_property name (object x)) (patch_nothing s name m e) ∙ e
  ]

  bind-map-modify :
      (seg : String) (f : Value → Value) (o : Option Value)
      → Option.bind (Option.map (on_fields (modify seg f)) o) (get_key seg)
        ≡ Option.map f (Option.bind o (get_key seg))
  unfolding Option.bind
  bind-map-modify seg f none = refl
  bind-map-modify seg f (some (object p)) = get-modify seg seg f p ∙ ground (arith, eq_iff seg seg)
  bind-map-modify seg f (some null) = refl
  bind-map-modify seg f (some (bool b)) = refl
  bind-map-modify seg f (some (number n)) = refl
  bind-map-modify seg f (some (string t)) = refl
  bind-map-modify seg f (some (array xs)) = refl

  stepped-modify :
      (seg : String) (f : Value → Value) (v : Value)
      → stepped seg (on_fields (modify "properties" (on_fields (modify seg f))) v)
        ≡ Option.map f (stepped seg v)
  unfolding Option.bind
  stepped-modify seg f (object m) =
      ap (λ o. Option.bind o (get_key seg))
        (get-modify "properties" "properties" (on_fields (modify seg f)) m)
      ∙ bind-map-modify seg f (get "properties" m)
  stepped-modify seg f null = refl
  stepped-modify seg f (bool b) = refl
  stepped-modify seg f (number n) = refl
  stepped-modify seg f (string t) = refl
  stepped-modify seg f (array xs) = refl

  abbrev exists_in : List String → Option Value → Bool
  exists_in parts o = elim o [ none ↦ false | some n ↦ exists_at parts n ]

  pub exists-patch_at :
      (s : FieldSpec) (parts : List String) (v : Value)
      → is_hidden s ≡ true
      → exists_at parts (patch_at s parts v) ≡ false
  unfolding exists_at patch_at has_property Option.bind
  exists-patch_at s [] v h = refl
  exists-patch_at s (name ∷ []) (object m) h = has_property-patch_fields s name m h
  exists-patch_at s (name ∷ []) null h = refl
  exists-patch_at s (name ∷ []) (bool b) h = refl
  exists-patch_at s (name ∷ []) (number n) h = refl
  exists-patch_at s (name ∷ []) (string t) h = refl
  exists-patch_at s (name ∷ []) (array xs) h = refl
  exists-patch_at s (seg ∷ next ∷ parts) v h =
      let f = patch_at s (next ∷ parts) in
      let e = ap (exists_in (next ∷ parts)) (stepped-modify seg f v) in
      elim (Option-cases (stepped seg v)) [
        | inl n ↦ e ∙ ap (λ o. exists_in (next ∷ parts) (Option.map f o)) n
        | inr (c, n) ↦
            e
            ∙ ap (λ o. exists_in (next ∷ parts) (Option.map f o)) n
            ∙ exists-patch_at s (next ∷ parts) c h
      ]

  -- Nor is it required where it was.
  in_required-hidden :
      (s : FieldSpec) (name : String) (m : Fields)
      → is_hidden s ≡ true
      → has_property name (object m) ≡ true
      → in_required (object (patch_fields s name m)) name ≡ false
  unfolding hidden_fields
  in_required-hidden s name m h p =
      ap (λ x. in_required (object x) name) (patch_hidden s name m h p)
      ∙ in_required-clear (modify "properties" (on_fields (M.remove name)) m) name name
      ∙ ground (arith, eq_iff name name)
