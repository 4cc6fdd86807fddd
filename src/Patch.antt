-- ===== src/Patch.antt =====
-- src/surface/patch.rs: what an overlay changes in a tool's input schema, and whether it still fits the
-- live schema. `FieldSpec` and `FieldPatch` are of src/config.rs.
-- A `HashMap` of patches is the list of its entries in the order of the loop.
pub mod Examples
pub mod Required
pub mod Hidden
pub mod Kept
pub mod Binding
use mathlib.Core.Option
use min_mcp.Prelude.{
  String, Bool, true, false, not, ◌&&◌, ◌||◌, List, [], ◌∷◌, map, Option, none, some, ◌=?◌,
  if◌then◌else◌, unwrap_or, split, non_empty,
}
use min_mcp.Json.{
  Value, null, bool, string, array, object, Items, nil, cons, Fields, end, field, MapOps, get,
  get_key, has_key, any_item, is_str, as_array, as_object, modify, or_insert,
}
use min_mcp.Project.{on_fields}

pub record FieldSpec : Type 0 where
  pub description : Option String
  pub is_required : Option Bool
  pub example : Option Value
  pub enum_values : Option Items
  pub ty : Option String
  pub format : Option String
  pub hide : Option Bool
  pub user_supplied : Option String

-- `FieldSpec::default()`
abbrev pub default_spec : FieldSpec
default_spec = record {
  description = none;
  is_required = none;
  example = none;
  enum_values = none;
  ty = none;
  format = none;
  hide = none;
  user_supplied = none;
}

pub data FieldPatch : Type 0 where
  description : String → FieldPatch
  spec : FieldSpec → FieldPatch

pub spec_of : FieldPatch → FieldSpec
spec_of (description d) = record default_spec { description = some d }
spec_of (spec s) = s

-- `a.push(x)`
unfoldable pub push : Value → Items → Items
push x nil = cons x nil
push x (cons y ys) = cons y (push x ys)

-- `a.retain(|v| v.as_str() != Some(name))`
unfoldable pub retain_not : String → Items → Items
retain_not name nil = nil
retain_not name (cons y ys) =
    if is_str name y then retain_not name ys else cons y (retain_not name ys)

abbrev pub is_nil : Items → Bool
is_nil nil = true
is_nil (cons x xs) = false

-- The list with the name in it, once.
pub with_name : String → Value → Value
with_name name (array a) =
    if any_item (is_str name) a then array a else array (push (string name) a)
with_name name v = v

-- `cobj.get("properties").and_then(as_object).map(|p| p.contains_key(name)).unwrap_or(false)`
unfoldable pub has_property : String → Value → Bool
has_property name container = elim (Option.bind (get_key "properties" container) as_object) [
  | none ↦ false
  | some p ↦ elim (get name p) [ none ↦ false | some v ↦ true ]
]

abbrev pub is_hidden : FieldSpec → Bool
is_hidden s = unwrap_or s.hide false || (elim s.user_supplied [ none ↦ false | some source ↦ true ])

-- The parts of a dotted path that are not empty.
pub path_parts : String → List String
path_parts path = non_empty (split b'.' path)

unfoldable pub exists_at : List String → Value → Bool
exists_at [] node = false
exists_at (s ∷ []) node = has_property s node
exists_at (s ∷ next ∷ parts) node = elim (Option.bind (get_key "properties" node) (get_key s)) [
  | none ↦ false
  | some n ↦ exists_at (next ∷ parts) n
]

pub field_path_exists : Value → String → Bool
unfolding exists_at path_parts
field_path_exists schema path = exists_at (path_parts path) schema

module _ ⦃M : MapOps⦄ where
  pub set_required : Fields → String → Bool → Fields
  unfolding with_name retain_not
  set_required container name true = or_insert "required" (array nil) (with_name name) container
  set_required container name false = elim (Option.bind (get "required" container) as_array) [
    | none ↦ container
    | some a ↦
        let kept = retain_not name a in
        if is_nil kept
        then M.remove "required" container
        else M.insert "required" (array kept) container
  ]

  abbrev pub put_if {ℓ} : {A : Type ℓ} → (A → Fields → Fields) → Option A → Fields → Fields
  put_if f none m = m
  put_if f (some a) m = f a m

  -- The changes to the field's own schema.
  pub describe : FieldSpec → Fields → Fields
  describe s prop =
      put_if (λ f. M.insert "format" (string f)) s.format
        (put_if (λ t. M.insert "type" (string t)) s.ty
          (put_if (λ en. M.insert "enum" (array en)) s.enum_values
            (put_if (M.insert "example") s.example
              (put_if (λ d. M.insert "description" (string d)) s.description prop))))

  -- One patch, at the object that contains the field.
  pub patch_fields : FieldSpec → String → Fields → Fields
  unfolding describe set_required has_property
  patch_fields s name cobj =
      if not (has_property name (object cobj))
      then cobj
      else if is_hidden s
      then set_required (modify "properties" (on_fields (M.remove name)) cobj) name false
      else (let described =
            modify "properties" (on_fields (modify name (on_fields (describe s)))) cobj in
          elim s.is_required [ none ↦ described | some req ↦ set_required described name req ])

  -- `nav_to_container`, and the patch at what it finds.
  unfoldable pub patch_at : FieldSpec → List String → Value → Value
  unfolding patch_fields
  patch_at s [] node = node
  patch_at s (name ∷ []) node = on_fields (patch_fields s name) node
  patch_at s (seg ∷ next ∷ parts) node =
      let f = patch_at s (next ∷ parts) in
      on_fields (modify "properties" (on_fields (modify seg f))) node

  pub apply_field_patches : Value → List (String × FieldPatch) → Value
  unfolding patch_at path_parts
  apply_field_patches schema [] = schema
  apply_field_patches schema ((path, patch) ∷ fields) =
      apply_field_patches (patch_at (spec_of patch) (path_parts path) schema) fields

-- `Overlay` of config.rs, as far as the binding goes
pub record Overlay : Type 0 where
  pub tool : String
  pub authored_sha : Option String
  pub fields : List (String × FieldPatch)

-- The status and the reasons given for it.
pub data Reason : Type 0 where
  not_in_surface missing_field : String → Reason
  drifted : String → String → Reason

pub data Status : Type 0 where
  ok changed broken : Status

missing_fields : Value → List (String × FieldPatch) → List Reason
unfolding field_path_exists
missing_fields resolved [] = []
missing_fields resolved ((f, p) ∷ fs) =
    let rest = missing_fields resolved fs in
    if not (field_path_exists resolved f) then missing_field f ∷ rest else rest

pub binding_status : Overlay → Option Value → String → Status × List Reason
unfolding missing_fields
binding_status o none live_sha = (broken, not_in_surface o.tool ∷ [])
binding_status o (some resolved) live_sha = elim (missing_fields resolved o.fields) [
  | r ∷ rs ↦ (broken, r ∷ rs)
  | [] ↦ elim o.authored_sha [
    | none ↦ (ok, [])
    | some authored ↦
        if not (authored =? live_sha) then (changed, drifted authored live_sha ∷ []) else (ok, [])
  ]
]
