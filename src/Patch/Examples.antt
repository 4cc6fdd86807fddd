-- ===== src/Patch/Examples.antt =====
-- src/surface/patch.rs: the theorems on a schema with a nested field.
use min_mcp.Prelude.{◌≡◌, refl, false, some, List, [], ◌∷◌, String, true, here, there}
use min_mcp.Json.{Value, string, array, object, nil, cons, Fields, end, field}
use min_mcp.Json.Entries.{entries}
use min_mcp.Patch.{
  spec_of, FieldSpec, FieldPatch, description, spec, default_spec, Overlay, apply_field_patches,
  field_path_exists,
}
use min_mcp.Patch.Kept.{field_path_exists-hidden}

abbrev body : Fields
body =
    field "properties" (object (field "currency" (object end) (field "amount" (object end) end)))
      (field "required" (array (cons (string "currency") (cons (string "amount") nil))) end)

abbrev schema : Value
schema = object (field "properties" (object (field "body" (object body) end)) end)

abbrev from_env : FieldSpec
from_env = record default_spec { user_supplied = some "env:CURRENCY" }

abbrev described : FieldSpec
described = record default_spec { description = some "ISO 4217"; is_required = some true }

abbrev patches : List (String × FieldPatch)
patches =
    ("body.amount", description "In cents.")
    ∷ ("body.currency", spec from_env)
    ∷ ("body.currency", spec described)
    ∷ []

field_path_exists-hidden_example :
    field_path_exists (apply_field_patches schema patches) "body.currency" ≡ false
unfolding spec_of
field_path_exists-hidden_example =
    field_path_exists-hidden patches schema "body.currency" (spec from_env) (there here) refl

abbrev overlay : Overlay
overlay = record {
  tool = "stripe.PostCharges";
  authored_sha = some "abc";
  fields = ("body.currency", spec from_env) ∷ [];
}
