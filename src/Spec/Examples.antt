-- ===== src/Spec/Examples.antt =====
-- src/spec.rs: the theorems at a concrete spec, and runs.
use mathlib.Core.Option
use min_mcp.Prelude.{
  arith, List, [], ◌∷◌, map, length, show, decimal, digit, ◌≤◌, ◌≡◌, ◌⊎◌, refl, true, false, ◌||◌,
  none, some, if◌then◌else◌, split, starts_with,
}
use min_mcp.Json.{Value, null, bool, string, object, end, field, get, is_null}
use min_mcp.Json.Entries.{entries}
use min_mcp.Exec.{no_body, form_body, flatten_form, body_of, is_no_fields}
use min_mcp.Spec.{
  Spec, Operation, max_resolved_nodes, after_two, descend, walk, resolve, body_schema,
  body_media_type, target_of,
}
use min_mcp.Spec.Operations.{make_op_id, give_ids, free_id}
use min_mcp.Spec.Ids.{IsUnique, give_ids-IsUnique}
use min_mcp.Spec.Size.{size, size-resolve}
use min_mcp.Spec.Bodies.{schema_for, body_schema-body_media_type, body_of_reference}

abbrev schema : Value
schema = object (field "type" (string "object") end)

abbrev content : Value
content = object (
    field "content" (object (field "application/json" (object (field "schema" schema end)) end))
      end)

-- A spec with one request body that operations share.
abbrev shared : Spec
shared = record {
  swagger2 = false;
  root = object (field "components" (object (field "Body" content end)) end);
}

abbrev reference : Value
reference = object (field "$ref" (string "#/components/Body") end)

abbrev by_reference : Operation
by_reference = record {
  op_id = "create";
  method = "post";
  path = "/v1/items";
  summary = "";
  description = "";
  raw = object (field "requestBody" reference end);
}

abbrev in_place : Operation
in_place = record by_reference { raw = object (field "requestBody" content end) }

-- The schema of the shared body is shown as that of JSON, though a body of that operation is sent as a form, by the example below.
reference_schema_runs : body_schema shared by_reference true ≡ schema
unfolding body_schema resolve after_two descend split starts_with get walk Option.bind
reference_schema_runs = refl

size-resolve_example :
    (resolve shared.root reference ≡ reference)
    ⊎ (size (resolve shared.root reference) ≤ max_resolved_nodes)
size-resolve_example = size-resolve shared.root reference

body_schema-body_media_type_example :
    body_schema shared in_place false
    ≡ (elim (body_media_type in_place) [ none ↦ null | some k ↦ schema_for in_place k ])
body_schema-body_media_type_example = body_schema-body_media_type shared in_place

body_of_reference_example :
    body_of (target_of shared by_reference) (object (field "a" (bool true) end)) ≡ (
      if is_null (object (field "a" (bool true) end))
        || is_no_fields (object (field "a" (bool true) end))
      then no_body
      else form_body (flatten_form (object (field "a" (bool true) end)) ""))
unfolding get
body_of_reference_example =
    body_of_reference shared by_reference "#/components/Body" (object (field "a" (bool true) end))
      refl

-- Three operations of one id, and one that has the number in its id already.
abbrev clashing : List Operation
clashing =
    by_reference ∷ record by_reference { op_id = "create_2" } ∷ by_reference ∷ by_reference ∷ []

give_ids_runs :
    map (λ op. op.op_id) (give_ids [] clashing)
    ≡ "create" ∷ "create_2" ∷ "create_3" ∷ "create_4" ∷ []
unfolding give_ids free_id show decimal digit
give_ids_runs = refl

give_ids-IsUnique_example :
    IsUnique [] (give_ids [] clashing) × (length (give_ids [] clashing) ≡ length clashing)
give_ids-IsUnique_example = give_ids-IsUnique [] clashing (omega arith)

make_op_id_runs : make_op_id (object end) "get" "/v1/items/{id}/" ≡ "get_v1_items_id"
unfolding make_op_id Option.bind get
make_op_id_runs = refl
