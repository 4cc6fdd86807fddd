-- ===== src/Minify/Examples.antt =====
-- src/surface/minify.rs: a schema with a field whose name is a keyword.
use min_mcp.Prelude.{◌≡◌}
use min_mcp.Json.{Value, string, object, end, field}
use min_mcp.Json.Entries.{entries}
use min_mcp.Patch.{field_path_exists}
use min_mcp.Minify.{minify_schema, minify_schema_hard}
use min_mcp.Minify.Names.{field_path_exists-minify}

abbrev schema : Value
schema = object (
    field "description" (string "A note") (
      field "properties"
        (object (field "description" (object (field "type" (string "string") end)) end)) end))

field_path_exists-minify_example :
    (field_path_exists (minify_schema schema) "description"
      ≡ field_path_exists schema "description")
    × (field_path_exists (minify_schema_hard schema) "description"
        ≡ field_path_exists schema "description")
field_path_exists-minify_example = field_path_exists-minify schema "description"
