-- ===== src/Results/Examples.antt =====
-- src/surface/results.rs: the theorems at a concrete result. The text form here knows one text.
use min_mcp.Prelude.{false, [], ◌∷◌, none, some, ◌=?◌, if◌then◌else◌}
use min_mcp.Json.{Value, string, array, object, nil, cons, end, field}
use min_mcp.Json.Entries.{entries}
use min_mcp.AuditChain.{JsonText}
use min_mcp.AuditChain.Examples.{nulls, read_number, read_number-nulls}
use min_mcp.Results.{Expect}
use min_mcp.Results.Shape.{ResponseTransform, always}

abbrev pub text : JsonText
text = record {
  display = λ v. "{}";
  from_str = λ s. if s =? "{}" then some (object end) else none;
  from_u64 = λ n. array (nulls n);
  as_u64 = read_number;
  as_u64-from_u64 = read_number-nulls;
}

-- {"content": [{"type": "text", "text": "{}"}], "structuredContent": {"id": "1", "key": "s"}}
abbrev pub result : Value
result = object (
    field "content"
      (array (cons (object (field "type" (string "text") (field "text" (string "{}") end))) nil))
      (field "structuredContent" (object (field "id" (string "1") (field "key" (string "s") end)))
        end))

abbrev pub strip : ResponseTransform
strip = record { keep = []; remove = "key" ∷ []; renames = []; sets = []; jq = none; when = always }

abbrev check : Expect
check = record {
  status = none;
  is_error = some false;
  has = "id" ∷ [];
  missing = "key" ∷ [];
  containing = some "{";
}
