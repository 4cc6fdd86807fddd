-- ===== src/Preflight/Examples.antt =====
-- src/surface/preflight.rs: the theorem on a schema with a required field and an enum.
use min_mcp.Prelude.{String, ◌≡◌, ◌↔◌, refl, Bool, true, false, none, some, ◌=?◌}
use min_mcp.Json.{Value, string, array, object, nil, cons, Fields, end, field, get, get_key}
use min_mcp.Json.Access.{IsWfFields}
use min_mcp.Json.Entries.{entries}
use min_mcp.Preflight.{Comparing, preflight_walk, path_of}
use min_mcp.Preflight.Accepting.{Accepts, preflight_walk_iff}

pub text_eq : Value → Value → Bool
text_eq (string a) (string b) = a =? b
text_eq a b = false

abbrev pub on_texts : Comparing
on_texts = record { F = Unit; value_eq = text_eq; as_f64 = λ v. none; f64_eq = λ a b. true }

abbrev props : Fields
props =
    field "zone" (object (field "enum" (array (cons (string "eu") (cons (string "us") nil))) end))
      (field "note" (object end) end)

abbrev schema : Fields
schema = field "properties" (object props) (field "required" (array (cons (string "zone") nil)) end)

abbrev args : Value
args = object (field "zone" (string "mars") end)

props-IsWf : IsWfFields props
unfolding get
props-IsWf = (refl, (refl, (tt, (tt, tt)), tt), (refl, tt, tt))

preflight_walk_iff_example : (preflight_walk on_texts (object schema) args "" ≡ none) ↔ (
    (name : String) (q : Value)
    → get name props ≡ some q
    → Accepts on_texts (object schema) name q (get_key name args) (path_of "" name))
unfolding get
preflight_walk_iff_example = preflight_walk_iff on_texts schema props args "" refl props-IsWf
