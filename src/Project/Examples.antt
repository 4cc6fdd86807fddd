-- ===== src/Project/Examples.antt =====
-- The theorems about src/project.rs at concrete values, and runs of its functions.
use min_mcp.Prelude.{◌≡◌, refl, ◌↔◌, true, false, List, [], ◌∷◌, some, here}
use min_mcp.Json.{
  Value, null, bool, number, string, array, object, nil, cons, end, field, map_items, get, modify,
}
use min_mcp.Json.Entries.{entries, put, without}
use min_mcp.Json.Access.{IsWf, Step, key, index, at, child, nth}
use min_mcp.Project.{parse_path, prune, project, select_in, descend, remove_last}
use min_mcp.Project.Prune.{leads, resolves, resolves-prune, resolves-prune_mono}
use min_mcp.Project.Exact.{Selected, at-project_iff, at-project}

-- {"data": [{"id": 1, "key": "s"}, {"id": 2}], "more": true}
abbrev page : Value
page = object (
    field "data"
      (array (
        cons (object (field "id" (number "1") (field "key" (string "s") end)))
          (cons (object (field "id" (number "2") end)) nil)))
      (field "more" (bool true) end))

page-IsWf : IsWf page
unfolding get
page-IsWf = (refl, ((refl, tt, (refl, tt, tt)), ((refl, tt, tt), tt)), (refl, tt, tt))

parse_path_data : parse_path "data[].id" ≡ "data" ∷ "[]" ∷ "id" ∷ []
unfolding parse_path
parse_path_data = refl

parse_path_star : parse_path "data.*.id" ≡ "data" ∷ "[]" ∷ "id" ∷ []
unfolding parse_path
parse_path_star = refl

project-page :
    project page ("data[].key" ∷ "more" ∷ [])
    ≡ object (
        field "data"
          (array (cons (object (field "key" (string "s") end)) (cons null nil)))
          (field "more" (bool true) end))
unfolding project parse_path select_in get map_items put without
project-page = refl

prune-page :
    prune page ("data[].key" ∷ [])
    ≡ object (
        field "data"
          (array (
            cons
              (object (field "id" (number "1") end))
              (cons (object (field "id" (number "2") end)) nil)))
          (field "more" (bool true) end))
unfolding prune parse_path descend remove_last modify get map_items put without
prune-page = refl

-- {"data": [{"id": 1, "key": "s"}, {"id": 2}], "more": true}, with the secret and with no key twice
resolves-prune_example : resolves (parse_path "data[].key") (prune page ("data[].key" ∷ [])) ≡ false
resolves-prune_example =
    resolves-prune page ("data[].key" ∷ []) "data[].key" here (unfold parse_path in λ e. cc)

resolves-prune_mono_example : resolves ("more" ∷ []) page ≡ true
unfolding prune parse_path descend remove_last modify get map_items put without resolves leads
resolves-prune_mono_example = resolves-prune_mono ("more" ∷ []) page ("data[].key" ∷ []) refl

abbrev place : List Step
place = key "data" ∷ index 0 ∷ key "key" ∷ []

at-project_iff_example :
    (at place (project page ("data[].key" ∷ "more" ∷ [])) ≡ some (string "s"))
    ↔ Selected place (string "s") page ("data[].key" ∷ "more" ∷ [])
unfolding get
at-project_iff_example =
    at-project_iff page ("data[].key" ∷ "more" ∷ []) place (string "s") page-IsWf refl

at-project_example : at place page ≡ some (string "s")
unfolding project parse_path select_in get map_items put without at child nth
at-project_example =
    at-project page ("data[].key" ∷ "more" ∷ []) place (string "s") page-IsWf refl refl
