-- ===== src/Project.antt =====
-- src/project.rs: selecting, removing, renaming and setting the fields of a JSON value by path.
pub mod Prune
pub mod Keeps
pub mod Merge
pub mod Places
pub mod Within
pub mod Write
pub mod Rename
pub mod Examples
pub mod Select
pub mod Exact
use min_mcp.Prelude.{
  String, Bool, true, false, not, ◌&&◌, List, [], ◌∷◌, Option, none, some, map, ◌=?◌, if◌then◌else◌,
  unwrap_or, replace, split, non_empty,
}
use mathlib.Core.Option
use min_mcp.Json.{
  Value, null, array, object, Items, nil, cons, Fields, end, field, MapOps, get, get_key, as_array,
  map_items, modify, or_insert,
}

-- "data[].id" is `data`, `[]`, `id`
unfoldable pub parse_path : String → List String
unfolding replace split non_empty
parse_path p = non_empty (split b'.' (replace (replace p "[]" ".[].") ".*." ".[]."))

abbrev pub is_wild : String → Bool
is_wild seg = seg =? "[]"

abbrev pub clear_array : Value → Value
clear_array (array xs) = array nil
clear_array v = v

abbrev pub on_items : (Value → Value) → Value → Value
on_items f (array xs) = array (map_items f xs)
on_items f v = v

abbrev pub on_fields : (Fields → Fields) → Value → Value
on_fields f (object m) = object (f m)
on_fields f v = v

abbrev pub is_nil : List String → Bool
is_nil [] = true
is_nil (x ∷ xs) = false

module _ ⦃M : MapOps⦄ where
  -- `if let Some(val) = o.remove(seg) { o.insert(new, val) }`
  abbrev pub rename_key : String → String → Fields → Fields
  rename_key seg new m = elim (get seg m) [
    | none ↦ m
    | some val ↦ M.insert new val (M.remove seg m)
  ]

  -- `f` at what a segment names in `v`: each element under `[]`, else the value of that key.
  pub descend : String → (Value → Value) → Value → Value
  descend seg f v = if is_wild seg then on_items f v else on_fields (modify seg f) v

  unfoldable pub remove_last : String → Value → Value
  remove_last seg v = if is_wild seg then clear_array v else on_fields (M.remove seg) v

  unfoldable pub remove_at : List String → Value → Value
  remove_at [] v = v
  remove_at (seg ∷ []) v = remove_last seg v
  remove_at (seg ∷ next ∷ rest) v = descend seg (remove_at (next ∷ rest)) v

  unfoldable pub prune : Value → List String → Value
  unfolding remove_at
  prune v [] = v
  prune v (p ∷ ps) = prune (remove_at (parse_path p) v) ps

  -- What `f` selects at what a segment names: an element of an array with nothing selected is null.
  pub select_in : String → (Value → Option Value) → Value → Option Value
  select_in seg f v =
      if is_wild seg
      then Option.map (λ xs. array (map_items (λ e. unwrap_or (f e) null) xs)) (as_array v)
      else elim (get_key seg v) [
        | none ↦ none
        | some child ↦ Option.map (λ sub. object (M.insert seg sub end)) (f child)
      ]

  pub select_path : List String → Value → Option Value
  select_path [] v = some v
  select_path (seg ∷ rest) v = select_in seg (select_path rest) v

  -- `am.remove(&k)`, merged by `f` with what was there, and `am.insert(k, merged)`
  pub put_merged : (Value → Value) → String → Value → Fields → Fields
  put_merged f k v am = elim (get k am) [
    | none ↦ M.insert k v am
    | some av ↦ M.insert k (f av) (M.remove k am)
  ]

  mutual
    unfolding put_merged

    pub deep_merge : Value → Value → Value
    deep_merge (object am) (object bm) = object (merge_fields am bm)
    deep_merge (array xs) (array ys) = array (merge_items xs ys)
    deep_merge null b = b
    deep_merge a b = a

    pub merge_fields : Fields → Fields → Fields
    merge_fields am end = am
    merge_fields am (field k v bm) = merge_fields (put_merged (λ av. deep_merge av v) k v am) bm

    pub merge_items : Items → Items → Items
    merge_items xs nil = xs
    merge_items nil (cons y ys) = cons y ys
    merge_items (cons x xs) (cons y ys) = cons (deep_merge x y) (merge_items xs ys)

  pub project_from : Value → Value → List String → Value
  unfolding select_path deep_merge
  project_from acc value [] = acc
  project_from acc value (p ∷ ps) = elim (select_path (parse_path p) value) [
    | none ↦ project_from acc value ps
    | some sel ↦ project_from (deep_merge acc sel) value ps
  ]

  pub project : Value → List String → Value
  unfolding project_from
  project value paths = project_from null value paths

  pub rename_at : List String → String → Value → Value
  rename_at [] new v = v
  rename_at (seg ∷ rest) new v =
      if is_nil rest && not (is_wild seg)
      then on_fields (rename_key seg new) v
      else descend seg (rename_at rest new) v

  pub rename : Value → String → String → Value
  unfolding rename_at
  rename value path new_name = rename_at (parse_path path) new_name value

  pub default_at : List String → Value → Value → Value
  default_at [] val v = v
  default_at (seg ∷ []) val v = on_fields (or_insert seg val (λ x. x)) v
  default_at (seg ∷ next ∷ rest) val v =
      let f = default_at (next ∷ rest) val in on_fields (or_insert seg (object end) f) v

  pub set_default : Value → String → Value → Value
  unfolding default_at
  set_default value path val = default_at (parse_path path) val value

  pub set_at : List String → Value → Value → Value
  set_at [] val v = v
  set_at (seg ∷ []) val v = on_fields (M.insert seg val) v
  set_at (seg ∷ next ∷ rest) val v =
      let f = set_at (next ∷ rest) val in on_fields (or_insert seg (object end) f) v

  unfoldable pub set : Value → String → Value → Value
  unfolding set_at
  set value path val = set_at (parse_path path) val value
