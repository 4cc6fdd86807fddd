-- ===== src/Json.antt =====
-- `serde_json::Value` as the program uses it. With `arbitrary_precision` a number is its text, and
-- with `preserve_order` a map is the sequence of its entries.
-- What `Map` does on a write is the crate's, so it is an interface, `MapOps`, with the laws of a map;
-- a value that is changed in place through `get_mut` is written back under its key.
pub mod Maps
pub mod Access
pub mod Entries
use min_mcp.Prelude.{
  String, ◌≡◌, Bool, true, false, ◌||◌, List, [], ◌∷◌, Option, none, some, ◌=?◌, if◌then◌else◌,
}

mutual
  pub data Value : Type 0 where
    null : Value
    bool : Bool → Value
    number : String → Value
    string : String → Value
    array : Items → Value
    object : Fields → Value

  pub data Items : Type 0 where
    nil : Items
    cons : Value → Items → Items

  pub data Fields : Type 0 where
    end : Fields
    field : String → Value → Fields → Fields

-- `map.get(k)`
unfoldable pub get : String → Fields → Option Value
get k end = none
get k (field j v m) = if j =? k then some v else get k m

pub record MapOps : Type 0 where
  pub insert : String → Value → Fields → Fields
  pub remove : String → Fields → Fields
  pub get-insert :
      (k j : String) (v : Value) (m : Fields)
      → get j (insert k v m) ≡ (if k =? j then some v else get j m)
  pub get-remove :
      (k j : String) (m : Fields) → get j (remove k m) ≡ (if k =? j then none else get j m)
  -- What an entry holds when it is removed makes no difference.
  pub remove-insert : (k : String) (v : Value) (m : Fields) → remove k (insert k v m) ≡ remove k m
  -- A new map with one entry put in holds that entry.
  pub insert-end : (k : String) (v : Value) → insert k v end ≡ field k v end

abbrev pub as_array : Value → Option Items
as_array (array xs) = some xs
as_array _ = none

abbrev pub as_object : Value → Option Fields
as_object (object m) = some m
as_object _ = none

abbrev pub as_str : Value → Option String
as_str (string s) = some s
as_str _ = none

abbrev pub as_bool : Value → Option Bool
as_bool (bool b) = some b
as_bool _ = none

abbrev pub is_null : Value → Bool
is_null null = true
is_null _ = false

-- `value.get(k)` with a text: only an object has it.
abbrev pub get_key : String → Value → Option Value
get_key k (object m) = get k m
get_key k _ = none

unfoldable pub map_items : (Value → Value) → Items → Items
map_items f nil = nil
map_items f (cons x xs) = cons (f x) (map_items f xs)

-- `items.iter().any(f)`
unfoldable pub any_item : (Value → Bool) → Items → Bool
any_item f nil = false
any_item f (cons x xs) = f x || any_item f xs

-- `v.as_str() == Some(s)`
abbrev pub is_str : String → Value → Bool
is_str s v = elim (as_str v) [ none ↦ false | some t ↦ t =? s ]

-- `value.get(k).is_some()`
abbrev pub has_key : String → Value → Bool
has_key k v = elim (get_key k v) [ none ↦ false | some x ↦ true ]

module _ ⦃M : MapOps⦄ where
  -- `if let Some(child) = map.get_mut(k) { f(child) }`
  unfoldable pub modify : String → (Value → Value) → Fields → Fields
  modify k f m = elim (get k m) [ none ↦ m | some v ↦ M.insert k (f v) m ]

  -- `map.entry(k).or_insert(v)`, then `f` on the value found or put in
  unfoldable pub or_insert : String → Value → (Value → Value) → Fields → Fields
  or_insert k d f m = elim (get k m) [ none ↦ M.insert k (f d) m | some v ↦ M.insert k (f v) m ]
