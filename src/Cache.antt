-- ===== src/Cache.antt =====
-- src/surface/cache.rs: what may be served from the read cache, the form of a call's arguments that it is
-- keyed by, and the removal of an upstream's entries; src/surface/dispatch.rs: the lookup and the insertion.
-- A `HashMap` is the list of its entries. An `Instant` is a number of nanoseconds.
pub mod Canonical
pub mod Entries
pub mod Examples
use Prim.Native.Char.{code}
use mathlib.Core.Option
use min_mcp.Prelude.{
  ℕ, ◌+◌, ◌-◌, ◌*◌, String, ◌<>◌, Bool, true, false, not, ◌&&◌, ◌||◌, List, [], ◌∷◌, Option, none,
  some, ltb, leb, ◌==◌, ◌=?◌, if◌then◌else◌, length, map,
}
use min_mcp.Json.{
  Value, null, bool, number, string, array, object, Items, nil, cons, Fields, end, field,
}
use min_mcp.AuditChain.{JsonText}
use min_mcp.Config.{Overlay, Config, overlay_for}

-- `a <= b` on texts. The order of the bytes of UTF-8 is that of the characters' codes.
pub text_leb : String → String → Bool
text_leb String.[] t = true
text_leb (String.◌∷◌ c s) String.[] = false
text_leb (String.◌∷◌ c s) (String.◌∷◌ d t) =
    ltb (code c) (code d) || code c == code d && text_leb s t

pub insert_key : String → List String → List String
unfolding text_leb
insert_key k [] = k ∷ []
insert_key k (j ∷ ks) = if text_leb k j then k ∷ j ∷ ks else j ∷ insert_key k ks

-- `keys.sort()`
pub sort : List String → List String
unfolding insert_key
sort [] = []
sort (k ∷ ks) = insert_key k (sort ks)

-- An object's keys, each with the text written for its value.
abbrev pub Rendered : Type 0
Rendered = List (String × String)

abbrev pub keys : Rendered → List String
keys r = map (λ (e : String × String). e.0) r

-- `&map[k]`, as text
pub text_at : String → Rendered → String
text_at k [] = ""
text_at k ((j, t) ∷ r) = if j =? k then t else text_at k r

-- The texts with a comma between each two.
pub join : List String → String
join [] = ""
join (t ∷ []) = t
join (t ∷ u ∷ ts) = t <> "," <> join (u ∷ ts)

module _ (J : JsonText) where
  -- The entries in the order of their keys.
  pub entry_texts : Rendered → List String → List String
  unfolding text_at
  entry_texts r ks = map (λ k. J.display (string k) <> ":" <> text_at k r) ks

  mutual
    unfolding entry_texts sort join

    pub write_canon : Value → String
    write_canon (object m) =
        let r = write_fields m in "{" <> join (entry_texts r (sort (keys r))) <> "}"
    write_canon (array xs) = "[" <> join (write_items xs) <> "]"
    write_canon scalar = J.display scalar

    pub write_items : Items → List String
    write_items nil = []
    write_items (cons x xs) = write_canon x ∷ write_items xs

    pub write_fields : Fields → Rendered
    write_fields end = []
    write_fields (field k v m) = (k, write_canon v) ∷ write_fields m

  pub canonical_args : Value → String
  unfolding write_canon
  canonical_args v = write_canon v

abbrev pub is_true : Option Bool → Bool
is_true none = false
is_true (some b) = b

-- `o.cacheable` of the tool's overlay, or else the upstream's own signal; nothing with a TTL of 0.
unfoldable pub cache_allowed : ℕ → Option Overlay → Option Bool → Bool
cache_allowed ttl_s overlay read_only =
    if ttl_s == 0
    then false
    else elim (Option.bind overlay (λ o. o.cacheable)) [ some c ↦ c | none ↦ is_true read_only ]

abbrev pub Key : Type 0
Key = String × String

abbrev pub Entry : Type 0
Entry = Key × ℕ × Value

abbrev pub ReadCache : Type 0
ReadCache = List Entry

abbrev pub same_key : Key → Key → Bool
same_key a b = a.0 =? b.0 && a.1 =? b.1

abbrev pub max_entries : ℕ
max_entries = 512

abbrev pub entry_max_bytes : ℕ
entry_max_bytes = 262144

-- `cache.get(k)`
unfoldable pub find_entry : Key → ReadCache → Option (ℕ × Value)
find_entry k [] = none
find_entry k ((j, at, v) ∷ c) = if same_key j k then some (at, v) else find_entry k c

-- `cache.insert(k, (at, v))`
unfoldable pub put_entry : Key → ℕ → Value → ReadCache → ReadCache
put_entry k at v [] = (k, at, v) ∷ []
put_entry k at v ((j, at', w) ∷ c) =
    if same_key j k then (j, at, v) ∷ c else (j, at', w) ∷ put_entry k at v c

-- `cache.retain(f)`
unfoldable pub retain : (Entry → Bool) → ReadCache → ReadCache
retain f [] = []
retain f (e ∷ c) = if f e then e ∷ retain f c else retain f c

abbrev pub is_fresh : ℕ → ℕ → Entry → Bool
is_fresh ttl now e = ltb (now - e.1) ttl

-- The entry of a call, if it is not expired.
unfoldable pub cached : ℕ → ℕ → Key → ReadCache → Option Value
unfolding find_entry
cached ttl now k c = elim (find_entry k c) [
  | none ↦ none
  | some (at, v) ↦ if ltb (now - at) ttl then some v else none
]

-- A full cache drops what is expired, and all where that is not enough.
unfoldable pub make_room : ℕ → ℕ → ReadCache → ReadCache
unfolding retain
make_room ttl now c =
    let kept = retain (is_fresh ttl now) c in
    if leb max_entries (length c) then (if leb max_entries (length kept) then [] else kept) else c

-- A result of `size` bytes is put in if it is not too large.
unfoldable pub store_read : ℕ → ℕ → Key → ℕ → Value → ReadCache → ReadCache
unfolding make_room put_entry
store_read ttl now k size v c =
    if leb size entry_max_bytes then put_entry k now v (make_room ttl now c) else c

-- Keeps the entry unless its tool is of upstream `idx`; `owner` is the tool's upstream by the catalog.
abbrev pub is_other : (String → Option ℕ) → ℕ → Entry → Bool
is_other owner idx e = elim (owner e.0.0) [ none ↦ true | some i ↦ not (i == idx) ]

unfoldable pub bust_upstream_cache : (String → Option ℕ) → ℕ → ReadCache → ReadCache
unfolding retain
bust_upstream_cache owner idx c = retain (is_other owner idx) c
