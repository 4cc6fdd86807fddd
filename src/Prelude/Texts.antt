-- ===== src/Prelude/Texts.antt =====
-- Rust's `str` operations on native texts, character by character.
use Prim.Native.Nat.{ℕ, zero, suc, ◌-◌}
use Prim.Native.Char.{Char, code}
use Prim.Native.String.{String, ◌++◌ as ◌<>◌}
use mathlib.Core.Option
use mathlib.Core.Option.{Option, none, some}
use mathlib.Core.Bool.{Bool, true, false, ◌&&◌, ◌||◌}
use mathlib.Core.List.{List, [], ◌∷◌}
use text.Mathlib.Text.{◌==◌ as text_eq}
use min_mcp.Prelude.Tests.{◌==◌, if◌then◌else◌}

-- `a == b` on texts
infix 50 ◌=?◌
abbrev pub ◌=?◌ : String → String → Bool
s =? t = text_eq s t

-- `s.starts_with(p)`
unfoldable pub starts_with : String → String → Bool
starts_with s String.[] = true
starts_with String.[] (String.◌∷◌ d p) = false
starts_with (String.◌∷◌ c s) (String.◌∷◌ d p) = code c == code d && starts_with s p

-- `s.chars().count()`
unfoldable pub count_chars : String → ℕ
count_chars String.[] = 0
count_chars (String.◌∷◌ c s) = suc (count_chars s)

-- `s.replace(p, by)` for a pattern that is not empty: `skip` counts the characters of a match that
-- are still to be passed over.
unfoldable pub replace_from : String → String → ℕ → String → String
unfolding starts_with count_chars
replace_from p by skip String.[] = String.[]
replace_from p by (suc skip) (String.◌∷◌ c s) = replace_from p by skip s
replace_from p by zero (String.◌∷◌ c s) = elim (starts_with (String.◌∷◌ c s) p) [
  | true ↦ by <> replace_from p by (count_chars p - 1) s
  | false ↦ String.◌∷◌ c (replace_from p by zero s)
]

unfoldable pub replace : String → String → String → String
unfolding replace_from
replace s p by = replace_from p by 0 s

abbrev pub cons_head : Char → List String → List String
cons_head c [] = String.◌∷◌ c String.[] ∷ []
cons_head c (w ∷ ws) = String.◌∷◌ c w ∷ ws

-- `s.split(c)` at the character with code `d`
unfoldable pub split : ℕ → String → List String
split d String.[] = String.[] ∷ []
split d (String.◌∷◌ c s) =
    let rest = split d s in if code c == d then String.[] ∷ rest else cons_head c rest

abbrev pub is_empty : String → Bool
is_empty String.[] = true
is_empty (String.◌∷◌ c s) = false

-- `.filter(|s| !s.is_empty())`
unfoldable pub non_empty : List String → List String
non_empty [] = []
non_empty (w ∷ ws) = if is_empty w then non_empty ws else w ∷ non_empty ws

-- `s.contains(c)` for the character with code `d`
unfoldable pub contains : ℕ → String → Bool
contains d String.[] = false
contains d (String.◌∷◌ c s) = code c == d || contains d s

-- `s.strip_suffix(c)` for the character with code `d`
unfoldable pub strip_suffix : ℕ → String → Option String
strip_suffix d String.[] = none
strip_suffix d (String.◌∷◌ c s) =
    let rest = strip_suffix d s in
    if is_empty s && code c == d then some String.[] else Option.map (λ r. String.◌∷◌ c r) rest
