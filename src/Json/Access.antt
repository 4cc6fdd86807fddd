-- ===== src/Json/Access.antt =====
-- Places in a JSON value, and when a value is well-formed: no map has a key twice.
use mathlib.Core.Path.{subst}
use min_mcp.Prelude.{
  Bool-cases, inl, inr, ℕ, zero, suc, String, ◌≡◌, refl, sym, ap, ◌≢◌, Bool, true, false, List, [],
  ◌∷◌, Option, none, some, arith, ◌=?◌,
}
use min_mcp.Json.{
  Value, null, bool, number, string, array, object, Items, nil, cons, Fields, end, field, get,
  is_null,
}

-- One step into a value: a key of an object, or a position in an array.
pub data Step : Type 0 where
  key : String → Step
  index : ℕ → Step

unfoldable pub nth : ℕ → Items → Option Value
nth i nil = none
nth zero (cons x xs) = some x
nth (suc i) (cons x xs) = nth i xs

unfoldable pub child : Step → Value → Option Value
child (key k) (object m) = get k m
child (index i) (array xs) = nth i xs
child s v = none

unfoldable pub at : List Step → Value → Option Value
at [] v = some v
at (s ∷ q) v = elim (child s v) [ none ↦ none | some c ↦ at q c ]

-- A value with nothing inside that is something: what a caller reads.
abbrev pub is_leaf : Value → Bool
is_leaf (bool b) = true
is_leaf (number n) = true
is_leaf (string s) = true
is_leaf v = false

-- What a value is, with the contents of a container left out.
abbrev pub shape : Value → Value
shape (array xs) = array nil
shape (object m) = object end
shape v = v

abbrev mutual
  pub IsWf : Value → Type 0
  IsWf null = Unit
  IsWf (bool b) = Unit
  IsWf (number n) = Unit
  IsWf (string s) = Unit
  IsWf (array xs) = IsWfItems xs
  IsWf (object m) = IsWfFields m

  pub IsWfItems : Items → Type 0
  IsWfItems nil = Unit
  IsWfItems (cons x xs) = IsWf x × IsWfItems xs

  pub IsWfFields : Fields → Type 0
  IsWfFields end = Unit
  IsWfFields (field k v m) = (get k m ≡ none) × IsWf v × IsWfFields m

pub get-IsWf : (k : String) (m : Fields) (c : Value) → IsWfFields m → get k m ≡ some c → IsWf c
unfolding get
get-IsWf k end c w e = absurd (cc)
get-IsWf k (field j v m) c w e = elim (Bool-cases (j =? k)) [
  | inl h ↦ let same : v ≡ c = ground arith in subst IsWf same w.1
  | inr h ↦ get-IsWf k m c w.2 (ground arith)
]

pub nth-IsWf : (i : ℕ) (xs : Items) (c : Value) → IsWfItems xs → nth i xs ≡ some c → IsWf c
unfolding nth
nth-IsWf i nil c w e = absurd (cc)
nth-IsWf zero (cons x xs) c w e = let same : x ≡ c = ground arith in subst IsWf same w.0
nth-IsWf (suc i) (cons x xs) c w e = nth-IsWf i xs c w.1 e

pub child-IsWf : (s : Step) (v c : Value) → IsWf v → child s v ≡ some c → IsWf c
unfolding child
child-IsWf (key k) (object m) c w e = get-IsWf k m c w e
child-IsWf (index i) (array xs) c w e = nth-IsWf i xs c w e
child-IsWf s v c w e = absurd (cc)

pub at-step : (s : Step) (q : List Step) (v c : Value) → child s v ≡ some c → at (s ∷ q) v ≡ at q c
unfolding at
at-step s q v c e = rw (e, at)

pub leaf_of_shape : (x y : Value) → is_leaf x ≡ true → shape y ≡ shape x → y ≡ x
leaf_of_shape (array xs) y h e = absurd (cc)
leaf_of_shape (object m) y h e = absurd (cc)
leaf_of_shape x (array ys) h e = ground arith
leaf_of_shape x (object m) h e = ground arith
leaf_of_shape x y h e = ground arith

pub null_of_shape : (x y : Value) → is_null x ≡ true → shape y ≡ shape x → is_null y ≡ true
null_of_shape null null h e = refl
null_of_shape x y h e = ground arith

pub child_container :
    (s : Step) (v c : Value) → child s v ≡ some c → (is_leaf v ≡ false) × (is_null v ≡ false)
unfolding child
child_container (key k) (object m) c e = (refl, refl)
child_container (index i) (array xs) c e = (refl, refl)
child_container s v c e = absurd (cc)

pub leaf-ne : (x y : Value) → is_leaf x ≡ true → is_leaf y ≡ false → shape x ≢ shape y
leaf-ne x y l m e = let same = leaf_of_shape x y l (sym e) in cc (l, m, ap (λ v. is_leaf v) same)

pub leaf_not_null : (x : Value) → is_leaf x ≡ true → is_null x ≡ false
leaf_not_null null h = absurd (cc)
leaf_not_null x h = refl
