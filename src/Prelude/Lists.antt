-- ===== src/Prelude/Lists.antt =====
-- Lists measured by native numbers, and predicates on them by recursion.
use Prim.Native.Nat.{ℕ, suc, ◌+◌}
use mathlib.Core.Path.{◌≡◌}
use mathlib.Core.Bool.{Bool, true, false, ◌||◌}
use mathlib.Core.Logic.{inl, inr}
use min_mcp.Prelude.Tests.{Bool-cases}
use mathlib.Core.List.{List, [], ◌∷◌, ◌++◌}
use native.Mathlib.Omega.{arith}

module _ {ℓ} {A : Type ℓ} where
  abbrev pub length : List A → ℕ
  length [] = 0
  length (x ∷ xs) = suc (length xs)

  pub length-append : (xs ys : List A) → length (xs ++ ys) ≡ length xs + length ys
  length-append [] ys = omega arith
  length-append (x ∷ xs) ys = omega (arith, length-append xs ys)

  abbrev pub All {κ} : (A → Type κ) → List A → Type κ
  All P [] = Unit
  All P (x ∷ xs) = P x × All P xs

  -- `xs.iter().any(p)`
  abbrev pub any : (A → Bool) → List A → Bool
  any p [] = false
  any p (x ∷ xs) = p x || any p xs

  -- Where in a list an element stands.
  pub data At (a : A) : List A → Type ℓ where
    here : {xs : List A} → At a (a ∷ xs)
    there : {x : A} {xs : List A} → At a xs → At a (x ∷ xs)

  pub any-At : (p : A → Bool) (xs : List A) → any p xs ≡ true → (a : A) × At a xs × (p a ≡ true)
  any-At p [] h = absurd (cc)
  any-At p (x ∷ xs) h = elim (Bool-cases (p x)) [
    | inl e ↦ (x, here, e)
    | inr e ↦ let (a, i, k) = any-At p xs (ground arith) in (a, there i, k)
  ]

  pub At-any : (p : A → Bool) {a : A} {xs : List A} → At a xs → p a ≡ true → any p xs ≡ true
  At-any p {xs = []} i h = elim i [ ]
  At-any p {xs = x ∷ xs} here h = ground arith
  At-any p {xs = x ∷ xs} (there i) h = ground (arith, At-any p i h)

  pub All-At {κ} : (P : A → Type κ) {a : A} (xs : List A) → All P xs → At a xs → P a
  All-At P [] h i = elim i [ ]
  All-At P (x ∷ xs) (h, hs) here = h
  All-At P (x ∷ xs) (h, hs) (there i) = All-At P xs hs i

  pub All-snoc {κ} :
      (P : A → Type κ) (xs : List A) (a : A) → All P xs → P a → All P (xs ++ (a ∷ []))
  All-snoc P [] a h p = (p, tt)
  All-snoc P (x ∷ xs) a (h, hs) p = (h, All-snoc P xs a hs p)

  pub All-map {κ μ} :
      (P : A → Type κ) (Q : A → Type μ)
      → ((a : A) → P a → Q a)
      → (xs : List A) → All P xs
      → All Q xs
  All-map P Q f [] h = tt
  All-map P Q f (x ∷ xs) (h, hs) = (f x h, All-map P Q f xs hs)
