-- ===== src/Ids/Edits.antt =====
-- What an edit distance is: the least number of edits that make one text of another.
use mathlib.Core.Path.{subst}
use min_mcp.Prelude.{
  ℕ, suc, ◌&&◌, leb, ◌+◌, ◌≤◌, ◌≡◌, refl, inl, inr, min, List, [], ◌∷◌, arith, ◌==◌, length,
  Bool-cases, eqb→≡, eqb_refl,
}
use min_mcp.Ids.{cost}

-- A way to make `b` of `a` with `n` insertions, deletions and substitutions.
pub data Script : List ℕ → List ℕ → ℕ → Type 0 where
  done : Script [] [] 0
  keep : {a b : List ℕ} {n : ℕ} (x : ℕ) → Script a b n → Script (x ∷ a) (x ∷ b) n
  substitute : {a b : List ℕ} {n : ℕ} (x y : ℕ) → Script a b n → Script (x ∷ a) (y ∷ b) (suc n)
  delete : {a b : List ℕ} {n : ℕ} (x : ℕ) → Script a b n → Script (x ∷ a) b (suc n)
  insert : {a b : List ℕ} {n : ℕ} (y : ℕ) → Script a b n → Script a (y ∷ b) (suc n)

-- Levenshtein's recursion.
unfoldable pub lev : List ℕ → List ℕ → ℕ
lev [] b = length b
lev (x ∷ a) [] = suc (length a)
lev (x ∷ a) (y ∷ b) = min (min (lev a b + cost x y) (lev a (y ∷ b) + 1)) (lev (x ∷ a) b + 1)

lev-nil : (a : List ℕ) → lev a [] ≡ length a
unfolding lev
lev-nil [] = refl
lev-nil (x ∷ a) = refl

pub lev-Script : {a b : List ℕ} {n : ℕ} → Script a b n → lev a b ≤ n
unfolding lev
lev-Script done = omega arith
lev-Script (keep x s) = ground (arith, lev-Script s, eqb_refl x)
lev-Script (substitute x y s) = ground (arith, lev-Script s)
lev-Script (delete {a = a} {b = []} x s) = omega (arith, lev-Script s, lev-nil a)
lev-Script (delete {b = y ∷ b} x s) = ground (arith, lev-Script s)
lev-Script (insert {a = []} y s) = omega (arith, lev-Script s)
lev-Script (insert {a = x ∷ a} y s) = ground (arith, lev-Script s)

insertions : (b : List ℕ) → Script [] b (length b)
insertions [] = done
insertions (y ∷ b) = insert y (insertions b)

deletions : (a : List ℕ) → Script a [] (length a)
deletions [] = done
deletions (x ∷ a) = delete x (deletions a)

pub recount : {a b : List ℕ} {n k : ℕ} → n ≡ k → Script a b n → Script a b k
recount {a = a} {b = b} e s = subst (Script a b) e s

-- One character for another, for nothing if they are the same.
match : {a b : List ℕ} {i : ℕ} (x y : ℕ) → Script a b i → Script (x ∷ a) (y ∷ b) (i + cost x y)
match {a = a} {b = b} {i = i} x y p = elim (Bool-cases (x == y)) [
  | inl e ↦
      subst (λ z. Script (x ∷ a) (z ∷ b) (i + cost x y)) (eqb→≡ x y e)
        (recount (ground arith) (keep x p))
  | inr e ↦ recount (ground arith) (substitute x y p)
]

-- The least of three ways that end in two characters.
choose :
    (x y : ℕ) (a b : List ℕ) (i j k : ℕ)
    → Script a b i
    → Script a (y ∷ b) j
    → Script (x ∷ a) b k
    → Script (x ∷ a) (y ∷ b) (min (min (i + cost x y) (j + 1)) (k + 1))
choose x y a b i j k p q r =
    elim (Bool-cases (leb (i + cost x y) (j + 1) && leb (i + cost x y) (k + 1))) [
      | inl e ↦ recount (ground arith) (match x y p)
      | inr e ↦ elim (Bool-cases (leb (j + 1) (k + 1))) [
        | inl f ↦ recount (ground arith) (delete x q)
        | inr f ↦ recount (ground arith) (insert y r)
      ]
    ]

pub script : (a b : List ℕ) → Script a b (lev a b)
unfolding lev
script [] b = insertions b
script (x ∷ a) [] = deletions (x ∷ a)
script (x ∷ a) (y ∷ b) =
    choose x y a b (lev a b) (lev a (y ∷ b)) (lev (x ∷ a) b) (script a b) (script a (y ∷ b))
      (script (x ∷ a) b)
