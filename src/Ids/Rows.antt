-- ===== src/Ids/Rows.antt =====
-- src/surface/ids.rs, `edit_distance`: the rows of the table, and Levenshtein's recursion on prefixes.
use mathlib.Core.Path.{subst}
use min_mcp.Prelude.{◌≤◌, ℕ, ◌+◌, ◌≡◌, refl, sym, ap, ◌∙◌, List, [], ◌∷◌, arith, length, String}
use min_mcp.Ids.{range, row_from, rows, last, chars, edit_distance}
use min_mcp.Ids.Edits.{
  recount, lev, lev-Script, script, Script, done, keep, substitute, delete, insert,
}

unfoldable pub rev_onto : List ℕ → List ℕ → List ℕ
rev_onto [] acc = acc
rev_onto (x ∷ xs) acc = rev_onto xs (x ∷ acc)

-- The distances of `a` to all prefixes of `b` (its first part, reversed, is `rb`).
levs : List ℕ → List ℕ → List ℕ → List ℕ
levs a rb [] = lev a rb ∷ []
levs a rb (y ∷ b) = lev a rb ∷ levs a (y ∷ rb) b

levs-nil : (rb b : List ℕ) → levs [] rb b ≡ range (length rb) (length b)
unfolding levs range lev
levs-nil rb [] = refl
levs-nil rb (y ∷ b) = ap (λ r. length rb ∷ r) (levs-nil (y ∷ rb) b)

row-levs :
    (x : ℕ) (a rb b : List ℕ)
    → lev (x ∷ a) rb ∷ row_from x (lev (x ∷ a) rb) (levs a rb b) b ≡ levs (x ∷ a) rb b
unfolding levs row_from lev
row-levs x a rb [] = refl
row-levs x a rb (y ∷ []) = refl
row-levs x a rb (y ∷ z ∷ b) = ap (λ r. lev (x ∷ a) rb ∷ r) (row-levs x a (y ∷ rb) (z ∷ b))

last-levs : (a rb b : List ℕ) → last (levs a rb b) ≡ lev a (rev_onto b rb)
unfolding levs last rev_onto
last-levs a rb [] = refl
last-levs a rb (y ∷ []) = refl
last-levs a rb (y ∷ z ∷ b) = last-levs a (y ∷ rb) (z ∷ b)

rows-levs : (pa a b : List ℕ) → rows (length pa) (levs pa [] b) a b ≡ levs (rev_onto a pa) [] b
unfolding rows rev_onto lev
rows-levs pa [] b = refl
rows-levs pa (x ∷ a) b =
    let next : length pa + 1 ≡ lev (x ∷ pa) [] = omega arith in
    ap (λ n. rows n (n ∷ row_from x n (levs pa [] b) b) a b) next
    ∙ ap (λ r. rows (lev (x ∷ pa) []) r a b) (row-levs x pa [] b)
    ∙ rows-levs (x ∷ pa) a b

edit_distance-lev :
    (s t : String) → edit_distance s t ≡ lev (rev_onto (chars s) []) (rev_onto (chars t) [])
unfolding edit_distance
edit_distance-lev s t =
    let a = chars s in
    let b = chars t in
    ap (λ r. last (rows 0 r a b)) (sym (levs-nil [] b))
    ∙ ap last (rows-levs [] a b)
    ∙ last-levs (rev_onto a []) [] b

-- A way to edit one text into another, done from the back, on top of another such way.
Script-rev_onto :
    {a b c d : List ℕ} {n m : ℕ}
    → Script a b n
    → Script c d m
    → Script (rev_onto a c) (rev_onto b d) (n + m)
unfolding rev_onto
Script-rev_onto {m = m} done t = recount (omega arith) t
Script-rev_onto (keep x s) t = Script-rev_onto s (keep x t)
Script-rev_onto {m = m} (substitute {n = n} x y s) t =
    recount (omega arith) (Script-rev_onto s (substitute x y t))
Script-rev_onto (delete x s) t = recount (omega arith) (Script-rev_onto s (delete x t))
Script-rev_onto (insert y s) t = recount (omega arith) (Script-rev_onto s (insert y t))

rev-rev_onto : (a c : List ℕ) → rev_onto (rev_onto a c) [] ≡ rev_onto c a
unfolding rev_onto
rev-rev_onto [] c = refl
rev-rev_onto (x ∷ a) c = rev-rev_onto a (x ∷ c)

Script-rev : {a b : List ℕ} {n : ℕ} → Script a b n → Script (rev_onto a []) (rev_onto b []) n
Script-rev s = recount (omega arith) (Script-rev_onto s done)

-- The distance of two names is the least number of insertions, deletions and substitutions that make the
-- second of the first: it is enough, and no fewer are.
pub edit_distance_least :
    (s t : String)
    → Script (chars s) (chars t) (edit_distance s t)
      × ((n : ℕ) → Script (chars s) (chars t) n → edit_distance s t ≤ n)
unfolding rev_onto
edit_distance_least s t =
    let a = chars s in
    let b = chars t in
    let ra = rev_onto a [] in
    let rb = rev_onto b [] in
    let e = edit_distance-lev s t in
    (
      subst (λ x. Script x b (edit_distance s t)) (rev-rev_onto a [])
          (subst (λ y. Script (rev_onto ra []) y (edit_distance s t)) (rev-rev_onto b [])
            (recount (sym e) (Script-rev (script ra rb)))),
      λ n w. omega (arith, e, lev-Script (Script-rev w)),
    )
