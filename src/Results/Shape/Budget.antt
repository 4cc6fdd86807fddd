-- ===== src/Results/Shape/Budget.antt =====
-- src/surface/minify.rs, `budget_truncate`: the size of a text that was cut to a budget.
use Prim.Native.Char.{Char, code}
use text.Mathlib.TextLemmas.{nil-append, cons-append}
use min_mcp.Prelude.{
  ℕ, ◌+◌, ◌-◌, ◌≤◌, max, String, ◌<>◌, ◌≡◌, ap, ◌∙◌, inl, inr, true, false, arith, length,
  length-append, as_bytes, utf8, leb, Bool-cases, leb→le,
}
use min_mcp.Results.Shape.{len, truncate, budget_truncate}

len-append : (s t : String) → len (s <> t) ≡ len s + len t
unfolding as_bytes
len-append String.[] t = ground (arith, nil-append t)
len-append (String.◌∷◌ c s) t =
    ap len (cons-append c s t)
    ∙ length-append (utf8 (code c)) (as_bytes (s <> t))
    ∙ omega (arith, len-append s t, length-append (utf8 (code c)) (as_bytes s))

cut_in :
    (n : ℕ) (c : Char) (s : String)
    → leb (length (utf8 (code c))) n ≡ true
    → truncate n (String.◌∷◌ c s) ≡ String.◌∷◌ c (truncate (n - length (utf8 (code c))) s)
unfolding truncate
cut_in n c s e = ground (arith)

cut_out :
    (n : ℕ) (c : Char) (s : String)
    → leb (length (utf8 (code c))) n ≡ false
    → truncate n (String.◌∷◌ c s) ≡ ""
unfolding truncate
cut_out n c s e = ground (arith)

-- What is kept fits.
len-truncate : (n : ℕ) (s : String) → len (truncate n s) ≤ n
unfolding as_bytes truncate
len-truncate n String.[] = omega arith
len-truncate n (String.◌∷◌ c s) =
    let w = length (utf8 (code c)) in
    elim (Bool-cases (leb w n)) [
      | inl e ↦
          let rest = truncate (n - w) s in
          omega (
            arith,
            ap len (cut_in n c s e),
            length-append (utf8 (code c)) (as_bytes rest),
            leb→le w n e,
            len-truncate (n - w) s,
          )
      | inr e ↦ omega (arith, ap len (cut_out n c s e))
    ]

-- A text cut to a budget has no more bytes than the budget, the notice that it was cut included, as long as
-- the notice itself fits.
pub len-budget_truncate :
    (s : String) (n : ℕ) (suffix : String) → len (budget_truncate s n suffix) ≤ max n (len suffix)
unfolding budget_truncate
len-budget_truncate s n suffix =
    ground (arith, len-append (truncate (n - len suffix) s) suffix, len-truncate (n - len suffix) s)
