-- ===== src/Ids/Near.antt =====
-- src/surface/ids.rs: which candidates are suggested for a name that is not known.
use Prim.Native.Char.{Char}
use min_mcp.Prelude.{
  ℕ, ◌/◌, max, ◌≤◌, ◌≡◌, refl, ap, String, Bool, false, List, [], ◌∷◌, arith, leb, if◌then◌else◌,
  length, is_empty,
}
use min_mcp.Ids.{
  chars, edit_distance, abs_diff, Scored, sort_scored, take_names, normalize_id, score,
  closest_matches,
}
use min_mcp.Ids.Edits.{Script, done, keep, substitute, delete, insert}
use min_mcp.Ids.Rows.{edit_distance_least}

-- Every edit changes the length by one at most.
length-Script : {a b : List ℕ} {n : ℕ} → Script a b n → abs_diff (length b) (length a) ≤ n
length-Script done = omega arith
length-Script (keep x s) = omega (arith, length-Script s)
length-Script (substitute x y s) = omega (arith, length-Script s)
length-Script (delete x s) = omega (arith, length-Script s)
length-Script (insert y s) = omega (arith, length-Script s)

length-edit_distance :
    (s t : String) → abs_diff (length (chars t)) (length (chars s)) ≤ edit_distance s t
length-edit_distance s t = length-Script (edit_distance_least s t).0

module _ (is_alphanumeric : Char → Bool) (lower : Char → String) where
  -- The candidates whose distance is within the budget.
  unfoldable pub within : String → ℕ → List String → Scored
  within wnorm max_d [] = []
  within wnorm max_d (cand ∷ cands) =
      let rest = within wnorm max_d cands in
      let d = edit_distance wnorm (normalize_id is_alphanumeric lower cand) in
      if leb d max_d then (d, cand) ∷ rest else rest

  score-within :
      (wnorm : String) (max_d : ℕ) (cands : List String)
      → score is_alphanumeric lower wnorm max_d cands ≡ within wnorm max_d cands
  unfolding score within
  score-within wnorm max_d [] = refl
  score-within wnorm max_d (cand ∷ cands) = ground (
    arith,
    score-within wnorm max_d cands,
    length-edit_distance wnorm (normalize_id is_alphanumeric lower cand),
  )

  -- The candidates suggested for a name with a letter or a digit are the nearest of all whose edit distance
  -- is within the budget, which is 2 or a quarter of the name's length: none is lost by comparing lengths
  -- before.
  pub closest_matches_unfiltered :
      (wrong : String) (candidates : List String) (n : ℕ)
      → is_empty (normalize_id is_alphanumeric lower wrong) ≡ false
      → closest_matches is_alphanumeric lower wrong candidates n
        ≡ take_names n (
            sort_scored (
              within
                (normalize_id is_alphanumeric lower wrong)
                (max 2 (length (chars (normalize_id is_alphanumeric lower wrong)) / 4))
                candidates))
  unfolding closest_matches
  closest_matches_unfiltered wrong candidates n h =
      let wnorm = normalize_id is_alphanumeric lower wrong in
      rw (h, closest_matches)
        (ap (λ x. take_names n (sort_scored x))
          (score-within wnorm (max 2 (length (chars wnorm) / 4)) candidates))
