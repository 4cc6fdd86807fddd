-- ===== src/Ids/Examples.antt =====
-- src/surface/ids.rs: the theorem on edit distances at two words, and runs of the code.
use Prim.Native.Char.{Char, code}
use Prim.Native.String.{String}
use min_mcp.Prelude.{ℕ, ◌≤◌, ◌/◌, max, ◌≡◌, refl, Bool, not, ◌==◌, [], ◌∷◌, length}
use min_mcp.Ids.{
  chars, edit_distance, range, rows, row_from, last, sanitize_name, take, normalize_id,
  closest_matches, take_names, sort_scored,
}
use min_mcp.Ids.Edits.{Script}
use min_mcp.Ids.Rows.{edit_distance_least}
use min_mcp.Ids.Near.{within, closest_matches_unfiltered}

kitten-sitting : edit_distance "kitten" "sitting" ≡ 3
unfolding edit_distance chars range rows row_from last
kitten-sitting = refl

clean_name : sanitize_name "a.b" 61 ≡ chars "a_b"
unfolding sanitize_name take chars
clean_name = refl

edit_distance_least_example :
    Script (chars "kitten") (chars "sitting") (edit_distance "kitten" "sitting")
    × ((n : ℕ) → Script (chars "kitten") (chars "sitting") n → edit_distance "kitten" "sitting" ≤ n)
edit_distance_least_example = edit_distance_least "kitten" "sitting"

abbrev same : Char → String
same c = String.◌∷◌ c String.[]

abbrev letters : Char → Bool
letters c = not (code c == b'.')

closest_matches_unfiltered_example :
    closest_matches letters same "stripe.Pay" ("stripe.Pray" ∷ "x" ∷ []) 2
    ≡ take_names 2 (
        sort_scored (
          within letters same
            (normalize_id letters same "stripe.Pay")
            (max 2 (length (chars (normalize_id letters same "stripe.Pay")) / 4))
            ("stripe.Pray" ∷ "x" ∷ [])))
unfolding normalize_id
closest_matches_unfiltered_example =
    closest_matches_unfiltered letters same "stripe.Pay" ("stripe.Pray" ∷ "x" ∷ []) 2 refl
