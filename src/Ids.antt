-- ===== src/Ids.antt =====
-- src/surface/ids.rs: the names that tools are exposed under, and how far two names are apart.
-- A character is its code.
pub mod Examples
pub mod Edits
pub mod Rows
pub mod Near
use Prim.Native.Char.{Char, code}
use min_mcp.Prelude.{
  ℕ, zero, suc, ◌+◌, ◌-◌, ◌/◌, min, max, ◌<>◌, String, Bool, true, false, ◌&&◌, ◌||◌, List, [], ◌∷◌,
  map, ◌==◌, leb, ltb, if◌then◌else◌, length, is_empty,
}
use min_mcp.Cache.{text_leb}

-- `s.chars().collect()`
unfoldable pub chars : String → List ℕ
chars String.[] = []
chars (String.◌∷◌ c s) = code c ∷ chars s

abbrev pub max_name_len : ℕ
max_name_len = 64

abbrev pub is_ascii_alphanumeric : ℕ → Bool
is_ascii_alphanumeric c =
    leb b'0' c && leb c b'9' || leb b'A' c && leb c b'Z' || leb b'a' c && leb c b'z'

abbrev pub clean : ℕ → ℕ
clean c = if is_ascii_alphanumeric c || c == b'_' || c == b'-' then c else b'_'

unfoldable pub take : ℕ → List ℕ → List ℕ
take zero cs = []
take (suc n) [] = []
take (suc n) (c ∷ cs) = c ∷ take n cs

pub sanitize_name : String → ℕ → List ℕ
unfolding take chars
sanitize_name id reserve = take (max_name_len - reserve) (map clean (chars id))

-- `(from..from + n)`, and the end too
unfoldable pub range : ℕ → ℕ → List ℕ
range from zero = from ∷ []
range from (suc n) = from ∷ range (suc from) n

abbrev pub cost : ℕ → ℕ → ℕ
cost ca cb = if ca == cb then 0 else 1

-- The inner loop: `left` is `cur[j]`, and `prev` stands at `prev[j]`.
unfoldable pub row_from : ℕ → ℕ → List ℕ → List ℕ → List ℕ
row_from ca left (p ∷ q ∷ prev) (cb ∷ b) =
    let n = min (min (p + cost ca cb) (q + 1)) (left + 1) in n ∷ row_from ca n (q ∷ prev) b
row_from ca left prev b = []

-- The outer loop, after `i` characters: the last row.
unfoldable pub rows : ℕ → List ℕ → List ℕ → List ℕ → List ℕ
unfolding row_from
rows i prev [] b = prev
rows i prev (ca ∷ a) b = rows (i + 1) ((i + 1) ∷ row_from ca (i + 1) prev b) a b

-- `prev[b.len()]`, the last entry of the row
unfoldable pub last : List ℕ → ℕ
last [] = 0
last (n ∷ []) = n
last (n ∷ m ∷ ns) = last (m ∷ ns)

pub edit_distance : String → String → ℕ
unfolding chars range rows last
edit_distance s t = let a = chars s in let b = chars t in last (rows 0 (range 0 (length b)) a b)

abbrev pub abs_diff : ℕ → ℕ → ℕ
abs_diff a b = (a - b) + (b - a)

-- Candidates with their distances.
abbrev pub Scored : Type 0
Scored = List (ℕ × String)

-- Nearer, or as near and not later in the alphabet.
abbrev comes_first : ℕ × String → ℕ × String → Bool
comes_first (d, s) (e, t) = ltb d e || d == e && text_leb s t

abbrev insert_scored : ℕ × String → Scored → Scored
insert_scored x [] = x ∷ []
insert_scored x (y ∷ ys) = if comes_first x y then x ∷ y ∷ ys else y ∷ insert_scored x ys

unfoldable pub sort_scored : Scored → Scored
sort_scored [] = []
sort_scored (x ∷ xs) = insert_scored x (sort_scored xs)

unfoldable pub take_names : ℕ → Scored → List String
take_names zero xs = []
take_names (suc n) [] = []
take_names (suc n) ((d, s) ∷ xs) = s ∷ take_names n xs

-- `quoted.join(" or ")`
abbrev pub join_or : List String → String
join_or [] = ""
join_or (s ∷ []) = s
join_or (s ∷ t ∷ ss) = s <> " or " <> join_or (t ∷ ss)

-- Unicode's letters and digits, and its lower case.
module _ (is_alphanumeric : Char → Bool) (lower : Char → String) where
  unfoldable pub normalize_id : String → String
  normalize_id String.[] = String.[]
  normalize_id (String.◌∷◌ c s) =
      let rest = normalize_id s in if is_alphanumeric c then lower c <> rest else rest

  unfoldable pub score : String → ℕ → List String → Scored
  unfolding normalize_id chars
  score wnorm max_d [] = []
  score wnorm max_d (cand ∷ cands) =
      let rest = score wnorm max_d cands in
      let cnorm = normalize_id cand in
      let d = edit_distance wnorm cnorm in
      if ltb max_d (abs_diff (length (chars cnorm)) (length (chars wnorm)))
      then rest
      else if leb d max_d
      then (d, cand) ∷ rest
      else rest

  unfoldable pub closest_matches : String → List String → ℕ → List String
  unfolding normalize_id score take_names sort_scored chars
  closest_matches wrong candidates n =
      let wnorm = normalize_id wrong in
      if is_empty wnorm
      then []
      else take_names n (sort_scored (score wnorm (max 2 (length (chars wnorm) / 4)) candidates))

  -- `quote` is how a text is printed for debugging.
  unfoldable pub did_you_mean : (String → String) → String → List String → String
  unfolding closest_matches
  did_you_mean quote wrong candidates = elim (closest_matches wrong candidates 2) [
    | [] ↦ ""
    | s ∷ ss ↦ " did you mean " <> join_or (map quote (s ∷ ss)) <> "?"
  ]
