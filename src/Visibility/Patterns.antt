-- ===== src/Visibility/Patterns.antt =====
-- src/config.rs: what a pattern matches, told apart from how it is tested.
use min_mcp.Prelude.{
  eqb_refl, eqb→≡, or_false, and_true, ℕ, String, ◌<>◌, ◌≡◌, refl, sym, inl, inr, ◌⊎◌, true, false,
  none, some, arith, Bool-cases, Option-cases, ◌==◌, ◌=?◌, starts_with, strip_suffix, contains,
  eq_iff, is_empty,
}
use text.Mathlib.TextLemmas.{nil-append, cons-append, append_assoc, append-nil}
use Prim.Native.Char.{code}
use text.Mathlib.TextEquality.{Char-path}
use min_mcp.Visibility.{pattern_match, filter_match, references_upstream, covers_whole_upstream}

starts_with_empty : (s : String) → starts_with s "" ≡ true
unfolding starts_with
starts_with_empty s = refl

pub starts_with-append : (p r : String) → starts_with (p <> r) p ≡ true
unfolding starts_with
starts_with-append String.[] r = starts_with_empty ("" <> r)
starts_with-append (String.◌∷◌ c p) r =
    ground (arith, eqb_refl (code c), cons-append c p r, starts_with-append p r)

pub starts_with_comparable :
    (v p q : String)
    → starts_with v p ≡ true
    → starts_with v q ≡ true
    → (starts_with p q ≡ true) ⊎ (starts_with q p ≡ true)
unfolding starts_with
starts_with_comparable v String.[] q h k = inr refl
starts_with_comparable v (String.◌∷◌ c p) String.[] h k = inl refl
starts_with_comparable String.[] (String.◌∷◌ c p) (String.◌∷◌ d q) h k = absurd (cc)
starts_with_comparable (String.◌∷◌ b v) (String.◌∷◌ c p) (String.◌∷◌ d q) h k =
    let h' = and_true (code b == code c) (starts_with v p) h in
    let k' = and_true (code b == code d) (starts_with v q) k in
    let e = eqb→≡ (code b) (code c) h'.0 in
    let f = eqb→≡ (code b) (code d) k'.0 in
    elim (starts_with_comparable v p q h'.1 k'.1) [
      | inl i ↦ inl (ground (arith, eqb_refl (code b)))
      | inr i ↦ inr (ground (arith, eqb_refl (code b)))
    ]

-- A text that starts with another is that one and a rest.
pub starts_with_rest : (s p : String) → starts_with s p ≡ true → (r : String) × (s ≡ p <> r)
unfolding starts_with
starts_with_rest s String.[] h = (s, sym (nil-append s))
starts_with_rest String.[] (String.◌∷◌ d p) h = absurd (cc)
starts_with_rest (String.◌∷◌ c s) (String.◌∷◌ d p) h =
    let h' = and_true (code c == code d) (starts_with s p) h in
    let (r, e) = starts_with_rest s p h'.1 in
    (r, cc (e, cons-append d p r, Char-path c d (eqb→≡ (code c) (code d) h'.0)))

strip_suffix_only : (d : ℕ) (s : String) → contains d s ≡ false → strip_suffix d s ≡ none
unfolding contains strip_suffix
strip_suffix_only d String.[] h = refl
strip_suffix_only d (String.◌∷◌ c s) h =
    let h' = or_false (code c == d) (contains d s) h in ground (arith, strip_suffix_only d s h'.1)

append_not_empty : (s t : String) → is_empty t ≡ false → is_empty (s <> t) ≡ false
append_not_empty String.[] t h = ground (arith, nil-append t)
append_not_empty (String.◌∷◌ b s) t h = ground (arith, cons-append b s t)

pub strip_suffix_lem :
    (d : ℕ) (s t : String)
    → strip_suffix d t ≡ some ""
    → is_empty t ≡ false
    → strip_suffix d (s <> t) ≡ some s
unfolding strip_suffix
strip_suffix_lem d String.[] t h n = ground (arith, nil-append t)
strip_suffix_lem d (String.◌∷◌ b s) t h n =
    ground (arith, cons-append b s t, strip_suffix_lem d s t h n, append_not_empty s t n)

starts_with_self : (s : String) → starts_with s s ≡ true
starts_with_self s = ground (arith, append-nil s, starts_with-append s "")

contains-append : (d : ℕ) (s t : String) → contains d t ≡ true → contains d (s <> t) ≡ true
unfolding contains
contains-append d String.[] t h = ground (arith, nil-append t)
contains-append d (String.◌∷◌ c s) t h = ground (arith, cons-append c s t, contains-append d s t h)

-- Where the pattern is a wildcard on a proper part of `upstream.`, it is on the name or on all of it.
abbrev pub Anchors : String → String → Type 0
Anchors upstream pattern =
    (r : String)
    → strip_suffix b'*' pattern ≡ some r
    → starts_with (upstream <> ".") r ≡ true
    → (r ≡ upstream) ⊎ (r ≡ upstream <> ".")

pub references-filter :
    (p up name : String)
    → Anchors up p
    → filter_match p up ((up <> ".") <> name) ≡ true
    → references_upstream p up ≡ true
unfolding filter_match pattern_match references_upstream
references-filter p up name a h =
    let own = starts_with-append (up <> ".") name in
    elim (Option-cases (strip_suffix b'*' p)) [
      | inl n ↦ ground (arith, own, eq_iff p up, eq_iff p ((up <> ".") <> name))
      | inr (r, e) ↦ elim (Bool-cases (contains b'*' p)) [
        | inl star ↦
            let m = with_star p up name r star e h in
            elim (starts_with_comparable ((up <> ".") <> name) r (up <> ".") m own) [
              | inl longer ↦ ground (arith)
              | inr shorter ↦ elim (a r e shorter) [
                | inl same ↦ ground (arith, eq_iff r up)
                | inr dot ↦ ground (arith, starts_with_self r)
              ]
            ]
        | inr plain ↦ absurd (cc (e, strip_suffix_only b'*' p plain))
      ]
    ]
  where
    with_star :
        (p up name r : String)
        → contains b'*' p ≡ true
        → strip_suffix b'*' p ≡ some r
        → filter_match p up ((up <> ".") <> name) ≡ true
        → starts_with ((up <> ".") <> name) r ≡ true
    with_star p up name r s e h = ground (arith)

pub filter-covers :
    (p up name : String)
    → contains b'.' up ≡ false
    → contains b'*' up ≡ false
    → covers_whole_upstream p up ≡ true
    → filter_match p up ((up <> ".") <> name) ≡ true
unfolding filter_match pattern_match covers_whole_upstream contains strip_suffix
filter-covers p up name d s h = elim (Bool-cases (p =? up)) [
  | inl same ↦ ground (arith, eq_iff p up)
  | inr other ↦ star p up name (ground (arith, eq_iff p (up <> ".*")))
]
  where
    star : (p up name : String) → p ≡ up <> ".*" → filter_match p up ((up <> ".") <> name) ≡ true
    star p up name e = ground (
      arith,
      e,
      contains-append b'.' up ".*" refl,
      append_assoc up "." "*",
      strip_suffix_lem b'*' (up <> ".") "*" refl refl,
      starts_with-append (up <> ".") name,
    )
