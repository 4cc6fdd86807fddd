-- ===== src/Project/Within.antt =====
-- src/project.rs, `deep_merge`: merging two selections of one value.
use mathlib.Core.Path.{subst}
use min_mcp.Prelude.{
  ◌≡◌, refl, sym, ◌∙◌, ◌⊎◌, inl, inr, true, false, List, [], ◌∷◌, Option, some, arith, Option-cases,
}
use min_mcp.Json.{Value, null, MapOps, is_null}
use min_mcp.Json.Access.{
  Step, child, at, at-step, is_leaf, shape, IsWf, child-IsWf, leaf_of_shape, null_of_shape,
  leaf_not_null, child_container,
}
use min_mcp.Project.{deep_merge}
use min_mcp.Project.Merge.{merges, left, right, both}
use min_mcp.Project.Places.{at-some, at-merge}

-- A place holds something, and if `x` is not null, something of the shape of `x`.
pub record Fits (x : Value) (o : Option Value) : Type 0 where
  pub held : Value
  pub is_held : o ≡ some held
  pub same : (is_null x ≡ true) ⊎ (shape x ≡ shape held)

-- Wherever `a` has a value, `v` has one of the same shape, unless `a` only keeps the place by a null.
abbrev pub Within : Value → Value → Type 0
Within a v = (q : List Step) (x : Value) → at q a ≡ some x → Fits x (at q v)

Fits-alike : (x y : Value) (o : Option Value) → shape x ≡ shape y → Fits y o → Fits x o
Fits-alike x y o e f = record {
  held = f.held;
  is_held = f.is_held;
  same = elim f.same [ inl n ↦ inl (null_of_shape y x n e) | inr s ↦ inr (e ∙ s) ];
}

pub Within-child :
    (s : Step) (a v ca cv : Value)
    → Within a v
    → child s a ≡ some ca
    → child s v ≡ some cv
    → Within ca cv
Within-child s a v ca cv h ea ev q x e =
    subst (Fits x) (at-step s q v cv ev) (h (s ∷ q) x (at-step s q a ca ea ∙ e))

pub child_of_Within :
    (s : Step) (a v ca : Value)
    → Within a v
    → child s a ≡ some ca
    → (cv : Value) × (child s v ≡ some cv)
unfolding at
child_of_Within s a v ca h e =
    let f = h (s ∷ []) ca (ground arith) in
    let (c, ec, _) = at-some s [] v f.held f.is_held in (c, ec)

pub Within-null : (v : Value) → Within null v
unfolding at
Within-null v [] x e = record { held = v; is_held = refl; same = inl (ground arith) }
Within-null v (s ∷ q) x e =
    let (c, ec, _) = at-some s q null x e in absurd (ground (arith, child_container s null c ec))

pub Within-by_children :
    (a v : Value)
    → shape a ≡ shape v
    → ((s : Step) (ca : Value)
        → child s a ≡ some ca
        → (cv : Value) × (child s v ≡ some cv) × Within ca cv)
    → Within a v
unfolding at
Within-by_children a v e f [] x h = record { held = v; is_held = refl; same = inr (ground arith) }
Within-by_children a v e f (s ∷ q) x h =
    let (ca, ea, hq) = at-some s q a x h in
    let (cv, ev, w) = f s ca ea in subst (Fits x) (sym (at-step s q v cv ev)) (w q x hq)

module _ ⦃M : MapOps⦄ where
  pub Within-merge : (a b v : Value) → IsWf b → Within a v → Within b v → Within (deep_merge a b) v
  Within-merge a b v w ha hb q x e =
      let (y, alike, from) = at-merge q a b x w e in
      elim from [
        | inl ea ↦ Fits-alike x y (at q v) alike (ha q y ea)
        | inr eb ↦ Fits-alike x y (at q v) alike (hb q y eb)
      ]

  at_shape : (a v : Value) → Within a v → is_null a ≡ false → shape a ≡ shape v
  unfolding at
  at_shape a v h n = let f = h [] a refl in ground (arith, f.is_held, f.same)

  -- A leaf of the right part is in the merge, if both are selections of one value.
  pub at-merge_right :
      (q : List Step) (a b v x : Value)
      → IsWf b
      → Within a v
      → Within b v
      → is_leaf x ≡ true
      → at q b ≡ some x
      → at q (deep_merge a b) ≡ some x
  unfolding at
  at-merge_right [] a b v x w ha hb l h = elim (merges a b w) [
    | left n d e ↦
        let lb : is_leaf b ≡ true = ground arith in
        let same = at_shape a v ha n ∙ sym (at_shape b v hb (leaf_not_null b lb)) in
        ground (arith, leaf_of_shape b a lb same)
    | right n e ↦ ground arith
    | both la lb e f ↦ absurd (ground arith)
  ]
  at-merge_right (s ∷ q) a b v x w ha hb l h =
      let (cb, eb, hq) = at-some s q b x h in
      let (lb, nb) = child_container s b cb eb in
      elim (merges a b w) [
        | left n d e ↦ absurd (d lb nb (at_shape a v ha n ∙ sym (at_shape b v hb nb)))
        | right n e ↦ ground arith
        | both la lb e f ↦ elim (Option-cases (child s a)) [
          | inl ea ↦ ground (arith, f s)
          | inr (ca, ea) ↦
              let (cv, ev) = child_of_Within s b v cb hb eb in
              let ih =
                at-merge_right q ca cb cv x (child-IsWf s b cb w eb)
                  (Within-child s a v ca cv ha ea ev) (Within-child s b v cb cv hb eb ev) l hq in
              ground (arith, f s, ih)
        ]
      ]
