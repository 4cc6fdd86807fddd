-- ===== src/Project/Places.antt =====
-- src/project.rs, `deep_merge`: the values at each place of a merge.
use min_mcp.Prelude.{◌≡◌, refl, ◌⊎◌, inl, inr, true, List, [], ◌∷◌, some, arith, Option-cases}
use min_mcp.Json.{Value, MapOps}
use min_mcp.Json.Access.{Step, child, at, is_leaf, shape, IsWf, child-IsWf, child_container}
use min_mcp.Project.{deep_merge}
use min_mcp.Project.Merge.{merges, left, right, both}

pub at-some :
    (s : Step) (q : List Step) (v x : Value)
    → at (s ∷ q) v ≡ some x
    → (c : Value) × (child s v ≡ some c) × (at q c ≡ some x)
unfolding at
at-some s q v x h = elim (Option-cases (child s v)) [
  | inl e ↦ absurd (ground arith)
  | inr (c, e) ↦ (c, e, ground arith)
]

module _ ⦃M : MapOps⦄ where
  -- Something of the same shape stands at that place in a part; a leaf, then, is the same.
  pub at-merge :
      (q : List Step) (a b x : Value)
      → IsWf b
      → at q (deep_merge a b) ≡ some x
      → (y : Value) × (shape x ≡ shape y) × ((at q a ≡ some y) ⊎ (at q b ≡ some y))
  unfolding at
  at-merge [] a b x w h = elim (merges a b w) [
    | left n d e ↦ (a, ground arith, inl refl)
    | right n e ↦ (b, ground arith, inr refl)
    | both l r e f ↦ (a, ground arith, inl refl)
  ]
  at-merge (s ∷ q) a b x w h = elim (merges a b w) [
    | left n d e ↦ (x, refl, inl (ground arith))
    | right n e ↦ (x, refl, inr (ground arith))
    | both l r e f ↦ elim (Option-cases (child s a)) [
      | inl ea ↦ (x, refl, inr (ground (arith, f s)))
      | inr (ca, ea) ↦ elim (Option-cases (child s b)) [
        | inl eb ↦ (x, refl, inl (ground (arith, f s)))
        | inr (cb, eb) ↦
            let (y, alike, from) =
              at-merge q ca cb x (child-IsWf s b cb w eb) (ground (arith, f s)) in
            (y, alike, ground (arith, from))
      ]
    ]
  ]

  -- A leaf of the left part is in the merge.
  pub at-merge_left :
      (q : List Step) (a b x : Value)
      → IsWf b
      → is_leaf x ≡ true
      → at q a ≡ some x
      → at q (deep_merge a b) ≡ some x
  unfolding at
  at-merge_left [] a b x w l h = elim (merges a b w) [
    | left n d e ↦ ground arith
    | right n e ↦ absurd (ground arith)
    | both la lb e f ↦ absurd (ground arith)
  ]
  at-merge_left (s ∷ q) a b x w l h =
      let (ca, ea, ha) = at-some s q a x h in
      elim (merges a b w) [
        | left n d e ↦ ground arith
        | right n e ↦ absurd (ground (arith, child_container s a ca ea))
        | both la lb e f ↦ elim (Option-cases (child s b)) [
          | inl eb ↦ ground (arith, f s)
          | inr (cb, eb) ↦
              let ih = at-merge_left q ca cb x (child-IsWf s b cb w eb) l ha in
              ground (arith, f s, ih)
        ]
      ]
