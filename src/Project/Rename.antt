-- ===== src/Project/Rename.antt =====
-- src/project.rs, `rename_at` and `rename`: the old key and the new one.
use min_mcp.Prelude.{
  String, ◌≡◌, refl, ◌∙◌, inl, inr, Bool, true, false, not, ◌&&◌, List, [], ◌∷◌, ◌++◌, none, some,
  arith, Option-cases, ◌=?◌, any, or_false, eq_iff,
}
use min_mcp.Json.{Value, object, Fields, get, MapOps}
use min_mcp.Json.Maps.{get-modify}
use min_mcp.Json.Access.{Step, key, child, at}
use min_mcp.Project.{is_wild, rename_at, rename_key, descend}
use min_mcp.Project.Prune.{leads, resolves, leads-descend}
use min_mcp.Project.Places.{at-some}
use min_mcp.Project.Write.{keys}

-- The last segment of a path is a key, and another one than `new`.
unfoldable pub renames : List String → String → Bool
renames [] new = false
renames (seg ∷ []) new = not (seg =? new) && not (is_wild seg)
renames (seg ∷ next ∷ rest) new = renames (next ∷ rest) new

module _ ⦃M : MapOps⦄ where
  get-rename_key :
      (seg new : String) (m : Fields) → seg =? new ≡ false → get seg (rename_key seg new m) ≡ none
  get-rename_key seg new m h = elim (Option-cases (get seg m)) [
    | inl e ↦ ground (arith, eq_iff seg new)
    | inr (v, e) ↦ ground (
      arith,
      M.get-insert new seg v (M.remove seg m),
      M.get-remove seg seg m,
      eq_iff seg new,
      eq_iff new seg,
      eq_iff seg seg,
    )
  ]

  leads-rename_key :
      (seg new : String) (v : Value)
      → renames (seg ∷ []) new ≡ true
      → leads seg (resolves []) (rename_at (seg ∷ []) new v) ≡ false
  unfolding renames leads resolves rename_at
  leads-rename_key seg new (object m) h = ground (arith, get-rename_key seg new m)
  leads-rename_key seg new v h = ground arith

  -- The old path leads nowhere after a renaming to another key, in the elements of arrays neither.
  resolves-rename_at :
      (segs : List String) (new : String) (v : Value)
      → renames segs new ≡ true
      → resolves segs (rename_at segs new v) ≡ false
  unfolding renames resolves rename_at
  resolves-rename_at [] new v h = absurd (cc)
  resolves-rename_at (seg ∷ []) new v h = leads-rename_key seg new v h
  resolves-rename_at (seg ∷ next ∷ rest) new v h =
      leads-descend (resolves (next ∷ rest)) seg (rename_at (next ∷ rest) new) v
        (λ x. resolves-rename_at (next ∷ rest) new x h)

  at-descend :
      (p : String) (f : Value → Value) (v c : Value) (q : List Step)
      → is_wild p ≡ false
      → child (key p) v ≡ some c
      → at (key p ∷ q) (descend p f v) ≡ at q (f c)
  unfolding descend at child
  at-descend p f (object m) c q w e = ground (arith, get-modify p p f m, eq_iff p p)
  at-descend p f v c q w e = absurd (cc)

  rename_at-cons :
      (p : String) (pre : List String) (k new : String) (v : Value)
      → rename_at (p ∷ (pre ++ k ∷ [])) new v ≡ descend p (rename_at (pre ++ k ∷ []) new) v
  unfolding rename_at
  rename_at-cons p [] k new v = refl
  rename_at-cons p (r ∷ pre) k new v = refl

  -- What stood under the old key stands under the new one. (For a path of keys.)
  at-rename_at :
      (pre : List String) (k new : String) (v x : Value)
      → any is_wild (pre ++ k ∷ []) ≡ false
      → at (keys (pre ++ k ∷ [])) v ≡ some x
      → at (keys (pre ++ new ∷ [])) (rename_at (pre ++ k ∷ []) new v) ≡ some x
  at-rename_at [] k new (object m) x w h =
      unfold rename_at at child in
      elim (Option-cases (get k m)) [
        | inl e ↦ absurd (ground arith)
        | inr (c, e) ↦ ground (arith, M.get-insert new new c (M.remove k m), eq_iff new new)
      ]
  at-rename_at [] k new v x w h = absurd (unfold at child in cc)
  at-rename_at (p ∷ pre) k new v x w h =
      let (c, e, hq) = at-some (key p) (keys (pre ++ k ∷ [])) v x h in
      let (wp, wr) = or_false (is_wild p) (any is_wild (pre ++ k ∷ [])) w in
      rw rename_at-cons (
        at-descend p (rename_at (pre ++ k ∷ []) new) v c (keys (pre ++ new ∷ [])) wp e
        ∙ at-rename_at pre k new c x wr hq)
