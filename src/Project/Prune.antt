-- ===== src/Project/Prune.antt =====
-- src/project.rs, `remove_at` and `prune`: what a denylist takes out of a value, and what it leaves.
use min_mcp.Prelude.{
  String, ◌≡◌, refl, ◌≢◌, inl, inr, Bool, true, false, ◌||◌, List, [], ◌∷◌, Option, none, some,
  arith, eq_iff, Bool-cases, Option-cases, if◌then◌else◌, At, here, there,
}
use min_mcp.Json.{Value, array, object, Items, nil, cons, MapOps, get, get_key, map_items}
use min_mcp.Json.Maps.{get-modify}
use min_mcp.Project.{parse_path, is_wild, descend, remove_last, remove_at, prune}

abbrev pub any_item : (Value → Bool) → Items → Bool
any_item p nil = false
any_item p (cons x xs) = p x || any_item p xs

abbrev pub any_element : (Value → Bool) → Value → Bool
any_element p (array xs) = any_item p xs
any_element p v = false

abbrev pub on_child : (Value → Bool) → Option Value → Bool
on_child p none = false
on_child p (some c) = p c

-- Does a segment lead from a value to something with `p`? `[]` leads to the elements of an array, any
-- other segment to the value of that key in an object.
unfoldable pub leads : String → (Value → Bool) → Value → Bool
leads seg p v = if is_wild seg then any_element p v else on_child p (get_key seg v)

-- Does a path lead to something in a value?
unfoldable pub resolves : List String → Value → Bool
resolves [] v = true
resolves (seg ∷ rest) v = leads seg (resolves rest) v

any_map :
    (p : Value → Bool) (f : Value → Value) (xs : Items)
    → ((x : Value) → p (f x) ≡ false)
    → any_item p (map_items f xs) ≡ false
unfolding map_items
any_map p f nil h = refl
any_map p f (cons x xs) h = ground (arith, h x, any_map p f xs h)

any_map_mono :
    (p : Value → Bool) (f : Value → Value) (xs : Items)
    → ((x : Value) → p (f x) ≡ true → p x ≡ true)
    → any_item p (map_items f xs) ≡ true
    → any_item p xs ≡ true
unfolding map_items
any_map_mono p f nil h e = e
any_map_mono p f (cons x xs) h e = ground (arith, h x, any_map_mono p f xs h)

module _ ⦃M : MapOps⦄ where
  module _ (p : Value → Bool) where
    leads-remove_last : (seg : String) (v : Value) → leads seg p (remove_last seg v) ≡ false
    unfolding leads remove_last
    leads-remove_last seg (array xs) = ground arith
    leads-remove_last seg (object m) = ground (arith, M.get-remove seg seg m, eq_iff seg seg)
    leads-remove_last seg _ = ground arith

    leads-remove_last_mono :
        (q seg : String) (v : Value) → leads q p (remove_last seg v) ≡ true → leads q p v ≡ true
    unfolding leads remove_last
    leads-remove_last_mono q seg (array xs) h = ground arith
    leads-remove_last_mono q seg (object m) h = ground (arith, M.get-remove seg q m)
    leads-remove_last_mono q seg _ h = ground arith

    pub leads-descend :
        (seg : String) (f : Value → Value) (v : Value)
        → ((x : Value) → p (f x) ≡ false)
        → leads seg p (descend seg f v) ≡ false
    unfolding leads descend
    leads-descend seg f (array xs) h = ground (arith, any_map p f xs h)
    leads-descend seg f (object m) h = elim (Option-cases (get seg m)) [
      | inl e ↦ ground (arith, get-modify seg seg f m)
      | inr (x, e) ↦ ground (arith, get-modify seg seg f m, h x, eq_iff seg seg)
    ]
    leads-descend seg f _ h = ground arith

    leads-descend_mono :
        (q seg : String) (f : Value → Value) (v : Value)
        → ((x : Value) → p (f x) ≡ true → p x ≡ true)
        → leads q p (descend seg f v) ≡ true
        → leads q p v ≡ true
    unfolding leads descend
    leads-descend_mono q seg f (array xs) h e = ground (arith, any_map_mono p f xs h)
    leads-descend_mono q seg f (object m) h e = elim (Option-cases (get q m)) [
      | inl o ↦ ground (arith, get-modify seg q f m)
      | inr (x, o) ↦ ground (arith, get-modify seg q f m, h x)
    ]
    leads-descend_mono q seg f _ h e = ground arith

  -- After a removal its path leads nowhere.
  resolves-remove_at :
      (segs : List String) (v : Value) → segs ≢ [] → resolves segs (remove_at segs v) ≡ false
  unfolding resolves remove_at
  resolves-remove_at [] v h = absurd (h refl)
  resolves-remove_at (seg ∷ []) v h = leads-remove_last (resolves []) seg v
  resolves-remove_at (seg ∷ next ∷ rest) v h =
      leads-descend (resolves (next ∷ rest)) seg (remove_at (next ∷ rest)) v
        (λ x. resolves-remove_at (next ∷ rest) x (λ e. cc))

  -- A removal makes no path resolve that did not.
  resolves-remove_at_mono :
      (qs segs : List String) (v : Value)
      → resolves qs (remove_at segs v) ≡ true
      → resolves qs v ≡ true
  unfolding resolves remove_at
  resolves-remove_at_mono [] segs v h = refl
  resolves-remove_at_mono (q ∷ qs) [] v h = h
  resolves-remove_at_mono (q ∷ qs) (seg ∷ []) v h = leads-remove_last_mono (resolves qs) q seg v h
  resolves-remove_at_mono (q ∷ qs) (seg ∷ next ∷ rest) v h =
      leads-descend_mono (resolves qs) q seg (remove_at (next ∷ rest)) v
        (λ x e. resolves-remove_at_mono qs (next ∷ rest) x e) h

  -- `prune` makes no path resolve that did not resolve before.
  pub resolves-prune_mono :
      (qs : List String) (v : Value) (ps : List String)
      → resolves qs (prune v ps) ≡ true
      → resolves qs v ≡ true
  unfolding prune
  resolves-prune_mono qs v [] h = h
  resolves-prune_mono qs v (p ∷ ps) h =
      resolves-remove_at_mono qs (parse_path p) v
        (resolves-prune_mono qs (remove_at (parse_path p) v) ps h)

  -- Whatever the value, no path of the denylist leads anywhere in what `prune` returns, so a field
  -- that it names reaches nobody. (A path with no segment at all names nothing.)
  pub resolves-prune :
      (v : Value) (ps : List String) (p : String)
      → At p ps
      → parse_path p ≢ []
      → resolves (parse_path p) (prune v ps) ≡ false
  unfolding prune
  resolves-prune v [] q i h = elim i [ ]
  resolves-prune v (p ∷ ps) q here h =
      elim (Bool-cases (resolves (parse_path p) (prune (remove_at (parse_path p) v) ps))) [
        | inl e ↦ cc (
          resolves-prune_mono (parse_path p) (remove_at (parse_path p) v) ps e,
          resolves-remove_at (parse_path p) v h,
        )
        | inr e ↦ e
      ]
  resolves-prune v (p ∷ ps) q (there i) h = resolves-prune (remove_at (parse_path p) v) ps q i h
