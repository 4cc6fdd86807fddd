-- ===== src/Project/Keeps.antt =====
-- src/project.rs, `prune`: what a denylist does not name.
use min_mcp.Prelude.{
  String, ◌≡◌, refl, ap, ◌∙◌, inl, inr, Bool, true, false, List, [], ◌∷◌, Option, arith, eq_iff,
  Bool-cases, Option-cases, ◌=?◌, if◌then◌else◌, All, unwrap_or,
}
use min_mcp.Json.{Value, null, array, object, Items, nil, cons, MapOps, get, map_items}
use min_mcp.Json.Maps.{get-modify}
use min_mcp.Project.{parse_path, descend, remove_last, remove_at, prune, select_in, select_path}

-- Two paths part before either ends.
unfoldable pub diverges : List String → List String → Bool
diverges [] qs = false
diverges (p ∷ ps) [] = false
diverges (p ∷ ps) (q ∷ qs) = if p =? q then diverges ps qs else true

map_fuse :
    (g f : Value → Value) (h : Value → Value) (xs : Items)
    → ((x : Value) → g (f x) ≡ h x)
    → map_items g (map_items f xs) ≡ map_items h xs
unfolding map_items
map_fuse g f h nil e = refl
map_fuse g f h (cons x xs) e = cc (e x, map_fuse g f h xs e)

module _ ⦃M : MapOps⦄ where
  select_in-descend_ne :
      (p q : String) (g : Value → Option Value) (f : Value → Value) (v : Value)
      → p =? q ≡ false
      → select_in q g (descend p f v) ≡ select_in q g v
  unfolding select_in descend
  select_in-descend_ne p q g f (array xs) h =
      ground (arith, eq_iff p q, eq_iff p "[]", eq_iff q "[]")
  select_in-descend_ne p q g f (object m) h = ground (arith, get-modify p q f m)
  select_in-descend_ne p q g f _ h = ground arith

  select_in-descend :
      (p : String) (g : Value → Option Value) (f : Value → Value) (v : Value)
      → ((x : Value) → g (f x) ≡ g x)
      → select_in p g (descend p f v) ≡ select_in p g v
  unfolding select_in descend
  select_in-descend p g f (array xs) h =
      let e =
        map_fuse (λ x. unwrap_or (g x) null) f (λ x. unwrap_or (g x) null) xs
          (λ x. ap (λ o. unwrap_or o null) (h x)) in
      ground (arith, e)
  select_in-descend p g f (object m) h = elim (Option-cases (get p m)) [
    | inl e ↦ ground (arith, get-modify p p f m)
    | inr (x, e) ↦ ground (arith, get-modify p p f m, h x, eq_iff p p)
  ]
  select_in-descend p g f _ h = ground arith

  select_in-remove_last :
      (p q : String) (g : Value → Option Value) (v : Value)
      → p =? q ≡ false
      → select_in q g (remove_last p v) ≡ select_in q g v
  unfolding select_in remove_last
  select_in-remove_last p q g (array xs) h =
      ground (arith, eq_iff p q, eq_iff p "[]", eq_iff q "[]")
  select_in-remove_last p q g (object m) h = ground (arith, M.get-remove p q m)
  select_in-remove_last p q g _ h = ground arith

  select-remove_at :
      (ps qs : List String) (v : Value)
      → diverges ps qs ≡ true
      → select_path qs (remove_at ps v) ≡ select_path qs v
  unfolding diverges remove_at select_path
  select-remove_at [] qs v h = cc
  select-remove_at (p ∷ ps) [] v h = cc
  select-remove_at (p ∷ []) (q ∷ qs) v h =
      select_in-remove_last p q (select_path qs) v (ground arith)
  select-remove_at (p ∷ next ∷ ps) (q ∷ qs) v h = elim (Bool-cases (p =? q)) [
    | inl e ↦ rw ((eq_iff p q).0 e) (
        select_in-descend q (select_path qs) (remove_at (next ∷ ps)) v
          (λ x. select-remove_at (next ∷ ps) qs x (ground arith)))
    | inr e ↦ select_in-descend_ne p q (select_path qs) (remove_at (next ∷ ps)) v e
  ]

  -- A path that parts from every path of the denylist selects after `prune` what it selected before.
  pub select-prune :
      (v : Value) (ps : List String) (qs : List String)
      → All (λ p. diverges (parse_path p) qs ≡ true) ps
      → select_path qs (prune v ps) ≡ select_path qs v
  unfolding prune
  select-prune v [] qs h = refl
  select-prune v (p ∷ ps) qs h =
      select-prune (remove_at (parse_path p) v) ps qs h.1 ∙ select-remove_at (parse_path p) qs v h.0
