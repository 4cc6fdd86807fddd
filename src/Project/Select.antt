-- ===== src/Project/Select.antt =====
-- src/project.rs, `select_path` and `project`: what a path selects.
use mathlib.Core.Option
use mathlib.Core.Path.{subst}
use min_mcp.Prelude.{
  ℕ, zero, suc, String, ◌≡◌, refl, inl, inr, List, [], ◌∷◌, Option, none, some, arith, Bool-cases,
  Option-cases, ◌=?◌, if◌then◌else◌, unwrap_or, eq_iff,
}
use min_mcp.Json.{Value, null, array, object, Items, nil, cons, Fields, end, get, MapOps, map_items}
use min_mcp.Json.Access.{Step, key, index, nth, child, at, IsWf, IsWfItems, get-IsWf, nth-IsWf}
use min_mcp.Project.{is_wild, select_in, select_path}
use min_mcp.Project.Within.{Fits, Within, Within-null, Within-by_children}

-- A selection of a well-formed value is well-formed, and has its shape, place by place.
pub record Sound (v s : Value) : Type 0 where
  pub wf : IsWf s
  pub within : Within s v

abbrev pub IsSound : (Value → Option Value) → Type 0
IsSound f = (v s : Value) → IsWf v → f v ≡ some s → Sound v s

nth-map_items :
    (f : Value → Value) (i : ℕ) (xs : Items) → nth i (map_items f xs) ≡ Option.map f (nth i xs)
unfolding nth map_items
nth-map_items f i nil = refl
nth-map_items f zero (cons x xs) = refl
nth-map_items f (suc i) (cons x xs) = nth-map_items f i xs

Fits-self : (o : Option Value) (x : Value) → o ≡ some x → Fits x o
Fits-self o x h = record { held = x; is_held = h; same = inr refl }

abbrev keep : (Value → Option Value) → Value → Value
keep f e = unwrap_or (f e) null

keep-Sound : (f : Value → Option Value) → IsSound f → (e : Value) → IsWf e → Sound e (keep f e)
keep-Sound f h e w = elim (Option-cases (f e)) [
  | inl n ↦ rw n (record { wf = tt; within = Within-null e })
  | inr (s, o) ↦ rw o (h e s w o)
]

wf_items :
    (f : Value → Option Value)
    → IsSound f
    → (xs : Items) → IsWfItems xs
    → IsWfItems (map_items (keep f) xs)
unfolding map_items
wf_items f h nil w = tt
wf_items f h (cons x xs) w = ((keep-Sound f h x w.0).wf, wf_items f h xs w.1)

array-Sound :
    (f : Value → Option Value)
    → IsSound f
    → (xs : Items) → IsWfItems xs
    → Sound (array xs) (array (map_items (keep f) xs))
unfolding child
array-Sound f h xs w = record {
  wf = wf_items f h xs w;
  within = Within-by_children (array (map_items (keep f) xs)) (array xs) refl go;
}
  where
    go :
        (s : Step) (ca : Value)
        → child s (array (map_items (keep f) xs)) ≡ some ca
        → (cv : Value) × (child s (array xs) ≡ some cv) × Within ca cv
    go (key k) ca e = absurd (cc)
    go (index i) ca e = elim (Option-cases (nth i xs)) [
      | inl n ↦ absurd (ground (arith, nth-map_items (keep f) i xs))
      | inr (cv, ev) ↦
          let same : keep f cv ≡ ca = ground (arith, nth-map_items (keep f) i xs) in
          (cv, ev, subst (λ c. Within c cv) same (keep-Sound f h cv (nth-IsWf i xs cv w ev)).within)
    ]

module _ ⦃M : MapOps⦄ where
  get-single :
      (k j : String) (v : Value) → get j (M.insert k v end) ≡ (if k =? j then some v else none)
  unfolding get
  get-single k j v = M.get-insert k j v end

  object-Sound :
      (k : String) (m : Fields) (c s : Value)
      → get k m ≡ some c
      → Sound c s
      → Sound (object m) (object (M.insert k s end))
  unfolding child get
  object-Sound k m c s e h = record {
    wf = rw M.insert-end (refl, h.wf, tt);
    within = Within-by_children (object (M.insert k s end)) (object m) refl go;
  }
    where
      go :
          (st : Step) (ca : Value)
          → child st (object (M.insert k s end)) ≡ some ca
          → (cv : Value) × (child st (object m) ≡ some cv) × Within ca cv
      go (index i) ca e' = absurd (cc)
      go (key j) ca e' = elim (Bool-cases (k =? j)) [
        | inl y ↦
            let same : s ≡ ca = ground (arith, get-single k j s) in
            (c, ground (arith, eq_iff k j), subst (λ x. Within x c) same h.within)
        | inr n ↦ absurd (ground (arith, get-single k j s))
      ]

  select_in-IsSound :
      (seg : String) (f : Value → Option Value) → IsSound f → IsSound (select_in seg f)
  unfolding select_in
  select_in-IsSound seg f h (array xs) s w e = elim (Bool-cases (is_wild seg)) [
    | inl y ↦
        let same : array (map_items (keep f) xs) ≡ s = ground arith in
        subst (Sound (array xs)) same (array-Sound f h xs w)
    | inr n ↦ absurd (ground arith)
  ]
  select_in-IsSound seg f h (object m) s w e = elim (Bool-cases (is_wild seg)) [
    | inl y ↦ absurd (ground arith)
    | inr n ↦ elim (Option-cases (get seg m)) [
      | inl ec ↦ absurd (ground arith)
      | inr (c, ec) ↦ elim (Option-cases (f c)) [
        | inl es ↦ absurd (ground arith)
        | inr (sub, es) ↦
            let same : object (M.insert seg sub end) ≡ s = ground arith in
            subst (Sound (object m)) same
              (object-Sound seg m c sub ec (h c sub (get-IsWf seg m c w ec) es))
      ]
    ]
  ]
  select_in-IsSound seg f h v s w e = absurd (ground arith)

  pub select_path-IsSound : (segs : List String) → IsSound (select_path segs)
  unfolding select_path
  select_path-IsSound [] v s w e =
      let same : v ≡ s = ground arith in
      subst (Sound v) same (record { wf = w; within = λ q x h. Fits-self (at q v) x h })
  select_path-IsSound (seg ∷ rest) v s w e =
      select_in-IsSound seg (select_path rest) (select_path-IsSound rest) v s w e
