-- ===== src/Project/Exact.antt =====
-- src/project.rs, `project`: a projection against the selections of its paths.
use min_mcp.Prelude.{
  String, ◌≡◌, sym, ◌⊎◌, ◌↔◌, inl, inr, true, List, [], ◌∷◌, some, arith, Option-cases, At, here,
  there,
}
use min_mcp.Json.{Value, null, MapOps}
use min_mcp.Json.Access.{Step, at, is_leaf, IsWf, leaf_of_shape, leaf_not_null, child_container}
use min_mcp.Project.{parse_path, select_path, deep_merge, project_from, project}
use min_mcp.Project.Places.{at-some, at-merge, at-merge_left}
use min_mcp.Project.Within.{Within, Within-null, Within-merge, at-merge_right}
use min_mcp.Project.Select.{select_path-IsSound}

null_leaf : (q : List Step) (x : Value) → is_leaf x ≡ true → at q null ≡ some x → ⊥
unfolding at
null_leaf [] x l h = ground (arith, leaf_not_null x l)
null_leaf (s ∷ q) x l h =
    let (c, ec, _) = at-some s q null x h in ground (arith, child_container s null c ec)

module _ ⦃M : MapOps⦄ where
  -- Some path of the list selects `x`, at the place `q`, from `v`.
  pub record Selected (q : List Step) (x v : Value) (ps : List String) : Type 0 where
    pub path : String
    pub listed : At path ps
    pub selection : Value
    pub selected : select_path (parse_path path) v ≡ some selection
    pub stands : at q selection ≡ some x

  one_more :
      (q : List Step) (x v : Value) (p : String) (ps : List String)
      → Selected q x v ps
      → Selected q x v (p ∷ ps)
  one_more q x v p ps s = record {
    path = s.path;
    listed = there s.listed;
    selection = s.selection;
    selected = s.selected;
    stands = s.stands;
  }

  at-merge_leaf :
      (q : List Step) (a b x : Value)
      → IsWf b
      → is_leaf x ≡ true
      → at q (deep_merge a b) ≡ some x
      → (at q a ≡ some x) ⊎ (at q b ≡ some x)
  at-merge_leaf q a b x w l h =
      let (y, alike, from) = at-merge q a b x w h in
      let same = leaf_of_shape x y l (sym alike) in ground (arith, same, from)

  project_from_only :
      (acc v : Value) (ps : List String) (q : List Step) (x : Value)
      → IsWf v
      → is_leaf x ≡ true
      → at q (project_from acc v ps) ≡ some x
      → (at q acc ≡ some x) ⊎ Selected q x v ps
  unfolding project_from
  project_from_only acc v [] q x w l h = inl h
  project_from_only acc v (p ∷ ps) q x w l h = elim (Option-cases (select_path (parse_path p) v)) [
    | inl n ↦ elim (project_from_only acc v ps q x w l (ground arith)) [
      | inl a ↦ inl a
      | inr s ↦ inr (one_more q x v p ps s)
    ]
    | inr (s, e) ↦ elim (project_from_only (deep_merge acc s) v ps q x w l (ground arith)) [
      | inl a ↦ elim (at-merge_leaf q acc s x (select_path-IsSound (parse_path p) v s w e).wf l a) [
        | inl b ↦ inl b
        | inr c ↦ inr (record { path = p; listed = here; selection = s; selected = e; stands = c })
      ]
      | inr r ↦ inr (one_more q x v p ps r)
    ]
  ]

  project_from_left :
      (acc v : Value) (ps : List String) (q : List Step) (x : Value)
      → IsWf v
      → is_leaf x ≡ true
      → at q acc ≡ some x
      → at q (project_from acc v ps) ≡ some x
  unfolding project_from
  project_from_left acc v [] q x w l h = h
  project_from_left acc v (p ∷ ps) q x w l h = elim (Option-cases (select_path (parse_path p) v)) [
    | inl n ↦ ground (arith, project_from_left acc v ps q x w l h)
    | inr (s, e) ↦
        let kept = at-merge_left q acc s x (select_path-IsSound (parse_path p) v s w e).wf l h in
        ground (arith, project_from_left (deep_merge acc s) v ps q x w l kept)
  ]

  project_from_all :
      (acc v : Value) (ps : List String) (p : String) (s : Value) (q : List Step) (x : Value)
      → IsWf v
      → Within acc v
      → is_leaf x ≡ true
      → At p ps
      → select_path (parse_path p) v ≡ some s
      → at q s ≡ some x
      → at q (project_from acc v ps) ≡ some x
  unfolding project_from
  project_from_all acc v [] p s q x w i l m e h = elim m [ ]
  project_from_all acc v (p ∷ ps) p' s q x w i l here e h =
      let so = select_path-IsSound (parse_path p) v s w e in
      let got = at-merge_right q acc s v x so.wf i so.within l h in
      ground (arith, e, project_from_left (deep_merge acc s) v ps q x w l got)
  project_from_all acc v (p ∷ ps) p' s q x w i l (there m) e h =
      elim (Option-cases (select_path (parse_path p) v)) [
        | inl n ↦ ground (arith, project_from_all acc v ps p' s q x w i l m e h)
        | inr (s', e') ↦
            let so = select_path-IsSound (parse_path p) v s' w e' in
            let i' = Within-merge acc s' v so.wf i so.within in
            ground (arith, e', project_from_all (deep_merge acc s') v ps p' s q x w i' l m e h)
      ]

  -- The values in a projection, place by place, are exactly those that some path of the list selects
  -- there: nothing is added, moved or lost, in arrays neither. (For a value no map of which has a key
  -- twice; `x` ranges over what is no container and not null.)
  pub at-project_iff :
      (v : Value) (ps : List String) (q : List Step) (x : Value)
      → IsWf v
      → is_leaf x ≡ true
      → (at q (project v ps) ≡ some x) ↔ Selected q x v ps
  unfolding project
  at-project_iff v ps q x w l = (
    λ h. elim (project_from_only null v ps q x w l h) [
      | inl a ↦ absurd (null_leaf q x l a)
      | inr s ↦ s
    ],
    λ s.
        project_from_all null v ps s.path s.selection q x w (Within-null v) l s.listed s.selected
          s.stands,
  )

  -- Whatever a projection shows at a place is what the value has at that place.
  pub at-project :
      (v : Value) (ps : List String) (q : List Step) (x : Value)
      → IsWf v
      → is_leaf x ≡ true
      → at q (project v ps) ≡ some x
      → at q v ≡ some x
  at-project v ps q x w l h =
      let s = (at-project_iff v ps q x w l).0 h in
      let so = select_path-IsSound (parse_path s.path) v s.selection w s.selected in
      let f = so.within q x s.stands in
      ground (arith, f.is_held, f.same, leaf_not_null x l, leaf_of_shape x f.held l)
