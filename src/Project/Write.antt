-- ===== src/Project/Write.antt =====
-- src/project.rs: `set`, `set_default` and `rename`.
use min_mcp.Prelude.{
  String, ◌≡◌, refl, inl, inr, Bool, true, false, List, [], ◌∷◌, map, none, some, arith, Bool-cases,
  Option-cases, ◌=?◌, if◌then◌else◌, unwrap_or, eq_iff,
}
use min_mcp.Json.{Value, object, end, get, MapOps}
use min_mcp.Json.Maps.{get-or_insert}
use min_mcp.Json.Access.{Step, key, index, child, at, is_leaf}
use min_mcp.Project.{set_at, default_at}
use min_mcp.Project.Places.{at-some}

abbrev pub keys : List String → List Step
keys = map key

-- Objects, or nothing yet, all along the path: where a write can arrive.
unfoldable pub is_open : List String → Value → Bool
is_open [] v = false
is_open (seg ∷ []) (object m) = true
is_open (seg ∷ next ∷ rest) (object m) = elim (get seg m) [
  | none ↦ true
  | some c ↦ is_open (next ∷ rest) c
]
is_open segs v = false

-- A place parts from a path before the path ends.
unfoldable pub parts : List String → List Step → Bool
parts (seg ∷ segs) (key k ∷ q) = if seg =? k then parts segs q else true
parts (seg ∷ segs) (index i ∷ q) = true
parts segs q = false

at-end : (segs : List String) (q : List Step) → parts segs q ≡ true → at q (object end) ≡ none
unfolding parts at child get
at-end [] q h = absurd (cc)
at-end (seg ∷ segs) [] h = absurd (cc)
at-end (seg ∷ segs) (key k ∷ q) h = refl
at-end (seg ∷ segs) (index i ∷ q) h = refl

at-keys-end : (seg : String) (rest : List String) → at (keys (seg ∷ rest)) (object end) ≡ none
unfolding at child get
at-keys-end seg rest = refl

module _ ⦃M : MapOps⦄ where
  empty_open : (seg : String) (rest : List String) → is_open (seg ∷ rest) (object end) ≡ true
  unfolding is_open get
  empty_open seg [] = refl
  empty_open seg (next ∷ rest) = refl

  -- `set` puts the value where its path leads, whether it makes the objects on the way or finds them.
  pub at-set_at :
      (segs : List String) (val v : Value)
      → is_open segs v ≡ true
      → at (keys segs) (set_at segs val v) ≡ some val
  unfolding is_open set_at at child
  at-set_at [] val v h = absurd (cc)
  at-set_at (seg ∷ []) val (object m) h = ground (arith, M.get-insert seg seg val m, eq_iff seg seg)
  at-set_at (seg ∷ next ∷ rest) val (object m) h = elim (Option-cases (get seg m)) [
    | inl e ↦
        let ih = at-set_at (next ∷ rest) val (object end) (empty_open next rest) in
        ground (
          arith,
          get-or_insert seg seg (object end) (set_at (next ∷ rest) val) m,
          ih,
          eq_iff seg seg,
        )
    | inr (c, e) ↦
        let ih = at-set_at (next ∷ rest) val c (ground arith) in
        ground (
          arith,
          get-or_insert seg seg (object end) (set_at (next ∷ rest) val) m,
          ih,
          eq_iff seg seg,
        )
  ]
  at-set_at (seg ∷ rest) val v h = absurd (cc)

  -- `set` changes nothing at a place that parts from its path.
  at-set_at_ne :
      (segs : List String) (val v : Value) (q : List Step)
      → parts segs q ≡ true
      → at q (set_at segs val v) ≡ at q v
  unfolding parts set_at at child
  at-set_at_ne [] val v q h = absurd (cc)
  at-set_at_ne (seg ∷ segs) val v [] h = absurd (cc)
  at-set_at_ne (seg ∷ []) val (object m) (key k ∷ q) h = ground (arith, M.get-insert seg k val m)
  at-set_at_ne (seg ∷ next ∷ rest) val (object m) (key k ∷ q) h =
      let set_rest = set_at (next ∷ rest) val in
      elim (Bool-cases (seg =? k)) [
        | inl same ↦ elim (Option-cases (get k m)) [
          | inl e ↦
              let hq : parts (next ∷ rest) q ≡ true = ground arith in
              let ih = at-set_at_ne (next ∷ rest) val (object end) q hq in
              ground
                (arith, get-or_insert seg k (object end) set_rest m, ih, at-end (next ∷ rest) q hq)
          | inr (c, e) ↦
              let ih = at-set_at_ne (next ∷ rest) val c q (ground arith) in
              ground (arith, get-or_insert seg k (object end) set_rest m, ih)
        ]
        | inr other ↦ ground (arith, get-or_insert seg k (object end) set_rest m)
      ]
  at-set_at_ne (seg ∷ []) val (object m) (index i ∷ q) h = refl
  at-set_at_ne (seg ∷ next ∷ rest) val (object m) (index i ∷ q) h = refl
  at-set_at_ne (seg ∷ []) val v (s ∷ q) h = refl
  at-set_at_ne (seg ∷ next ∷ rest) val v (s ∷ q) h = refl

  -- A default fills its place if nothing is there, and otherwise leaves what is there.
  at-default_at :
      (segs : List String) (val v : Value)
      → is_open segs v ≡ true
      → at (keys segs) (default_at segs val v) ≡ some (unwrap_or (at (keys segs) v) val)
  unfolding is_open default_at at child
  at-default_at [] val v h = absurd (cc)
  at-default_at (seg ∷ []) val (object m) h =
      ground (arith, get-or_insert seg seg val (λ x. x) m, eq_iff seg seg)
  at-default_at (seg ∷ next ∷ rest) val (object m) h =
      let f = default_at (next ∷ rest) val in
      elim (Option-cases (get seg m)) [
        | inl e ↦
            let ih = at-default_at (next ∷ rest) val (object end) (empty_open next rest) in
            let gone = at-keys-end next rest in
            ground (arith, get-or_insert seg seg (object end) f m, ih, gone, eq_iff seg seg)
        | inr (c, e) ↦
            let ih = at-default_at (next ∷ rest) val c (ground arith) in
            ground (arith, get-or_insert seg seg (object end) f m, ih, eq_iff seg seg)
      ]
  at-default_at (seg ∷ rest) val v h = absurd (cc)

  -- No default overwrites a value, at whatever place.
  at-default_at_keeps :
      (segs : List String) (val v : Value) (q : List Step) (x : Value)
      → is_leaf x ≡ true
      → at q v ≡ some x
      → at q (default_at segs val v) ≡ some x
  unfolding default_at at child
  at-default_at_keeps [] val v q x l h = h
  at-default_at_keeps (seg ∷ []) val (object m) [] x l h = absurd (ground arith)
  at-default_at_keeps (seg ∷ []) val (object m) (key k ∷ q) x l h =
      let (c, e, hq) = at-some (key k) q (object m) x h in
      ground (arith, get-or_insert seg k val (λ y. y) m)
  at-default_at_keeps (seg ∷ []) val (object m) (index i ∷ q) x l h = h
  at-default_at_keeps (seg ∷ []) val v q x l h = h
  at-default_at_keeps (seg ∷ next ∷ rest) val (object m) [] x l h = absurd (ground arith)
  at-default_at_keeps (seg ∷ next ∷ rest) val (object m) (key k ∷ q) x l h =
      let (c, e, hq) = at-some (key k) q (object m) x h in
      let ih = at-default_at_keeps (next ∷ rest) val c q x l hq in
      ground (arith, get-or_insert seg k (object end) (default_at (next ∷ rest) val) m, ih)
  at-default_at_keeps (seg ∷ next ∷ rest) val (object m) (index i ∷ q) x l h = h
  at-default_at_keeps (seg ∷ next ∷ rest) val v q x l h = h
