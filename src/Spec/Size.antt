-- ===== src/Spec/Size.antt =====
-- src/spec.rs: how large a resolved schema is.
use Prim.Native.String.{String}
use mathlib.Core.Option
use min_mcp.Prelude.{
  ℕ, zero, suc, ◌+◌, ◌≤◌, ◌≡◌, ◌⊎◌, inl, inr, refl, Bool, true, false, List, [], ◌∷◌, ◌++◌, Option,
  none, some, arith, ◌=?◌, ◌||◌, if◌then◌else◌, any, starts_with, split, Bool-cases, Option-cases,
}
use min_mcp.Json.{
  Value, null, bool, number, string, array, object, Items, nil, cons, Fields, end, field, get,
}
use min_mcp.Spec.{
  Expansion, max_ref_chain, max_resolved_nodes, ref_of, marker, after_two, descend, spend, Follow,
  walk, walk_items, walk_fields, leave_out, expand, resolve_from, resolve,
}

-- A text under a name that stands for a reference.
abbrev pub is_marker : String → Value → Bool
is_marker k v = elim v [ string r ↦ k =? "$circular" || k =? "$omitted" | _ ↦ false ]

-- A reference that was left where it is, or what stands for one that was cut.
unfoldable pub is_mark : Fields → Bool
unfolding get
is_mark end = false
is_mark (field k v end) = elim (ref_of (field k v end)) [ some r ↦ true | none ↦ is_marker k v ]
is_mark (field k v (field j w m)) = elim (ref_of (field k v (field j w m))) [
  | some r ↦ true
  | none ↦ false
]

mutual
  unfolding is_mark

  -- The nodes of a value, where a reference or what stands for one is a single node.
  pub size : Value → ℕ
  size null = 1
  size (bool b) = 1
  size (number n) = 1
  size (string s) = 1
  size (array a) = suc (size_items a)
  size (object m) = let rest = size_fields m in if is_mark m then 1 else suc rest

  pub size_items : Items → ℕ
  size_items nil = 0
  size_items (cons v a) = size v + size_items a

  pub size_fields : Fields → ℕ
  size_fields end = 0
  size_fields (field k v m) = size v + size_fields m

-- A result has at most the nodes that the pass spent on it.
abbrev Fits : ℕ → Option (Value × Expansion) → Type 0
Fits bound o = (v : Value) (p : Expansion) → o ≡ some (v, p) → size v + p.budget ≤ bound

abbrev IsFrugal : Follow → Type 0
IsFrugal f =
    (r : String) (node : Value) (seen : List String) (p : Expansion)
    → size node ≤ 1
    → Fits (suc p.budget) (f r node seen p)

size_object : (m : Fields) → size (object m) ≤ suc (size_fields m)
unfolding size
size_object m = ground arith

is_mark-ref : (m : Fields) (r : String) → ref_of m ≡ some r → is_mark m ≡ true
unfolding is_mark get Option.bind
is_mark-ref end r h = absurd (cc)
is_mark-ref (field k v end) r h = ground (arith, h)
is_mark-ref (field k v (field j w m)) r h = ground (arith, h)

size_ref : (m : Fields) (r : String) → ref_of m ≡ some r → size (object m) ≤ 1
unfolding size
size_ref m r h = ground (arith, is_mark-ref m r h)

size-marker : (r : String) → (size (marker "$circular" r) ≡ 1) × (size (marker "$omitted" r) ≡ 1)
unfolding size is_mark get Option.bind
size-marker r = (refl, refl)

spend_lem : (p q : Expansion) → spend p ≡ some q → p.budget ≡ suc q.budget
unfolding spend
spend_lem p q h = ground arith

leaf :
    (v : Value) → size v ≡ 1 → (p : Expansion) → Fits p.budget (Option.map (λ q. (v, q)) (spend p))
leaf v one p w q e = elim (Option-cases (spend p)) [
  | inl n ↦ absurd (ground (arith, n, e))
  | inr (p', s) ↦ ground (arith, one, s, e, spend_lem p p' s)
]

mutual
  unfolding walk size

  walk-Fits :
      (f : Follow) (v : Value) (seen : List String) (p : Expansion)
      → IsFrugal f
      → Fits p.budget (walk f v seen p)
  walk-Fits f null seen p h w q e = leaf null refl p w q e
  walk-Fits f (bool b) seen p h w q e = leaf (bool b) refl p w q e
  walk-Fits f (number n) seen p h w q e = leaf (number n) refl p w q e
  walk-Fits f (string s) seen p h w q e = leaf (string s) refl p w q e
  walk-Fits f (array a) seen p h w q e = elim (Option-cases (spend p)) [
    | inl n ↦ absurd (ground (arith, n, e))
    | inr (p', s) ↦ elim (Option-cases (walk_items f a seen p')) [
      | inl n ↦ absurd (ground (arith, s, n, e))
      | inr ((b, q'), t) ↦
          ground (arith, s, t, e, spend_lem p p' s, walk_items-Fits f a seen p' h b q' t)
    ]
  ]
  walk-Fits f (object m) seen p h w q e = elim (Option-cases (spend p)) [
    | inl n ↦ absurd (ground (arith, n, e))
    | inr (p', s) ↦ elim (Option-cases (ref_of m)) [
      | inl o ↦ elim (Option-cases (walk_fields f m seen p')) [
        | inl n ↦ absurd (ground (arith, s, o, n, e))
        | inr ((b, q'), t) ↦ ground (
          arith,
          s,
          o,
          t,
          e,
          spend_lem p p' s,
          size_object b,
          walk_fields-Fits f m seen p' h b q' t,
        )
      ]
      | inr (r, o) ↦ elim (Bool-cases (any (λ s. s =? r) seen)) [
        | inl a ↦ ground (arith, s, o, a, e, spend_lem p p' s, size-marker r)
        | inr a ↦ elim (Bool-cases (starts_with r "#/")) [
          | inr b ↦ ground (arith, s, o, a, b, e, spend_lem p p' s, size_ref m r o)
          | inl b ↦
              let there : f r (object m) seen p' ≡ some (w, q) = ground (arith, s, o, a, b, e) in
              ground (arith, spend_lem p p' s, h r (object m) seen p' (size_ref m r o) w q there)
        ]
      ]
    ]
  ]

  walk_items-Fits :
      (f : Follow) (a : Items) (seen : List String) (p : Expansion)
      → IsFrugal f
      → (b : Items) (q : Expansion) → walk_items f a seen p ≡ some (b, q)
      → size_items b + q.budget ≤ p.budget
  walk_items-Fits f nil seen p h b q e = ground arith
  walk_items-Fits f (cons v a) seen p h b q e = elim (Option-cases (walk f v seen p)) [
    | inl n ↦ absurd (ground (arith, n, e))
    | inr ((w, q'), s) ↦ elim (Option-cases (walk_items f a seen q')) [
      | inl n ↦ absurd (ground (arith, s, n, e))
      | inr ((b', q''), t) ↦
          ground
            (arith, s, t, e, walk-Fits f v seen p h w q' s, walk_items-Fits f a seen q' h b' q'' t)
    ]
  ]

  walk_fields-Fits :
      (f : Follow) (m : Fields) (seen : List String) (p : Expansion)
      → IsFrugal f
      → (b : Fields) (q : Expansion) → walk_fields f m seen p ≡ some (b, q)
      → size_fields b + q.budget ≤ p.budget
  walk_fields-Fits f end seen p h b q e = ground arith
  walk_fields-Fits f (field k v m) seen p h b q e = elim (Option-cases (walk f v seen p)) [
    | inl n ↦ absurd (ground (arith, n, e))
    | inr ((w, q'), s) ↦ elim (Option-cases (walk_fields f m seen q')) [
      | inl n ↦ absurd (ground (arith, s, n, e))
      | inr ((b', q''), t) ↦
          ground
            (arith, s, t, e, walk-Fits f v seen p h w q' s, walk_fields-Fits f m seen q' h b' q'' t)
    ]
  ]

leave_out-IsFrugal : (limit : ℕ) → IsFrugal (leave_out limit)
unfolding leave_out
leave_out-IsFrugal limit r node seen p small v q e = ground (arith, size-marker r)

module _ (root : Value) where
  expand-Fits :
      (limit left : ℕ) (v : Value) (seen : List String) (p : Expansion)
      → Fits p.budget (expand root limit left v seen p)
  unfolding expand
  expand-Fits limit zero v seen p = walk-Fits (leave_out limit) v seen p (leave_out-IsFrugal limit)
  expand-Fits limit (suc left) v seen p = walk-Fits _ v seen p (λ r node s p' small w q e.
      elim (Option-cases (descend (split b'/' (after_two r)) root)) [
        | inl n ↦ ground (arith, n, e)
        | inr (t, n) ↦
            let there : expand root limit left t (s ++ (r ∷ [])) p' ≡ some (w, q) =
              ground (arith, n, e) in
            ground (arith, expand-Fits limit left t (s ++ (r ∷ [])) p' w q there)
      ])

  resolve_from_fits :
      (left limit : ℕ) (node best : Value)
      → (best ≡ node) ⊎ (size best ≤ max_resolved_nodes)
      → (resolve_from root left limit node best ≡ node)
        ⊎ (size (resolve_from root left limit node best) ≤ max_resolved_nodes)
  unfolding resolve_from
  resolve_from_fits zero limit node best h = h
  resolve_from_fits (suc left) limit node best h =
      let fresh : Expansion = record { budget = max_resolved_nodes; cut = false } in
      elim (Option-cases (expand root limit limit node [] fresh)) [
        | inl n ↦ rw (n, resolve_from) h
        | inr ((v, q), n) ↦
            let fits : size v ≤ max_resolved_nodes =
              omega (arith, expand-Fits limit limit node [] fresh v q n) in
            elim (Bool-cases q.cut) [
              | inl c ↦
                  rw (n, resolve_from) (rw c (resolve_from_fits left (limit + 1) node v (inr fits)))
              | inr c ↦ rw (n, resolve_from) (rw c (inr fits))
            ]
      ]

  -- However densely a spec's references are linked, a schema is resolved to at most 10,000 nodes, where a
  -- reference or what stands for one that was cut is a node, or is given as it is.
  pub size-resolve :
      (node : Value) → (resolve root node ≡ node) ⊎ (size (resolve root node) ≤ max_resolved_nodes)
  unfolding resolve
  size-resolve node = resolve_from_fits (max_ref_chain + 1) 0 node node (inl refl)
