-- ===== src/Patch/Kept.antt =====
-- src/surface/patch.rs: patches one after the other, none of which makes a field.
use mathlib.Core.Option
use min_mcp.Prelude.{
  String, ◌≡◌, refl, ap, ◌∙◌, inl, inr, ◌⊎◌, Bool, true, false, List, [], ◌∷◌, Option, none, some,
  ◌=?◌, Bool-cases, Option-cases, arith, At, here, there,
}
use min_mcp.Json.{
  Value, null, bool, number, string, array, object, Fields, MapOps, get, get_key, modify,
}
use min_mcp.Json.Maps.{get-modify}
use min_mcp.Project.{on_fields}
use min_mcp.Patch.{
  FieldSpec, FieldPatch, spec_of, is_hidden, has_property, set_required, put_if, describe,
  patch_fields, patch_at, exists_at, field_path_exists, apply_field_patches, path_parts,
}
use min_mcp.Patch.Required.{get-set_required_ne}
use min_mcp.Patch.Hidden.{stepped, exists-patch_at}

-- What one schema has as fields, the other has.
abbrev NoNew : Value → Value → Type 0
NoNew v' v = (parts : List String) → exists_at parts v' ≡ true → exists_at parts v ≡ true

has_property-stepped :
    (s : String) (v : Value)
    → has_property s v ≡ (elim (stepped s v) [ none ↦ false | some c ↦ true ])
unfolding has_property Option.bind
has_property-stepped s v = elim (Option-cases (get_key "properties" v)) [
  | inl e ↦ ground (arith, e)
  | inr (null, e) ↦ ground (arith, e)
  | inr (bool b, e) ↦ ground (arith, e)
  | inr (number n, e) ↦ ground (arith, e)
  | inr (string t, e) ↦ ground (arith, e)
  | inr (array a, e) ↦ ground (arith, e)
  | inr (object p, e) ↦ ground (arith, e)
]

-- One step down keeps that.
abbrev Steps : Option Value → Option Value → Type 0
Steps o' o = (o' ≡ none) ⊎ ((c' : Value) × (c : Value) × (o' ≡ some c') × (o ≡ some c) × NoNew c' c)

NoNew-Steps : (v' v : Value) → ((s : String) → Steps (stepped s v') (stepped s v)) → NoNew v' v
unfolding exists_at
NoNew-Steps v' v h [] e = absurd (cc (e))
NoNew-Steps v' v h (s ∷ []) e = elim (h s) [
  | inl n ↦ absurd (ground (arith, n, e, has_property-stepped s v'))
  | inr (c', c, a', a, k) ↦ ground (arith, a, has_property-stepped s v)
]
NoNew-Steps v' v h (s ∷ next ∷ parts) e = elim (h s) [
  | inl n ↦ absurd (cc (n, e))
  | inr (c', c, a', a, k) ↦
      let below : exists_at (next ∷ parts) c' ≡ true = cc (a', e) in
      let kept = k (next ∷ parts) below in cc (a, kept)
]

NoNew-refl : (v : Value) → NoNew v v
NoNew-refl v parts e = e

Steps-same : (o' o : Option Value) → o' ≡ o → Steps o' o
Steps-same o' o e = elim (Option-cases o) [
  | inl n ↦ inl (e ∙ n)
  | inr (c, n) ↦ inr (c, c, e ∙ n, n, NoNew-refl c)
]

module _ ⦃M : MapOps⦄ where
  -- The entries of a map of fields are the old ones, without new fields.
  abbrev Tames : (Fields → Fields) → Type 0
  Tames g = (t : String) (p : Fields) → Steps (get t (g p)) (get t p)

  Tames-remove : (name : String) → Tames (M.remove name)
  Tames-remove name t p = elim (Bool-cases (name =? t)) [
    | inl e ↦ inl (M.get-remove name t p ∙ ground (arith, e))
    | inr e ↦
        Steps-same (get t (M.remove name p)) (get t p) (M.get-remove name t p ∙ ground (arith, e))
  ]

  Tames-modify :
      (name : String) (f : Value → Value) → ((c : Value) → NoNew (f c) c) → Tames (modify name f)
  Tames-modify name f h t p = elim (Bool-cases (name =? t)) [
    | inr e ↦
        Steps-same (get t (modify name f p)) (get t p) (get-modify name t f p ∙ ground (arith, e))
    | inl e ↦
        let new : get t (modify name f p) ≡ Option.map f (get t p) =
          get-modify name t f p ∙ ground (arith, e) in
        elim (Option-cases (get t p)) [
          | inl n ↦ inl (new ∙ ap (Option.map f) n)
          | inr (c, n) ↦ inr (f c, c, new ∙ ap (Option.map f) n, n, h c)
        ]
  ]

  tame_at :
      (g : Fields → Fields) (s : String) (o : Option Value)
      → Tames g
      → Steps (Option.bind (Option.map (on_fields g) o) (get_key s)) (Option.bind o (get_key s))
  unfolding Option.bind
  tame_at g s none h = inl refl
  tame_at g s (some (object p)) h = h s p
  tame_at g s (some null) h = inl refl
  tame_at g s (some (bool b)) h = inl refl
  tame_at g s (some (number n)) h = inl refl
  tame_at g s (some (string t)) h = inl refl
  tame_at g s (some (array xs)) h = inl refl

  NoNew-Tames :
      (g : Fields → Fields) (v' v : Value)
      → Tames g
      → get_key "properties" v' ≡ Option.map (on_fields g) (get_key "properties" v)
      → NoNew v' v
  NoNew-Tames g v' v h e = NoNew-Steps v' v (λ s. rw e (tame_at g s (get_key "properties" v) h))

  NoNew-same : (v' v : Value) → get_key "properties" v' ≡ get_key "properties" v → NoNew v' v
  NoNew-same v' v e =
      NoNew-Steps v' v
        (λ s. Steps-same (stepped s v') (stepped s v) (ap (λ o. Option.bind o (get_key s)) e))

  get_properties-insert :
      (k : String) (v : Value) (m : Fields)
      → k =? "properties" ≡ false
      → get "properties" (M.insert k v m) ≡ get "properties" m
  get_properties-insert k v m n = M.get-insert k "properties" v m ∙ ground (arith, n)

  get_properties-put_if {ℓ} :
      {A : Type ℓ}
      → (f : A → Fields → Fields) (o : Option A) (m : Fields)
      → ((a : A) → get "properties" (f a m) ≡ get "properties" m)
      → get "properties" (put_if f o m) ≡ get "properties" m
  get_properties-put_if f none m h = refl
  get_properties-put_if f (some a) m h = h a

  -- A description changes a field's schema, not the fields below it.
  get_properties-describe :
      (s : FieldSpec) (m : Fields) → get "properties" (describe s m) ≡ get "properties" m
  unfolding describe
  get_properties-describe s m =
      get_properties-put_if (λ f. M.insert "format" (string f)) s.format _
        (λ f. get_properties-insert "format" (string f) _ refl)
      ∙ get_properties-put_if (λ t. M.insert "type" (string t)) s.ty _
          (λ t. get_properties-insert "type" (string t) _ refl)
      ∙ get_properties-put_if (λ en. M.insert "enum" (array en)) s.enum_values _
          (λ en. get_properties-insert "enum" (array en) _ refl)
      ∙ get_properties-put_if (M.insert "example") s.example _
          (λ x. get_properties-insert "example" x _ refl)
      ∙ get_properties-put_if (λ d. M.insert "description" (string d)) s.description m
          (λ d. get_properties-insert "description" (string d) m refl)

  NoNew-describe : (s : FieldSpec) (c : Value) → NoNew (on_fields (describe s) c) c
  NoNew-describe s (object m) =
      NoNew-same (object (describe s m)) (object m) (get_properties-describe s m)
  NoNew-describe s null = NoNew-refl null
  NoNew-describe s (bool b) = NoNew-refl (bool b)
  NoNew-describe s (number n) = NoNew-refl (number n)
  NoNew-describe s (string t) = NoNew-refl (string t)
  NoNew-describe s (array xs) = NoNew-refl (array xs)

  NoNew-tamed :
      (g : Fields → Fields) (m' m : Fields)
      → Tames g
      → get "properties" m' ≡ get "properties" (modify "properties" (on_fields g) m)
      → NoNew (object m') (object m)
  NoNew-tamed g m' m h e =
      NoNew-Tames g (object m') (object m) h
        (e ∙ get-modify "properties" "properties" (on_fields g) m)

  -- What is described, and perhaps required or no longer.
  NoNew-described :
      (s : FieldSpec) (name : String) (m : Fields) (o : Option Bool)
      → NoNew
          (object (elim o [
            | none ↦ modify "properties" (on_fields (modify name (on_fields (describe s)))) m
            | some req ↦
                set_required
                  (modify "properties" (on_fields (modify name (on_fields (describe s)))) m)
                  name
                  req
          ]))
          (object m)
  NoNew-described s name m none =
      NoNew-tamed (modify name (on_fields (describe s))) _ m
        (Tames-modify name (on_fields (describe s)) (NoNew-describe s)) refl
  NoNew-described s name m (some req) =
      let m' = modify "properties" (on_fields (modify name (on_fields (describe s)))) m in
      NoNew-tamed (modify name (on_fields (describe s))) (set_required m' name req) m
        (Tames-modify name (on_fields (describe s)) (NoNew-describe s))
        (get-set_required_ne m' name "properties" req refl)

  NoNew-patch_fields :
      (s : FieldSpec) (name : String) (m : Fields)
      → NoNew (object (patch_fields s name m)) (object m)
  unfolding patch_fields
  NoNew-patch_fields s name m = elim (Bool-cases (has_property name (object m))) [
    | inr n ↦ let e : patch_fields s name m ≡ m = cc (n) in rw e (NoNew-refl (object m))
    | inl p ↦ elim (Bool-cases (is_hidden s)) [
      | inl h ↦
          let m' = modify "properties" (on_fields (M.remove name)) m in
          let e : patch_fields s name m ≡ set_required m' name false = cc (p, h) in
          rw e (
            NoNew-tamed (M.remove name) (set_required m' name false) m (Tames-remove name)
              (get-set_required_ne m' name "properties" false refl))
      | inr h ↦
          let d = modify "properties" (on_fields (modify name (on_fields (describe s)))) m in
          let e : patch_fields s name m
              ≡ (elim s.is_required [ none ↦ d | some req ↦ set_required d name req ]) =
            cc (p, h) in
          rw e (NoNew-described s name m s.is_required)
    ]
  ]

  NoNew-patch_at : (s : FieldSpec) (qs : List String) (v : Value) → NoNew (patch_at s qs v) v
  unfolding patch_at
  NoNew-patch_at s [] v = NoNew-refl v
  NoNew-patch_at s (name ∷ []) (object m) = NoNew-patch_fields s name m
  NoNew-patch_at s (name ∷ []) null = NoNew-refl null
  NoNew-patch_at s (name ∷ []) (bool b) = NoNew-refl (bool b)
  NoNew-patch_at s (name ∷ []) (number n) = NoNew-refl (number n)
  NoNew-patch_at s (name ∷ []) (string t) = NoNew-refl (string t)
  NoNew-patch_at s (name ∷ []) (array xs) = NoNew-refl (array xs)
  NoNew-patch_at s (seg ∷ next ∷ qs) (object m) =
      let f = patch_at s (next ∷ qs) in
      NoNew-tamed (modify seg f) _ m (Tames-modify seg f (NoNew-patch_at s (next ∷ qs))) refl
  NoNew-patch_at s (seg ∷ next ∷ qs) null = NoNew-refl null
  NoNew-patch_at s (seg ∷ next ∷ qs) (bool b) = NoNew-refl (bool b)
  NoNew-patch_at s (seg ∷ next ∷ qs) (number n) = NoNew-refl (number n)
  NoNew-patch_at s (seg ∷ next ∷ qs) (string t) = NoNew-refl (string t)
  NoNew-patch_at s (seg ∷ next ∷ qs) (array xs) = NoNew-refl (array xs)

  NoNew-apply_field_patches :
      (fields : List (String × FieldPatch)) (v : Value) → NoNew (apply_field_patches v fields) v
  unfolding apply_field_patches
  NoNew-apply_field_patches [] v parts e = e
  NoNew-apply_field_patches ((path, patch) ∷ fields) v parts e =
      let v' = patch_at (spec_of patch) (path_parts path) v in
      NoNew-patch_at (spec_of patch) (path_parts path) v parts
        (NoNew-apply_field_patches fields v' parts e)

  -- The patch stands first, or after others.
  exists-apply_field_patches :
      (fields : List (String × FieldPatch)) (p : String × FieldPatch) (schema : Value)
      → At p fields
      → is_hidden (spec_of (p.1)) ≡ true
      → exists_at (path_parts (p.0)) (apply_field_patches schema fields) ≡ false
  unfolding apply_field_patches
  exists-apply_field_patches [] p schema i h = elim i [ ]
  exists-apply_field_patches (p ∷ fields) _ schema here h =
      let v' = patch_at (spec_of (p.1)) (path_parts (p.0)) schema in
      elim (Bool-cases (exists_at (path_parts (p.0)) (apply_field_patches v' fields))) [
        | inl e ↦
            let kept = NoNew-apply_field_patches fields v' (path_parts (p.0)) e in
            absurd (cc (kept, exists-patch_at (spec_of (p.1)) (path_parts (p.0)) schema h))
        | inr e ↦ e
      ]
  exists-apply_field_patches (q ∷ fields) p schema (there i) h =
      exists-apply_field_patches fields p (patch_at (spec_of (q.1)) (path_parts (q.0)) schema) i h

  -- A field that some patch of an overlay hides, or marks as supplied by the user, is not in the schema
  -- that all of the overlay's patches make, at any depth that its path names, whatever the other patches
  -- are and in whatever order they come.
  pub field_path_exists-hidden :
      (fields : List (String × FieldPatch)) (schema : Value) (path : String) (patch : FieldPatch)
      → At (path, patch) fields
      → is_hidden (spec_of patch) ≡ true
      → field_path_exists (apply_field_patches schema fields) path ≡ false
  unfolding field_path_exists
  field_path_exists-hidden fields schema path patch i h =
      exists-apply_field_patches fields (path, patch) schema i h
