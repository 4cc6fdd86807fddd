-- ===== src/Project/Merge.antt =====
-- src/project.rs, `deep_merge`: what stands where in a merged value.
use mathlib.Core.Path.{subst}
use min_mcp.Prelude.{
  ℕ, zero, suc, String, ◌≡◌, refl, ◌≢◌, inl, inr, false, Option, none, some, arith, eq_iff,
  Bool-cases, Option-cases, ◌=?◌, if◌then◌else◌,
}
use min_mcp.Json.{
  Value, null, bool, number, string, array, object, is_null, Items, nil, cons, Fields, end, field,
  MapOps, get,
}
use min_mcp.Json.Access.{Step, key, index, nth, child, is_leaf, shape, IsWf, IsWfFields, leaf-ne}
use min_mcp.Project.{deep_merge, merge_fields, merge_items, put_merged}

module _ ⦃M : MapOps⦄ where
  abbrev pub merge_opt : Option Value → Option Value → Option Value
  merge_opt none o = o
  merge_opt (some a) none = some a
  merge_opt (some a) (some b) = some (deep_merge a b)

  none_right : (o : Option Value) → o ≡ merge_opt o none
  none_right none = refl
  none_right (some a) = refl

  get-put_merged :
      (f : Value → Value) (j k : String) (v : Value) (am : Fields)
      → get j (put_merged f k v am)
        ≡ (if k =? j then some (elim (get j am) [ none ↦ v | some av ↦ f av ]) else get j am)
  unfolding put_merged
  get-put_merged f j k v am = elim (Option-cases (get k am)) [
    | inl e ↦ rw (e, put_merged, M.get-insert) (ground (arith, eq_iff k j))
    | inr (av, e) ↦
        rw (e, put_merged, M.get-insert) (ground (arith, eq_iff k j, M.get-remove k j am))
  ]

  merge_fields-field :
      (am : Fields) (k : String) (v : Value) (bm : Fields)
      → merge_fields am (field k v bm) ≡ merge_fields (put_merged (λ av. deep_merge av v) k v am) bm
  unfolding deep_merge
  merge_fields-field am k v bm = refl

  merge_fields-end : (am : Fields) → merge_fields am end ≡ am
  unfolding deep_merge
  merge_fields-end am = refl

  get-merge_fields :
      (j : String) (am bm : Fields)
      → IsWfFields bm
      → get j (merge_fields am bm) ≡ merge_opt (get j am) (get j bm)
  get-merge_fields j am end w = rw merge_fields-end (unfold get in none_right (get j am))
  get-merge_fields j am (field k v bm) w =
      rw
        (
          merge_fields-field,
          get-merge_fields j (put_merged (λ av. deep_merge av v) k v am) bm w.2,
          get-put_merged,
        )
        (unfold get in
          elim (Bool-cases (k =? j)) [
            | inl e ↦
                let gone : get j bm ≡ none = subst (λ x. get x bm ≡ none) ((eq_iff k j).0 e) w.0 in
                ground (arith, gone)
            | inr e ↦ rw e refl
          ])

  nth-merge_items :
      (i : ℕ) (xs ys : Items) → nth i (merge_items xs ys) ≡ merge_opt (nth i xs) (nth i ys)
  unfolding deep_merge nth
  nth-merge_items i xs nil = none_right (nth i xs)
  nth-merge_items i nil (cons y ys) = refl
  nth-merge_items zero (cons x xs) (cons y ys) = refl
  nth-merge_items (suc i) (cons x xs) (cons y ys) = nth-merge_items i xs ys

  merge_object : (am bm : Fields) → deep_merge (object am) (object bm) ≡ object (merge_fields am bm)
  unfolding deep_merge
  merge_object am bm = refl

  merge_array : (xs ys : Items) → deep_merge (array xs) (array ys) ≡ array (merge_items xs ys)
  unfolding deep_merge
  merge_array xs ys = refl

  -- Two values merge place by place, or one of them is taken whole.
  pub data Merges (a b : Value) : Type 0 where
    left :
        is_null a ≡ false
        → (is_leaf b ≡ false → is_null b ≡ false → shape a ≢ shape b)
        → deep_merge a b ≡ a
        → Merges a b
    right : a ≡ null → deep_merge a b ≡ b → Merges a b
    both :
        is_leaf a ≡ false
        → is_leaf b ≡ false
        → shape (deep_merge a b) ≡ shape a
        → ((s : Step) → child s (deep_merge a b) ≡ merge_opt (child s a) (child s b))
        → Merges a b

  both_objects : (am bm : Fields) → IsWfFields bm → Merges (object am) (object bm)
  unfolding child
  both_objects am bm w = both refl refl (rw merge_object refl) (λ s. rw merge_object (go s))
    where
      go :
          (s : Step)
          → child s (object (merge_fields am bm))
            ≡ merge_opt (child s (object am)) (child s (object bm))
      go (key k) = get-merge_fields k am bm w
      go (index i) = refl

  both_arrays : (xs ys : Items) → Merges (array xs) (array ys)
  unfolding child
  both_arrays xs ys = both refl refl (rw merge_array refl) (λ s. rw merge_array (go s))
    where
      go :
          (s : Step)
          → child s (array (merge_items xs ys))
            ≡ merge_opt (child s (array xs)) (child s (array ys))
      go (key k) = refl
      go (index i) = nth-merge_items i xs ys

  pub merges : (a b : Value) → IsWf b → Merges a b
  unfolding deep_merge
  merges (object am) (object bm) w = both_objects am bm w
  merges (array xs) (array ys) w = both_arrays xs ys
  merges null b w = right refl refl
  merges (bool x) b w = left refl (λ p q. leaf-ne (bool x) b refl p) refl
  merges (number x) b w = left refl (λ p q. leaf-ne (number x) b refl p) refl
  merges (string x) b w = left refl (λ p q. leaf-ne (string x) b refl p) refl
  merges a b w = left refl (λ p q e. ground arith) refl
