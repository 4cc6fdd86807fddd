-- ===== src/Results/Shape/Shaping.antt =====
-- src/surface/results.rs: the structured copy of a result, under a transform.
use mathlib.Core.Option
use mathlib.Core.Option.{some_inj}
use min_mcp.Prelude.{
  String, ◌≡◌, ◌≢◌, refl, sym, ap, ◌∙◌, inl, inr, Bool, true, false, not, ◌&&◌, ◌||◌, List, [], ◌∷◌,
  Option, none, some, ◌=?◌, if◌then◌else◌, Bool-cases, Option-cases, arith, At, eq_iff,
}
use min_mcp.Json.{
  Value, null, bool, number, string, array, object, Fields, MapOps, get, get_key, modify,
}
use min_mcp.Json.Maps.{get-modify}
use min_mcp.Project.{on_fields, on_items, parse_path, prune, project}
use min_mcp.Project.Prune.{resolves, resolves-prune}
use min_mcp.AuditChain.{JsonText}
use min_mcp.Results.{is_object, no_paths}
use min_mcp.Results.Shape.{
  ResponseTransform, apply_response_transform, rename_all, set_all, is_when_error, shape_structured,
  shape_block, transform_result,
}

module _ ⦃M : MapOps⦄ where
  pub get_key-modify_ne :
      (k j : String) (f : Value → Value) (v : Value)
      → k =? j ≡ false
      → get_key j (on_fields (modify k f) v) ≡ get_key j v
  get_key-modify_ne k j f (object m) n = get-modify k j f m ∙ ground (arith)
  get_key-modify_ne k j f null n = refl
  get_key-modify_ne k j f (bool b) n = refl
  get_key-modify_ne k j f (number b) n = refl
  get_key-modify_ne k j f (string b) n = refl
  get_key-modify_ne k j f (array b) n = refl

  -- The structured copy that is left: what the transform made of the one that was there, an object.
  pub record Shaped (f : Value → Value) (before : Option Value) (after : Value) : Type 0 where
    pub original : Value
    pub was_there : before ≡ some original
    pub is_shaped : after ≡ f original
    pub still_object : is_object after ≡ true

  kept_object :
      (f : Value → Value) (m : Fields) (c : Value)
      → get "structuredContent" m ≡ some c
      → is_object (f c) ≡ true
      → get_key "structuredContent" (shape_structured f (object m)) ≡ some (f c)
  unfolding shape_structured
  kept_object f m c e o =
      let s : shape_structured f (object m) ≡ object (modify "structuredContent" f m) = cc (e, o) in
      ap (get_key "structuredContent") s
      ∙ get-modify "structuredContent" "structuredContent" f m
      ∙ ap (Option.map f) e

  dropped_other :
      (f : Value → Value) (m : Fields) (c : Value)
      → get "structuredContent" m ≡ some c
      → is_object (f c) ≡ false
      → get_key "structuredContent" (shape_structured f (object m)) ≡ none
  unfolding shape_structured
  dropped_other f m c e o =
      let s : shape_structured f (object m)
          ≡ object (M.remove "structuredContent" (modify "structuredContent" f m)) =
        cc (e, o) in
      ap (get_key "structuredContent") s
      ∙ M.get-remove "structuredContent" "structuredContent" (modify "structuredContent" f m)

  not_there :
      (f : Value → Value) (m : Fields)
      → get "structuredContent" m ≡ none
      → get_key "structuredContent" (shape_structured f (object m)) ≡ none
  unfolding shape_structured
  not_there f m e = cc (e)

  get_key-shape_structured :
      (f : Value → Value) (v sc : Value)
      → get_key "structuredContent" (shape_structured f v) ≡ some sc
      → Shaped f (get_key "structuredContent" v) sc
  unfolding shape_structured
  get_key-shape_structured f (object m) sc h = elim (Option-cases (get "structuredContent" m)) [
    | inl e ↦ absurd (cc (not_there f m e, h))
    | inr (c, e) ↦ elim (Bool-cases (is_object (f c))) [
      | inl o ↦
          let same : sc ≡ f c = some_inj.0 (sym h ∙ kept_object f m c e o) in
          record { original = c; was_there = e; is_shaped = same; still_object = cc (same, o) }
      | inr o ↦ absurd (cc (dropped_other f m c e o, h))
    ]
  ]
  get_key-shape_structured f null sc h = absurd (cc (h))
  get_key-shape_structured f (bool b) sc h = absurd (cc (h))
  get_key-shape_structured f (number b) sc h = absurd (cc (h))
  get_key-shape_structured f (string b) sc h = absurd (cc (h))
  get_key-shape_structured f (array b) sc h = absurd (cc (h))

  -- A value, if it is an object.
  abbrev pub object_only : Option Value → Option Value
  object_only none = none
  object_only (some v) = if is_object v then some v else none

  -- What stands under a key that is modified.
  pub get_key-modify :
      (k : String) (f : Value → Value) (v : Value)
      → get_key k (on_fields (modify k f) v) ≡ Option.map f (get_key k v)
  get_key-modify k f (object m) = get-modify k k f m ∙ ground (arith, eq_iff k k)
  get_key-modify k f null = refl
  get_key-modify k f (bool b) = refl
  get_key-modify k f (number b) = refl
  get_key-modify k f (string b) = refl
  get_key-modify k f (array b) = refl

  get_key-remove_ne :
      (k j : String) (v : Value)
      → k =? j ≡ false
      → get_key j (on_fields (M.remove k) v) ≡ get_key j v
  get_key-remove_ne k j (object m) n = M.get-remove k j m ∙ ground (arith)
  get_key-remove_ne k j null n = refl
  get_key-remove_ne k j (bool b) n = refl
  get_key-remove_ne k j (number b) n = refl
  get_key-remove_ne k j (string b) n = refl
  get_key-remove_ne k j (array b) n = refl

  structured-shape_structured :
      (f : Value → Value) (v : Value)
      → get_key "structuredContent" (shape_structured f v)
        ≡ object_only (Option.map f (get_key "structuredContent" v))
  unfolding shape_structured
  structured-shape_structured f (object m) = elim (Option-cases (get "structuredContent" m)) [
    | inl e ↦ not_there f m e ∙ sym (ap (λ o. object_only (Option.map f o)) e)
    | inr (c, e) ↦ elim (Bool-cases (is_object (f c))) [
      | inl o ↦ kept_object f m c e o ∙ ground (arith, e, o)
      | inr o ↦ dropped_other f m c e o ∙ ground (arith, e, o)
    ]
  ]
  structured-shape_structured f null = refl
  structured-shape_structured f (bool b) = refl
  structured-shape_structured f (number b) = refl
  structured-shape_structured f (string b) = refl
  structured-shape_structured f (array b) = refl

  content-shape_structured :
      (f : Value → Value) (v : Value)
      → get_key "content" (shape_structured f v) ≡ get_key "content" v
  unfolding shape_structured
  content-shape_structured f v =
      let shaped = on_fields (modify "structuredContent" f) v in
      let kept : get_key "content" shaped ≡ get_key "content" v =
        get_key-modify_ne "structuredContent" "content" f v refl in
      elim (Option-cases (get_key "structuredContent" v)) [
        | inl e ↦ ground (arith, e)
        | inr (c, e) ↦ elim (Bool-cases (is_object (f c))) [
          | inl o ↦ rw (e, shape_structured) (rw o kept)
          | inr o ↦
              rw (e, shape_structured)
                (rw o (get_key-remove_ne "structuredContent" "content" shaped refl ∙ kept))
        ]
      ]

  -- The structured copy of a shaped result.
  pub structured-transform_result :
      (J : JsonText) (result : Value) (from_spec : Bool) (f : Value → Value)
      → get_key "structuredContent" (transform_result J result from_spec f)
        ≡ object_only (Option.map f (get_key "structuredContent" result))
  unfolding transform_result
  structured-transform_result J result from_spec f =
      get_key-modify_ne "content" "structuredContent" (on_items (shape_block J from_spec f))
        (shape_structured f result) refl
      ∙ structured-shape_structured f result

  -- Its blocks.
  pub content-transform_result :
      (J : JsonText) (result : Value) (from_spec : Bool) (f : Value → Value)
      → get_key "content" (transform_result J result from_spec f)
        ≡ Option.map (on_items (shape_block J from_spec f)) (get_key "content" result)
  unfolding transform_result
  content-transform_result J result from_spec f =
      get_key-modify "content" (on_items (shape_block J from_spec f)) (shape_structured f result)
      ∙ ap (Option.map (on_items (shape_block J from_spec f))) (content-shape_structured f result)

  -- The structured copy that a caller gets is the transform of the one that was there, and an object;
  -- what the transform takes out of the text cannot stand in it.
  pub get_key-transform_result :
      (J : JsonText) (result : Value) (from_spec : Bool) (f : Value → Value) (sc : Value)
      → get_key "structuredContent" (transform_result J result from_spec f) ≡ some sc
      → Shaped f (get_key "structuredContent" result) sc
  unfolding transform_result
  get_key-transform_result J result from_spec f sc h = get_key-shape_structured f result sc (
      sym (
        get_key-modify_ne "content" "structuredContent" (on_items (shape_block J from_spec f))
          (shape_structured f result) refl)
      ∙ h)

  apply_remove :
      (jq_run : String → Value → Option Value) (rt : ResponseTransform) (is_error : Bool)
      (v : Value)
      → no_paths rt.remove ≡ false
      → rt.renames ≡ []
      → rt.sets ≡ []
      → rt.jq ≡ none
      → (w : Value) × (apply_response_transform jq_run v rt is_error ≡ prune w rt.remove)
  unfolding apply_response_transform rename_all set_all
  apply_remove jq_run rt is_error v n r s j =
      let kept : Value =
        if not (no_paths rt.keep) && (not is_error || is_when_error rt.when)
        then project v rt.keep
        else v in
      (kept, cc (n, r, s, j))

  -- A path that an overlay removes leads nowhere in the structured copy that a caller gets, whether the
  -- result is an error or not. (For an overlay that does not rename, set or run jq afterwards.)
  pub resolves-transform_result :
      (J : JsonText) (jq_run : String → Value → Option Value) (rt : ResponseTransform)
      (is_error : Bool) (result : Value) (from_spec : Bool) (sc : Value) (p : String)
      → At p rt.remove
      → parse_path p ≢ []
      → rt.renames ≡ []
      → rt.sets ≡ []
      → rt.jq ≡ none
      → get_key "structuredContent"
          (transform_result J result from_spec (λ v. apply_response_transform jq_run v rt is_error))
        ≡ some sc
      → resolves (parse_path p) sc ≡ false
  resolves-transform_result J jq_run rt is_error result from_spec sc p i ne r s j h =
      let f = λ (v : Value). apply_response_transform jq_run v rt is_error in
      let shaped = get_key-transform_result J result from_spec f sc h in
      let (w, e) =
        apply_remove jq_run rt is_error shaped.original (some_path p rt.remove i) r s j in
      ap (resolves (parse_path p)) (shaped.is_shaped ∙ e) ∙ resolves-prune w rt.remove p i ne
    where
      some_path : (p : String) (ps : List String) → At p ps → no_paths ps ≡ false
      some_path p [] i = elim i [ ]
      some_path p (q ∷ qs) i = refl
