-- ===== src/Dispatch/Shaped.antt =====
-- src/surface/dispatch.rs: what the shaping of an answer leaves of its structured copy.
use mathlib.Core.Option
use min_mcp.Prelude.{
  String, ◌≡◌, ◌≢◌, refl, sym, ap, ◌∙◌, inl, inr, ◌⊎◌, Bool, true, false, List, [], ◌∷◌, Option,
  none, some, if◌then◌else◌, arith, At,
}
use min_mcp.Json.{Value, MapOps, get_key}
use min_mcp.AuditChain.{JsonText}
use min_mcp.Preflight.{Comparing}
use min_mcp.Project.{parse_path}
use min_mcp.Project.Prune.{resolves}
use min_mcp.Results.{no_paths}
use min_mcp.Results.Shape.{ResponseTransform, applies, apply_response_transform, transform_result}
use min_mcp.Results.Shape.Shaping.{resolves-transform_result}
use min_mcp.Dispatch.Answering.{is_noop, shape_result}

some_path : (p : String) (ps : List String) → At p ps → no_paths ps ≡ false
some_path p [] i = elim i [ ]
some_path p (q ∷ qs) i = refl

not_noop : (rt : ResponseTransform) (p : String) → At p rt.remove → is_noop rt ≡ false
unfolding is_noop
not_noop rt p i = ground (arith, some_path p rt.remove i)

nothing_kept :
    (is_error : Bool) (fields : List String)
    → (is_error ≡ true) ⊎ (fields ≡ [])
    → (if is_error then [] else fields) ≡ []
nothing_kept true fields h = refl
nothing_kept false fields (inl h) = absurd (cc (h))
nothing_kept false fields (inr h) = h

module _ (J : JsonText) (E : Comparing) ⦃M : MapOps⦄ (jq_run : String → Value → Option Value) where
  -- Without a projection of the caller's an answer is shaped by the transform alone.
  shape_result-transform_result :
      (rt : ResponseTransform) (fields : List String) (from_spec is_error : Bool) (result : Value)
      → applies rt is_error ≡ true
      → is_noop rt ≡ false
      → (if is_error then [] else fields) ≡ []
      → shape_result J E jq_run (some rt) fields from_spec is_error result
        ≡ transform_result J result from_spec (λ v. apply_response_transform jq_run v rt is_error)
  unfolding shape_result Option.bind
  shape_result-transform_result rt fields from_spec is_error result a n k =
      rw (a, shape_result) (rw k (rw n refl))

  -- A path that an overlay's transform removes leads nowhere in the structured copy of an answer to which
  -- the transform applies, whether that is an error or not. (For a transform that does not rename, set or run
  -- jq afterwards, and an answer that is not projected to fields of the caller's, as no error is.)
  pub resolves-shape_result :
      (rt : ResponseTransform) (fields : List String) (from_spec is_error : Bool)
      (result sc : Value) (p : String)
      → At p rt.remove
      → parse_path p ≢ []
      → rt.renames ≡ []
      → rt.sets ≡ []
      → rt.jq ≡ none
      → applies rt is_error ≡ true
      → (is_error ≡ true) ⊎ (fields ≡ [])
      → get_key "structuredContent"
          (shape_result J E jq_run (some rt) fields from_spec is_error result)
        ≡ some sc
      → resolves (parse_path p) sc ≡ false
  resolves-shape_result rt fields from_spec is_error result sc p i ne r s j a k h =
      resolves-transform_result J jq_run rt is_error result from_spec sc p i ne r s j (
        sym (
          ap (get_key "structuredContent") (
            shape_result-transform_result rt fields from_spec is_error result a (not_noop rt p i)
              (nothing_kept is_error fields k)))
        ∙ h)
