-- ===== src/Dispatch/Answering.antt =====
-- src/surface/dispatch.rs and src/surface/results.rs: what is added to a result for the agent, and the shaping
-- of a call's answer.
use mathlib.Core.Option
use min_mcp.Prelude.{
  ℕ, ◌+◌, String, ◌<>◌, Bool, true, false, not, ◌&&◌, ◌||◌, List, [], ◌∷◌, Option, none, some, any,
  leb, if◌then◌else◌, unwrap_or, show,
}
use min_mcp.Json.{Value, array, Items, nil, cons, MapOps, get_key, as_array, as_str, modify}
use min_mcp.AuditChain.{JsonText}
use min_mcp.Preflight.{Comparing, structured_field_error_at}
use min_mcp.Project.{on_fields, project}
use min_mcp.Patch.{push}
use min_mcp.Results.{contains_text, no_paths}
use min_mcp.Results.Shape.{
  ResponseTransform, applies, len, apply_response_transform, transform_result,
}
use min_mcp.Config.{ErrorHint, is_some}
use min_mcp.Dispatch.{text_block}

abbrev pub projection_nudge_chars : ℕ
projection_nudge_chars = 2000

abbrev pub block_texts : Items → List String
block_texts nil = []
block_texts (cons b bs) = elim (Option.bind (get_key "text" b) as_str) [
  | none ↦ block_texts bs
  | some t ↦ t ∷ block_texts bs
]

-- The texts of the blocks of a result.
unfoldable pub texts_of : Value → List String
texts_of result =
    unwrap_or (Option.map block_texts (Option.bind (get_key "content" result) as_array)) []

-- `join("\n")`
unfoldable pub join_lines : List String → String
join_lines [] = ""
join_lines (t ∷ []) = t
join_lines (t ∷ u ∷ ts) = t <> "\n" <> join_lines (u ∷ ts)

abbrev pub total_len : List String → ℕ
total_len [] = 0
total_len (t ∷ ts) = len t + total_len ts

-- The hints that apply to a text, in their order.
unfoldable pub matching : String → List ErrorHint → List ErrorHint
matching text [] = []
matching text (h ∷ hs) =
    if contains_text h.containing text then h ∷ matching text hs else matching text hs

abbrev pub push_all : Items → Items → Items
push_all nil bs = bs
push_all (cons x xs) bs = push_all xs (push x bs)

abbrev pub on_blocks : (Items → Items) → Value → Value
on_blocks f (array bs) = array (f bs)
on_blocks f v = v

-- `RETRYABLE: …`, where the hint says so.
unfoldable pub retry_block : Option Bool → Items
retry_block none = nil
retry_block (some true) =
    cons (text_block "RETRYABLE: true (transient — wait briefly and retry)") nil
retry_block (some false) =
    cons (text_block "RETRYABLE: false (permanent — do not retry; fix the request)") nil

abbrev pub no_list {ℓ} : {A : Type ℓ} → List A → Bool
no_list [] = true
no_list (x ∷ xs) = false

-- A transform that changes nothing.
unfoldable pub is_noop : ResponseTransform → Bool
is_noop r =
    no_paths r.keep
    && no_paths r.remove
    && no_list r.renames
    && no_list r.sets
    && not (is_some r.jq)

module _ (J : JsonText) (E : Comparing) ⦃M : MapOps⦄ where
  -- The structured error of the hint's field by the schema, else the hint itself.
  unfoldable pub hint_text : Option Value → ErrorHint → String
  hint_text schema h =
      elim (Option.bind h.at_field (λ fp.
        Option.bind schema (λ s. structured_field_error_at E s fp "invalid_or_missing_field"))) [
          | some se ↦ "ERROR_DETAIL: " <> J.display se
          | none ↦ "HINT: " <> h.hint
        ]

  unfoldable pub hint_blocks : Option Value → List ErrorHint → Items
  unfolding hint_text retry_block
  hint_blocks schema [] = nil
  hint_blocks schema (h ∷ hs) =
      cons (text_block (hint_text schema h))
        (push_all (hint_blocks schema hs) (retry_block h.retryable))

  -- `schema` is the tool's, none where the caller does not see the tool.
  unfoldable pub apply_error_hints : List ErrorHint → Option Value → Value → Value
  unfolding texts_of join_lines matching hint_blocks
  apply_error_hints hints schema result =
      let matched = matching (join_lines (texts_of result)) hints in
      let needed : Option Value =
        if any (λ (h : ErrorHint). is_some h.at_field) matched then schema else none in
      elim matched [
        | [] ↦ result
        | h ∷ hs ↦
            on_fields (modify "content" (on_blocks (push_all (hint_blocks needed (h ∷ hs))))) result
      ]

  unfoldable pub nudge_text : ℕ → String
  nudge_text size =
      "HINT: this result is ~"
      <> show size
      <> " chars. If you only need some of it, re-call call_tool with a `fields` array (e.g. fields=[\"data[].id\",\"data[].amount\"]) to return just those fields and save context."

  unfoldable pub nudge_projection : Value → Value
  unfolding texts_of nudge_text
  nudge_projection result =
      let size = total_len (texts_of result) in
      if leb size projection_nudge_chars
      then result
      else on_fields (modify "content" (on_blocks (push (text_block (nudge_text size))))) result

  -- The overlay's transform where it applies, then the projection to the caller's fields on a success.
  unfoldable pub shape_result :
      (String → Value → Option Value)
      → Option ResponseTransform
      → List String
      → Bool
      → Bool
      → Value
      → Value
  unfolding is_noop
  shape_result jq_run rt fields from_spec is_error result =
      let active : Option ResponseTransform =
        Option.bind rt (λ r. if applies r is_error then some r else none) in
      let keep : List String = if is_error then [] else fields in
      if (elim active [ none ↦ false | some r ↦ not (is_noop r) ]) || not (no_paths keep)
      then transform_result J result from_spec (λ payload.
        let transformed : Value = elim active [
          | none ↦ payload
          | some r ↦ apply_response_transform jq_run payload r is_error
        ] in
        if not (no_paths keep) then project transformed keep else transformed)
      else result
