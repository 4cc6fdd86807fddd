-- ===== src/Results/Shape.antt =====
-- src/surface/results.rs: the overlay's transform of a payload, the transform of a whole result, and the cut
-- to a budget.
pub mod Budget
pub mod Shaping
use mathlib.Core.Option
use Prim.Native.Char.{code}
use min_mcp.Prelude.{
  ℕ, ◌+◌, ◌-◌, String, ◌<>◌, Bool, true, false, not, ◌&&◌, ◌||◌, List, [], ◌∷◌, Option, none, some,
  ltb, leb, if◌then◌else◌, unwrap_or, length, as_bytes, utf8,
}
use min_mcp.Json.{Value, null, string, array, object, Fields, MapOps, get, get_key, as_str, modify}
use min_mcp.Project.{on_fields, on_items, project, prune, rename, set}
use min_mcp.AuditChain.{JsonText}
use min_mcp.Results.{is_object, is_envelope, no_paths}

pub data When : Type 0 where
  always success error : When

pub record ResponseTransform : Type 0 where
  pub keep : List String
  pub remove : List String
  pub renames : List (String × String)
  pub sets : List (String × Value)
  pub jq : Option String
  pub when : When

abbrev pub is_when_error : When → Bool
is_when_error error = true
is_when_error _ = false

unfoldable pub applies : ResponseTransform → Bool → Bool
applies rt is_error = elim rt.when [ always ↦ true | success ↦ not is_error | error ↦ is_error ]

-- `s.len()`
abbrev pub len : String → ℕ
len s = length (as_bytes s)

-- `s.truncate(s.floor_char_boundary(max))`: the characters that fit whole into `max` bytes.
unfoldable pub truncate : ℕ → String → String
truncate max String.[] = String.[]
truncate max (String.◌∷◌ c s) =
    let w = length (utf8 (code c)) in
    let rest = truncate (max - w) s in if leb w max then String.◌∷◌ c rest else String.[]

pub budget_truncate : String → ℕ → String → String
unfolding truncate
budget_truncate s max suffix =
    if leb (len s) max then s else truncate (max - len suffix) s <> suffix

module _ ⦃M : MapOps⦄ where
  unfoldable pub rename_all : List (String × String) → Value → Value
  rename_all [] v = v
  rename_all ((path, new_name) ∷ rs) v = rename_all rs (rename v path new_name)

  unfoldable pub set_all : List (String × Value) → Value → Value
  set_all [] v = v
  set_all ((path, val) ∷ ss) v = set_all ss (set v path val)

  unfoldable pub apply_response_transform :
      (String → Value → Option Value) → Value → ResponseTransform → Bool → Value
  unfolding rename_all set_all
  apply_response_transform jq_run payload rt is_error =
      let kept =
        if not (no_paths rt.keep) && (not is_error || is_when_error rt.when)
        then project payload rt.keep
        else payload in
      let removed = if not (no_paths rt.remove) then prune kept rt.remove else kept in
      let shaped = set_all rt.sets (rename_all rt.renames removed) in
      elim rt.jq [ none ↦ shaped | some program ↦ unwrap_or (jq_run program shaped) shaped ]

  -- The structured copy: shaped, and dropped if it is no object any more.
  unfoldable pub shape_structured : (Value → Value) → Value → Value
  shape_structured f result = elim (get_key "structuredContent" result) [
    | none ↦ result
    | some sc ↦
        let shaped = on_fields (modify "structuredContent" f) result in
        if is_object (f sc) then shaped else on_fields (M.remove "structuredContent") shaped
  ]

  module _ (J : JsonText) where
    -- The new text of a block, or none where the block is left alone.
    unfoldable pub shape_text : Bool → (Value → Value) → String → Option String
    unfolding is_envelope
    shape_text from_spec f text = elim (J.from_str text) [
      | none ↦ none
      | some parsed ↦
          if from_spec && is_envelope parsed
          then elim (unwrap_or (get_key "body" parsed) null) [
            | object m ↦ some (J.display (on_fields (M.insert "body" (f (object m))) parsed))
            | array a ↦ some (J.display (on_fields (M.insert "body" (f (array a))) parsed))
            | string body ↦ elim (J.from_str body) [
              | none ↦ none
              | some b ↦
                  some (J.display (on_fields (M.insert "body" (string (J.display (f b)))) parsed))
            ]
            | _ ↦ none
          ]
          else some (J.display (f parsed))
    ]

    unfoldable pub shape_block : Bool → (Value → Value) → Value → Value
    unfolding shape_text
    shape_block from_spec f block = elim (Option.bind (get_key "text" block) as_str) [
      | none ↦ block
      | some text ↦ elim (shape_text from_spec f text) [
        | none ↦ block
        | some t ↦ on_fields (M.insert "text" (string t)) block
      ]
    ]

    unfoldable pub transform_result : Value → Bool → (Value → Value) → Value
    unfolding shape_structured shape_block
    transform_result result from_spec f =
        on_fields (modify "content" (on_items (shape_block from_spec f)))
          (shape_structured f result)

    pub truncate_block : ℕ → String → Value → Value
    unfolding budget_truncate
    truncate_block max notice b = elim (Option.bind (get_key "text" b) as_str) [
      | none ↦ b
      | some text ↦
          if ltb max (len text)
          then on_fields (M.insert "text" (string (budget_truncate text max notice))) b
          else b
    ]

    pub truncate_blocks : Value → ℕ → String → Value
    unfolding truncate_block
    truncate_blocks result max notice =
        let dropped : Value = elim (get_key "structuredContent" result) [
          | none ↦ result
          | some sc ↦
              if ltb max (len (J.display sc))
              then on_fields (M.remove "structuredContent") result
              else result
        ] in
        on_fields (modify "content" (on_items (truncate_block max notice))) dropped
