-- ===== src/Spec/Bodies.antt =====
-- src/spec.rs and src/exec.rs: the media type that a request body is sent as.
use Prim.Native.String.{String}
use mathlib.Core.Option
use min_mcp.Prelude.{
  ◌≡◌, refl, false, ◌||◌, none, some, arith, eq_iff, if◌then◌else◌, unwrap_or, Option-cases, inl,
  inr,
}
use min_mcp.Json.{Value, null, string, object, Fields, end, field, get, get_key, as_object, is_null}
use min_mcp.Results.{contains_text}
use min_mcp.Exec.{no_body, form_body, flatten_form, body_of, is_no_fields}
use min_mcp.Spec.{Spec, Operation, pick_media, body_schema, body_media_type, target_of}

-- The schema that an operation declares for a media type.
abbrev pub schema_for : Operation → String → Value
schema_for op k =
    unwrap_or
      (Option.bind
        (Option.bind (Option.bind (get_key "requestBody" op.raw) (get_key "content")) (get_key k))
        (get_key "schema"))
      null

pick_media-get :
    (m : Fields) (k : String) (v : Value) → pick_media m ≡ some (k, v) → get k m ≡ some v
unfolding pick_media get
pick_media-get end k v h = absurd (ground (arith, h))
pick_media-get (field j w m) k v h = elim (Option-cases (get "application/json" (field j w m))) [
  | inl e ↦ ground (arith, e, h, eq_iff j j)
  | inr (x, e) ↦ ground (arith, e, h)
]

-- The schema that is shown for a body before references are resolved is the one of the media type that
-- the body is sent as, and null where there is none.
pub body_schema-body_media_type :
    (spec : Spec) (op : Operation)
    → body_schema spec op false
      ≡ (elim (body_media_type op) [ none ↦ null | some k ↦ schema_for op k ])
unfolding body_schema body_media_type Option.bind
body_schema-body_media_type spec op = elim (Option-cases (get_key "requestBody" op.raw)) [
  | inl e ↦ ground (arith, e)
  | inr (rb, e) ↦ elim (Option-cases (get_key "content" rb)) [
    | inl f ↦ ground (arith, e, f)
    | inr (v, f) ↦ elim (Option-cases (as_object v)) [
      | inl g ↦ ground (arith, e, f, g)
      | inr (m, g) ↦ elim (Option-cases (pick_media m)) [
        | inl p ↦ ground (arith, e, f, g, p)
        | inr ((k, media), p) ↦ ground (arith, e, f, g, p, pick_media-get m k media p)
      ]
    ]
  ]
]

media_of_reference :
    (op : Operation) (r : String)
    → get_key "requestBody" op.raw ≡ some (object (field "$ref" (string r) end))
    → body_media_type op ≡ none
unfolding body_media_type get
media_of_reference op r h = rw (h, body_media_type) refl

-- Where an operation gives its request body by a reference, no media type is read, and every body but an
-- empty one is sent as a form, whatever the referenced body declares.
pub body_of_reference :
    (spec : Spec) (op : Operation) (r : String) (body : Value)
    → get_key "requestBody" op.raw ≡ some (object (field "$ref" (string r) end))
    → body_of (target_of spec op) body
      ≡ (if is_null body || is_no_fields body then no_body else form_body (flatten_form body ""))
unfolding body_of target_of contains_text
body_of_reference spec op r body h = rw (media_of_reference op r h) refl
