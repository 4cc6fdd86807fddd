-- ===== src/Patch/Binding.antt =====
-- src/surface/patch.rs, `binding_status`: when an overlay is said to fit.
use min_mcp.Prelude.{
  String, ◌≡◌, ◌≢◌, refl, sym, ◌∙◌, inl, inr, ◌↔◌, true, false, not, List, [], ◌∷◌, Option, none,
  some, ◌=?◌, if◌then◌else◌, Bool-cases, arith, eq_iff, All,
}
use min_mcp.Json.{Value}
use mathlib.Core.Path.{subst}
use mathlib.Core.Option.{some_inj}
use min_mcp.Patch.{
  FieldPatch, Overlay, Status, ok, changed, broken, Reason, drifted, binding_status, missing_fields,
  field_path_exists,
}

-- An overlay fits a live tool: the tool is there, has every field the overlay patches, and its schema
-- is the one the overlay was written against, if it names one.
pub record Fits (o : Overlay) (live : Option Value) (sha : String) : Type 0 where
  pub schema : Value
  pub is_live : live ≡ some schema
  pub has_fields : All (λ p. field_path_exists schema p.0 ≡ true) o.fields
  pub same_sha : (authored : String) → o.authored_sha ≡ some authored → authored ≡ sha

missing_fields-nil :
    (v : Value) (fs : List (String × FieldPatch))
    → (missing_fields v fs ≡ []) ↔ All (λ p. field_path_exists v p.0 ≡ true) fs
unfolding missing_fields
missing_fields-nil v [] = (λ h. tt, λ h. refl)
missing_fields-nil v ((f, p) ∷ fs) = elim (Bool-cases (field_path_exists v f)) [
  | inl e ↦ (
    λ h. (e, (missing_fields-nil v fs).0 (ground arith)),
    λ (a, b). ground (arith, (missing_fields-nil v fs).1 b),
  )
  | inr e ↦ (λ h. absurd (ground arith), λ (a, b). absurd (cc (a, e)))
]

judge : List Reason → Option String → String → Status × List Reason
judge missing sha live = elim missing [
  | r ∷ rs ↦ (broken, r ∷ rs)
  | [] ↦ elim sha [
    | none ↦ (ok, [])
    | some authored ↦
        if not (authored =? live) then (changed, drifted authored live ∷ []) else (ok, [])
  ]
]

judge_ok :
    (rs : List Reason) (sha : Option String) (live : String)
    → ((judge rs sha live).0 ≡ ok) ↔ ((rs ≡ []) × ((a : String) → sha ≡ some a → a ≡ live))
unfolding judge
judge_ok (r ∷ rs) sha live = (λ h. absurd (cc (h)), λ (e, f). absurd (cc (e)))
judge_ok [] none live = (λ h. (refl, λ a e. absurd (cc (e))), λ p. refl)
judge_ok [] (some b) live = elim (Bool-cases (b =? live)) [
  | inl e ↦ (λ h. (refl, λ a f. sym (some_inj.0 f) ∙ (eq_iff b live).0 e), λ p. cc (e))
  | inr e ↦
      (λ h. absurd (drift b live e h), λ (p, q). absurd (cc ((eq_iff b live).1 (q b refl), e)))
]
  where
    drift : (b live : String) → b =? live ≡ false → (judge [] (some b) live).0 ≢ ok
    drift b live e h = absurd (cc (e, h))

-- The status of a binding is `ok` exactly if the overlay fits the live tool.
binding_status_ok_iff :
    (o : Overlay) (live : Option Value) (sha : String)
    → ((binding_status o live sha).0 ≡ ok) ↔ Fits o live sha
unfolding binding_status judge
binding_status_ok_iff o none sha = (λ h. absurd (cc (h)), λ f. absurd (cc (f.is_live)))
binding_status_ok_iff o (some v) sha =
    let j = judge_ok (missing_fields v o.fields) o.authored_sha sha in
    (
      λ h.
          let (none_missing, same) = j.0 h in
          record {
            schema = v;
            is_live = refl;
            has_fields = (missing_fields-nil v o.fields).0 none_missing;
            same_sha = same;
          },
      λ f. j.1 (
        (missing_fields-nil v o.fields).1 (
            subst (λ w. All (λ p. field_path_exists w p.0 ≡ true) o.fields)
              (sym (some_inj.0 f.is_live)) f.has_fields),
        f.same_sha,
      ),
    )
