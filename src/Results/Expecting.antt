-- ===== src/Results/Expecting.antt =====
-- src/surface/results.rs, `eval_expect`: when a check on a result passes.
use mathlib.Core.Option.{some_inj}
use min_mcp.Prelude.{
  ℕ, String, ◌≡◌, refl, sym, ◌∙◌, inl, inr, ◌↔◌, Bool, true, false, List, [], ◌∷◌, ◌++◌, Option,
  none, some, Bool-cases, Option-cases, arith, eqb_refl, All,
}
use min_mcp.Json.{Value}
use min_mcp.AuditChain.{JsonText}
use min_mcp.Results.{
  Expect, Unmet, eval_expect, is_error_result, result_status, result_text, contains_text,
  is_missing, result_payload, unmet_is_error, unmet_status, unmet_contains, unmet_paths, unmet_has,
  unmet_missing, no_paths,
}

append_nil_iff : {A : Type 0} (xs ys : List A) → (xs ++ ys ≡ []) ↔ ((xs ≡ []) × (ys ≡ []))
append_nil_iff [] ys = (λ h. (refl, h), λ (a, b). b)
append_nil_iff (x ∷ xs) ys = (λ h. absurd (cc (h)), λ (a, b). absurd (cc (a)))

unmet_has_iff :
    (v : Value) (ps : List String) → (unmet_has v ps ≡ []) ↔ All (λ p. is_missing v p ≡ false) ps
unfolding unmet_has
unmet_has_iff v [] = (λ h. tt, λ h. refl)
unmet_has_iff v (p ∷ ps) = elim (Bool-cases (is_missing v p)) [
  | inl e ↦ (λ h. absurd (ground arith), λ (a, b). absurd (cc (a, e)))
  | inr e ↦ (
    λ h. (e, (unmet_has_iff v ps).0 (ground arith)),
    λ (a, b). ground (arith, (unmet_has_iff v ps).1 b),
  )
]

unmet_missing_iff :
    (v : Value) (ps : List String) → (unmet_missing v ps ≡ []) ↔ All (λ p. is_missing v p ≡ true) ps
unfolding unmet_missing
unmet_missing_iff v [] = (λ h. tt, λ h. refl)
unmet_missing_iff v (p ∷ ps) = elim (Bool-cases (is_missing v p)) [
  | inr e ↦ (λ h. absurd (ground arith), λ (a, b). absurd (cc (a, e)))
  | inl e ↦ (
    λ h. (e, (unmet_missing_iff v ps).0 (ground arith)),
    λ (a, b). ground (arith, (unmet_missing_iff v ps).1 b),
  )
]

no_paths-nil : (ps : List String) → no_paths ps ≡ true → ps ≡ []
no_paths-nil [] h = refl
no_paths-nil (p ∷ ps) h = absurd (cc (h))

module _ (J : JsonText) where
  -- Every assertion that a check makes holds of the result.
  pub record Holds (result : Value) (from_spec : Bool) (e : Expect) : Type 0 where
    pub error_flag : (b : Bool) → e.is_error ≡ some b → is_error_result result ≡ b
    pub status : (n : ℕ) → e.status ≡ some n → result_status J result ≡ some n
    pub contains :
        (s : String) → e.containing ≡ some s → contains_text s (result_text result) ≡ true
    pub has : All (λ p. is_missing (result_payload J result from_spec) p ≡ false) e.has
    pub missing : All (λ p. is_missing (result_payload J result from_spec) p ≡ true) e.missing

  unmet_is_error_iff :
      (result : Value) (o : Option Bool)
      → (unmet_is_error J result o ≡ []) ↔ ((b : Bool) → o ≡ some b → is_error_result result ≡ b)
  unfolding unmet_is_error
  unmet_is_error_iff result none = (λ h b e. absurd (cc (e)), λ h. refl)
  unmet_is_error_iff result (some want) =
      (λ h b e. ground (arith, some_inj.0 e), λ h. ground (arith, h want refl))

  unmet_status_iff :
      (result : Value) (o : Option ℕ)
      → (unmet_status J result o ≡ []) ↔ ((n : ℕ) → o ≡ some n → result_status J result ≡ some n)
  unfolding unmet_status
  unmet_status_iff result none = (λ h b e. absurd (cc (e)), λ h. refl)
  unmet_status_iff result (some want) = elim (Option-cases (result_status J result)) [
    | inl n ↦ (λ h b e. absurd (ground arith), λ h. absurd (cc (h want refl, n)))
    | inr (m, n) ↦ (
      λ h b e. ground (arith, some_inj.0 e),
      λ h. ground (arith, some_inj.0 (sym n ∙ h want refl), eqb_refl m),
    )
  ]

  unmet_contains_iff :
      (result : Value) (o : Option String)
      → (unmet_contains J result o ≡ [])
        ↔ ((s : String) → o ≡ some s → contains_text s (result_text result) ≡ true)
  unfolding unmet_contains
  unmet_contains_iff result none = (λ h b e. absurd (cc (e)), λ h. refl)
  unmet_contains_iff result (some sub) =
      elim (Bool-cases (contains_text sub (result_text result))) [
        | inl n ↦ (λ h b e. cc (some_inj.0 e, n), λ h. ground arith)
        | inr n ↦ (λ h b e. absurd (ground arith), λ h. absurd (cc (h sub refl, n)))
      ]

  unmet_paths-append :
      (result : Value) (from_spec : Bool) (e : Expect)
      → unmet_paths J result from_spec e
        ≡ unmet_has (result_payload J result from_spec) e.has
          ++ unmet_missing (result_payload J result from_spec) e.missing
  unfolding unmet_paths unmet_has unmet_missing
  unmet_paths-append result from_spec e = elim (Bool-cases (no_paths e.has)) [
    | inl h ↦ elim (Bool-cases (no_paths e.missing)) [
      | inl m ↦ cc (h, m, no_paths-nil e.has h, no_paths-nil e.missing m)
      | inr m ↦ cc (h, m)
    ]
    | inr h ↦ cc (h)
  ]

  unmet_paths_iff :
      (result : Value) (from_spec : Bool) (e : Expect)
      → (unmet_paths J result from_spec e ≡ []) ↔ (
          All (λ p. is_missing (result_payload J result from_spec) p ≡ false) e.has
          × All (λ p. is_missing (result_payload J result from_spec) p ≡ true) e.missing)
  unmet_paths_iff result from_spec e =
      let v = result_payload J result from_spec in
      let same = unmet_paths-append result from_spec e in
      let split = append_nil_iff (unmet_has v e.has) (unmet_missing v e.missing) in
      (
        λ h.
            let (a, b) = split.0 (sym same ∙ h) in
            ((unmet_has_iff v e.has).0 a, (unmet_missing_iff v e.missing).0 b),
        λ (a, b). same ∙ split.1 ((unmet_has_iff v e.has).1 a, (unmet_missing_iff v e.missing).1 b),
      )

  passes_nil :
      (fs : List Unmet)
      → ((elim fs as (λ x. Bool) [ [] ↦ true | f ∷ fs ↦ false ]) ≡ true) ↔ (fs ≡ [])
  passes_nil [] = (λ h. refl, λ h. refl)
  passes_nil (f ∷ fs) = (λ h. absurd (cc (h)), λ h. absurd (cc (h)))

  -- A check passes exactly if each of its assertions holds: the error flag and the status are as
  -- expected, the text is found, the paths that must be present are there and not null, and those that
  -- must be missing are not there or null.
  eval_expect_iff :
      (result : Value) (from_spec : Bool) (e : Expect)
      → ((eval_expect J result from_spec e).0 ≡ true) ↔ Holds result from_spec e
  unfolding eval_expect
  eval_expect_iff result from_spec e =
      let a = unmet_is_error J result e.is_error in
      let b = unmet_status J result e.status in
      let c = unmet_contains J result e.containing in
      let d = unmet_paths J result from_spec e in
      let nil = passes_nil (a ++ b ++ c ++ d) in
      (
        λ h.
            let (abc, d0) = (append_nil_iff (a ++ b ++ c) d).0 (nil.0 h) in
            let (ab, c0) = (append_nil_iff (a ++ b) c).0 abc in
            let (a0, b0) = (append_nil_iff a b).0 ab in
            let (has, missing) = (unmet_paths_iff result from_spec e).0 d0 in
            record {
              error_flag = (unmet_is_error_iff result e.is_error).0 a0;
              status = (unmet_status_iff result e.status).0 b0;
              contains = (unmet_contains_iff result e.containing).0 c0;
              has = has;
              missing = missing;
            },
        λ h.
            let a0 = (unmet_is_error_iff result e.is_error).1 h.error_flag in
            let b0 = (unmet_status_iff result e.status).1 h.status in
            let c0 = (unmet_contains_iff result e.containing).1 h.contains in
            let d0 = (unmet_paths_iff result from_spec e).1 (h.has, h.missing) in
            nil.1 (
              (append_nil_iff (a ++ b ++ c) d).1
                ((append_nil_iff (a ++ b) c).1 ((append_nil_iff a b).1 (a0, b0), c0), d0)),
      )
