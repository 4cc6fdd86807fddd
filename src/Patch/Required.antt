-- ===== src/Patch/Required.antt =====
-- src/surface/patch.rs, `set_required`: which names a schema requires after it.
use mathlib.Core.Option
use min_mcp.Prelude.{
  String, ◌≡◌, refl, sym, ap, ◌∙◌, inl, inr, Bool, true, false, ◌||◌, Option, none, some, ◌=?◌,
  if◌then◌else◌, Bool-cases, Option-cases, arith, eq_iff, unwrap_or,
}
use min_mcp.Json.{
  Value, string, array, object, Items, nil, cons, Fields, MapOps, get, any_item, is_str, as_str,
  as_array,
}
use min_mcp.Json.Maps.{get-or_insert}
use min_mcp.Preflight.{in_required}
use min_mcp.Patch.{push, retain_not, is_nil, with_name, set_required}

any-push :
    (j name : String) (a : Items)
    → any_item (is_str j) (push (string name) a) ≡ any_item (is_str j) a || name =? j
unfolding any_item push
any-push j name nil = ground arith
any-push j name (cons y ys) = ground (arith, any-push j name ys)

any-retain_not :
    (j name : String) (a : Items)
    → any_item (is_str j) (retain_not name a) ≡ (if name =? j then false else any_item (is_str j) a)
unfolding any_item retain_not
any-retain_not j name nil = ground arith
any-retain_not j name (cons y ys) = elim (Option-cases (as_str y)) [
  | inl e ↦ ground (arith, any-retain_not j name ys)
  | inr (t, e) ↦ ground (arith, any-retain_not j name ys, eq_iff t name, eq_iff t j, eq_iff name j)
]

any-nil : (j : String) (a : Items) → is_nil a ≡ true → any_item (is_str j) a ≡ false
unfolding any_item
any-nil j nil h = refl
any-nil j (cons y ys) h = absurd (cc (h))

abbrev listed : Fields → Option Items
listed m = Option.bind (get "required" m) as_array

in_required-some :
    (m : Fields) (j : String) (a : Items)
    → listed m ≡ some a
    → in_required (object m) j ≡ any_item (is_str j) a
unfolding in_required
in_required-some m j a h = cc (h)

in_required-none : (m : Fields) (j : String) → listed m ≡ none → in_required (object m) j ≡ false
unfolding in_required
in_required-none m j h = cc (h)

listed_of :
    (m : Fields) (o : Option Value) → get "required" m ≡ o → listed m ≡ Option.bind o as_array
listed_of m o h = ap (λ x. Option.bind x as_array) h

module _ ⦃M : MapOps⦄ where
  -- What `set_required(.., false)` does, in each of its cases.
  data Cleared (m : Fields) (name : String) : Type 0 where
    no_list : listed m ≡ none → set_required m name false ≡ m → Cleared m name
    dropped :
        (a : Items)
        → listed m ≡ some a
        → is_nil (retain_not name a) ≡ true
        → set_required m name false ≡ M.remove "required" m
        → Cleared m name
    kept :
        (a : Items)
        → listed m ≡ some a
        → set_required m name false ≡ M.insert "required" (array (retain_not name a)) m
        → Cleared m name

  cleared : (m : Fields) (name : String) → Cleared m name
  unfolding set_required
  cleared m name = elim (Option-cases (listed m)) [
    | inl e ↦ no_list e (cc (e))
    | inr (a, e) ↦ elim (Bool-cases (is_nil (retain_not name a))) [
      | inl n ↦ dropped a e n (cc (e, n))
      | inr n ↦ kept a e (cc (e, n))
    ]
  ]

  -- A key other than `required` is not touched.
  pub get-set_required_ne :
      (m : Fields) (name j : String) (b : Bool)
      → "required" =? j ≡ false
      → get j (set_required m name b) ≡ get j m
  unfolding set_required
  get-set_required_ne m name j true n =
      ground (arith, get-or_insert "required" j (array nil) (with_name name) m)
  get-set_required_ne m name j false n = elim (cleared m name) [
    | no_list e s ↦ ap (get j) s
    | dropped a e i s ↦ ap (get j) s ∙ M.get-remove "required" j m ∙ ground (arith)
    | kept a e s ↦
        ap (get j) s ∙ M.get-insert "required" j (array (retain_not name a)) m ∙ ground (arith)
  ]

  -- A name that is taken off the list is not required, and every other name is as it was.
  pub in_required-clear :
      (m : Fields) (name j : String)
      → in_required (object (set_required m name false)) j
        ≡ (if name =? j then false else in_required (object m) j)
  unfolding Option.bind
  in_required-clear m name j = elim (cleared m name) [
    | no_list e s ↦ ap (λ x. in_required (object x) j) s ∙ ground (arith, in_required-none m j e)
    | dropped a e i s ↦
        ap (λ x. in_required (object x) j) s
        ∙ in_required-none (M.remove "required" m) j
            (listed_of (M.remove "required" m) none (M.get-remove "required" "required" m))
        ∙ ground (
          arith,
          in_required-some m j a e,
          any-nil j (retain_not name a) i,
          any-retain_not j name a,
        )
    | kept a e s ↦
        ap (λ x. in_required (object x) j) s
        ∙ in_required-some (M.insert "required" (array (retain_not name a)) m) j (retain_not name a)
            (listed_of _ _ (M.get-insert "required" "required" (array (retain_not name a)) m))
        ∙ ground (arith, in_required-some m j a e, any-retain_not j name a)
  ]

  in_required-unwrap_or :
      (m : Fields) (j : String) (a : Items)
      → unwrap_or (get "required" m) (array nil) ≡ array a
      → in_required (object m) j ≡ any_item (is_str j) a
  unfolding Option.bind any_item
  in_required-unwrap_or m j a h = elim (Option-cases (get "required" m)) [
    | inl e ↦
        let f : array nil ≡ array a = sym (ap (λ o. unwrap_or o (array nil)) e) ∙ h in
        in_required-none m j (listed_of m none e) ∙ cc (f)
    | inr (v, e) ↦
        let f : v ≡ array a = sym (ap (λ o. unwrap_or o (array nil)) e) ∙ h in
        in_required-some m j a (listed_of m (some (array a)) (e ∙ ap some f))
  ]

  any-with_name :
      (j name : String) (a : Items)
      → (b : Items) × (with_name name (array a) ≡ array b)
        × (any_item (is_str j) b ≡ (if name =? j then true else any_item (is_str j) a))
  unfolding with_name
  any-with_name j name a = elim (Bool-cases (any_item (is_str name) a)) [
    | inl e ↦ (
      a,
      ground arith,
      elim (Bool-cases (name =? j)) [
        | inl f ↦ cc (f, e, (eq_iff name j).0 f)
        | inr f ↦ ground arith
      ],
    )
    | inr e ↦ (push (string name) a, ground arith, ground (arith, any-push j name a))
  ]

  set_listed :
      (m : Fields) (name : String)
      → get "required" (set_required m name true)
        ≡ some (with_name name (unwrap_or (get "required" m) (array nil)))
  unfolding set_required
  set_listed m name = get-or_insert "required" "required" (array nil) (with_name name) m

  -- Requiring a name puts it on the list and leaves every other name as it was. (For a `required` that is
  -- a list, or not there yet.)
  pub in_required-add :
      (m : Fields) (name j : String) (a : Items)
      → unwrap_or (get "required" m) (array nil) ≡ array a
      → in_required (object (set_required m name true)) j
        ≡ (if name =? j then true else in_required (object m) j)
  unfolding Option.bind
  in_required-add m name j a h =
      let (b, e, f) = any-with_name j name a in
      let put : get "required" (set_required m name true) ≡ some (array b) =
        set_listed m name ∙ ap (λ v. some (with_name name v)) h ∙ ap some e in
      in_required-some (set_required m name true) j b
        (listed_of (set_required m name true) (some (array b)) put)
      ∙ f
      ∙ ground (arith, in_required-unwrap_or m j a h)
