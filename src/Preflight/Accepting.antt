-- ===== src/Preflight/Accepting.antt =====
-- src/surface/preflight.rs, `preflight_walk`: exactly which arguments get through.
use min_mcp.Prelude.{
  String, ◌≡◌, ◌≢◌, refl, sym, ap, ◌∙◌, inl, inr, ◌↔◌, true, false, ◌&&◌, Option, none, some, ◌=?◌,
  if◌then◌else◌, any, Bool-cases, arith, eq_iff,
}
use mathlib.Core.Path.{subst}
use mathlib.Core.Option
use mathlib.Core.Option.{some_inj}
use min_mcp.Json.{Value, object, Fields, end, field, MapOps, get, get_key, is_null}
use min_mcp.Preflight.{
  Comparing, required, is_absent, has_alternatives, is_object_type, is_out_of_enum, path_of,
  structured_field_error, check_field, preflight_walk, walk_object, walk_properties, walk_fields,
}
use min_mcp.Json.Access.{IsWfFields}

module _ (E : Comparing) ⦃M : MapOps⦄ where
  -- What a field of a schema asks of the value given for it.
  pub record Accepts (container : Value) (name : String) (pschema : Value) (val : Option Value)
      (path : String) : Type 0 where
    pub not_missing : any (λ r. r =? name) (required container) && is_absent pschema val ≡ false
    -- A value that is not null, under a schema without alternatives, is of the enum,
    pub in_enum :
        (v : Value)
        → val ≡ some v
        → is_null v ≡ false
        → has_alternatives pschema ≡ false
        → is_out_of_enum E pschema v ≡ false
    -- and if the schema is an object's, its fields get through themselves.
    pub inside :
        (v : Value)
        → val ≡ some v
        → is_null v ≡ false
        → has_alternatives pschema ≡ false
        → is_object_type pschema ≡ true
        → preflight_walk E pschema v path ≡ none

  error_some :
      (container prop : Value) (props : Fields) (name path reason : String)
      → get_key "properties" container ≡ some (object props)
      → get name props ≡ some prop
      → structured_field_error E container name path reason ≢ none
  unfolding structured_field_error Option.bind
  error_some container prop props name path reason e f h =
      let l : Option.bind (get_key "properties" container) (get_key name) ≡ some prop =
        ap (λ o. Option.bind o (get_key name)) e ∙ f in
      absurd (cc (l, h))

  given-Accepts :
      (container : Value) (name : String) (pschema : Value) (path : String) (v : Value)
      (later : Option Value)
      → structured_field_error E container name path "invalid_enum_value" ≢ none
      → (if is_null v
          then later
          else if has_alternatives pschema
          then later
          else if is_out_of_enum E pschema v
          then structured_field_error E container name path "invalid_enum_value"
          else if is_object_type pschema
          then elim (preflight_walk E pschema v path) [ none ↦ later | some e ↦ some e ]
          else later)
        ≡ none
      → (is_null v ≡ false → has_alternatives pschema ≡ false → is_out_of_enum E pschema v ≡ false)
        × (is_null v ≡ false
            → has_alternatives pschema ≡ false
            → is_object_type pschema ≡ true
            → preflight_walk E pschema v path ≡ none)
        × (later ≡ none)
  given-Accepts container name pschema path v later i h = (
    λ n a. elim (Bool-cases (is_out_of_enum E pschema v)) [
      | inl o ↦ absurd (i (ground arith))
      | inr o ↦ o
    ],
    λ n a t. elim (Bool-cases (is_out_of_enum E pschema v)) [
      | inl o ↦ absurd (i (ground arith))
      | inr o ↦ ground arith
    ],
    ground (arith, i),
  )

  check_field-Accepts :
      (container : Value) (name : String) (pschema : Value) (path : String) (val : Option Value)
      (later : Option Value)
      → structured_field_error E container name path "missing_required_field" ≢ none
      → structured_field_error E container name path "invalid_enum_value" ≢ none
      → check_field E container name pschema path val (λ v. preflight_walk E pschema v path) later
        ≡ none
      → Accepts container name pschema val path × (later ≡ none)
  unfolding check_field
  check_field-Accepts container name pschema path none later m i h =
      let missing = any (λ r. r =? name) (required container) && is_absent pschema none in
      elim (Bool-cases missing) [
        | inl e ↦ absurd (m (ground arith))
        | inr e ↦ (
          record {
            not_missing = e;
            in_enum = λ v f. absurd (cc (f));
            inside = λ v f. absurd (cc (f));
          },
          ground arith,
        )
      ]
  check_field-Accepts container name pschema path (some v) later m i h =
      let missing = any (λ r. r =? name) (required container) && is_absent pschema (some v) in
      elim (Bool-cases missing) [
        | inl e ↦ absurd (m (ground arith))
        | inr e ↦
            let given = given-Accepts container name pschema path v later i (ground arith) in
            (
              record {
                not_missing = e;
                in_enum = λ w f n a. cc (some_inj.0 f, given.0 (ground (arith, some_inj.0 f)) a);
                inside = λ w f n a o. cc (some_inj.0 f, given.1 (ground (arith, some_inj.0 f)) a o);
              },
              given.2,
            )
      ]

  Accepts-check_field :
      (container : Value) (name : String) (pschema : Value) (path : String) (val : Option Value)
      (later : Option Value)
      → Accepts container name pschema val path
      → check_field E container name pschema path val (λ v. preflight_walk E pschema v path) later
        ≡ later
  unfolding check_field
  Accepts-check_field container name pschema path none later a = ground (arith, a.not_missing)
  Accepts-check_field container name pschema path (some v) later a =
      ground (arith, a.not_missing, a.in_enum v refl, a.inside v refl)

  -- Every entry of `rest` stands in the properties of the container.
  abbrev Within : Value → Fields → Type 0
  Within container rest =
      (name path reason : String) (q : Value)
      → get name rest ≡ some q
      → structured_field_error E container name path reason ≢ none

  get-head : (k : String) (v : Value) (m : Fields) → get k (field k v m) ≡ some v
  unfolding get
  get-head k v m = ground (arith, eq_iff k k)

  get-later :
      (k j : String) (v q : Value) (m : Fields)
      → get k m ≡ none
      → get j m ≡ some q
      → get j (field k v m) ≡ some q
  unfolding get
  get-later k j v q m n h = elim (Bool-cases (k =? j)) [
    | inl e ↦ absurd (cc ((eq_iff k j).0 e, n, h))
    | inr e ↦ ground arith
  ]

  get-same :
      (k j : String) (v q : Value) (m : Fields)
      → k =? j ≡ true
      → get j (field k v m) ≡ some q
      → ◌≡◌ {A = String × Value} (k, v) (j, q)
  unfolding get
  get-same k j v q m e h =
      let w : some v ≡ some q = ground arith in cc ((eq_iff k j).0 e, some_inj.0 w)

  walk_fields-Accepts :
      (container : Value) (rest : Fields) (args : Value) (prefix : String)
      → Within container rest
      → IsWfFields rest
      → walk_fields E container rest args prefix ≡ none
      → (name : String) (q : Value) → get name rest ≡ some q
      → Accepts container name q (get_key name args) (path_of prefix name)
  unfolding preflight_walk get
  walk_fields-Accepts container end args prefix i w h name q g = absurd (cc (g))
  walk_fields-Accepts container (field k v rest) args prefix i (new, wv, wr) h name q g =
      let path = path_of prefix k in
      let both =
        check_field-Accepts container k v path (get_key k args)
          (walk_fields E container rest args prefix)
          (i k path "missing_required_field" v (get-head k v rest))
          (i k path "invalid_enum_value" v (get-head k v rest)) h in
      elim (Bool-cases (k =? name)) [
        | inl e ↦
            subst
              (λ (x : String × Value).
                Accepts container x.0 x.1 (get_key x.0 args) (path_of prefix x.0))
              (get-same k name v q rest e g) both.0
        | inr e ↦
            walk_fields-Accepts container rest args prefix
              (λ n p r x f. i n p r x (get-later k n v x rest new f)) wr both.1 name q
              (ground arith)
      ]

  Accepts-walk_fields :
      (container : Value) (rest : Fields) (args : Value) (prefix : String)
      → IsWfFields rest
      → ((name : String) (q : Value)
          → get name rest ≡ some q
          → Accepts container name q (get_key name args) (path_of prefix name))
      → walk_fields E container rest args prefix ≡ none
  unfolding preflight_walk get
  Accepts-walk_fields container end args prefix w a = refl
  Accepts-walk_fields container (field k v rest) args prefix (new, wv, wr) a =
      Accepts-check_field container k v (path_of prefix k) (get_key k args)
        (walk_fields E container rest args prefix) (a k v (get-head k v rest))
      ∙ Accepts-walk_fields container rest args prefix wr
          (λ name q g. a name q (get-later k name v q rest new g))

  walk_object-properties :
      (container v : Value) (m : Fields) (args : Value) (prefix : String)
      → get "properties" m ≡ some v
      → walk_object E container m args prefix ≡ walk_properties E container v args prefix
  unfolding preflight_walk get
  walk_object-properties container v end args prefix h = absurd (cc (h))
  walk_object-properties container v (field k w m) args prefix h =
      elim (Bool-cases (k =? "properties")) [
        | inl e ↦ let f : some w ≡ some v = ground arith in cc (e, some_inj.0 f)
        | inr e ↦ ground (arith, walk_object-properties container v m args prefix)
      ]

  -- Arguments pass the walk of an object's schema exactly if each of its properties accepts what is given
  -- for it: no required field is missing or null where null is not allowed, no value is outside its enum,
  -- and inside object-typed fields the same holds. (For a schema no map of which has a key twice. Null,
  -- fields that are not required and not given, and schemas with alternatives are let through.)
  pub preflight_walk_iff :
      (m props : Fields) (args : Value) (prefix : String)
      → get "properties" m ≡ some (object props)
      → IsWfFields props
      → (preflight_walk E (object m) args prefix ≡ none) ↔ (
          (name : String) (q : Value)
          → get name props ≡ some q
          → Accepts (object m) name q (get_key name args) (path_of prefix name))
  unfolding preflight_walk
  preflight_walk_iff m props args prefix p w =
      let same = walk_object-properties (object m) (object props) m args prefix p in
      (
        λ h.
            walk_fields-Accepts (object m) props args prefix
              (λ name path reason q g. error_some (object m) q props name path reason p g) w
              (sym same ∙ h),
        λ a. same ∙ Accepts-walk_fields (object m) props args prefix w a,
      )
