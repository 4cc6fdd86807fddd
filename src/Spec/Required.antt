-- ===== src/Spec/Required.antt =====
-- src/spec.rs: what an input schema requires of its parameters.
use Prim.Native.String.{String}
use mathlib.Core.Option
use min_mcp.Prelude.{
  ◌≢◌, Bool, true, false, List, [], ◌∷◌, ◌++◌, none, arith, if◌then◌else◌, unwrap_or, is_empty,
  eq_iff, Bool-cases, inl, inr,
}
use min_mcp.Json.{Value, Items, nil, cons, Fields, get, get_key, as_str, as_bool, MapOps}
use min_mcp.Spec.{Spec, is_in}
use min_mcp.Spec.Params.{Params, param_prop, add_param, add_params}

-- A required parameter has a schema.
abbrev IsShown : Fields → List String → Type 0
IsShown props [] = Unit
IsShown props (k ∷ ks) = (get k props ≢ none) × IsShown props ks

abbrev IsCovered : Params → Type 0
IsCovered acc = IsShown acc.path_props acc.path_req × IsShown acc.query_props acc.query_req

IsShown-snoc :
    (props : Fields) (ks : List String) (k : String)
    → IsShown props ks
    → get k props ≢ none
    → IsShown props (ks ++ (k ∷ []))
IsShown-snoc props [] k h n = (n, tt)
IsShown-snoc props (j ∷ ks) k (a, h) n = (a, IsShown-snoc props ks k h n)

module _ ⦃M : MapOps⦄ where
  shown_insert :
      (k j : String) (v : Value) (m : Fields) → get j m ≢ none → get j (M.insert k v m) ≢ none
  shown_insert k j v m h e = h (ground (arith, M.get-insert k j v m, e))

  shown_inserted : (k : String) (v : Value) (m : Fields) → get k (M.insert k v m) ≢ none
  shown_inserted k v m e = absurd (ground (arith, M.get-insert k k v m, eq_iff k k, e))

  IsShown-insert :
      (k : String) (v : Value) (m : Fields) (ks : List String)
      → IsShown m ks
      → IsShown (M.insert k v m) ks
  IsShown-insert k v m [] h = tt
  IsShown-insert k v m (j ∷ ks) (a, h) = (shown_insert k j v m a, IsShown-insert k v m ks h)

  IsShown-put :
      (k : String) (v : Value) (m : Fields) (required : Bool) (ks : List String)
      → IsShown m ks
      → IsShown (M.insert k v m) (if required then ks ++ (k ∷ []) else ks)
  IsShown-put k v m true ks h =
      IsShown-snoc (M.insert k v m) ks k (IsShown-insert k v m ks h) (shown_inserted k v m)
  IsShown-put k v m false ks h = IsShown-insert k v m ks h

  add_param-IsCovered :
      (spec : Spec) (resolved : Bool) (acc : Params) (p : Value)
      → IsCovered acc
      → IsCovered (add_param spec resolved acc p)
  unfolding add_param
  add_param-IsCovered spec resolved acc p (a, b) =
      let name : String = unwrap_or (Option.bind (get_key "name" p) as_str) "" in
      let required : Bool = unwrap_or (Option.bind (get_key "required" p) as_bool) false in
      elim (Bool-cases (is_empty name)) [
        | inl e ↦ rw (e, add_param) (a, b)
        | inr e ↦ elim (Bool-cases (is_in "path" p)) [
          | inl f ↦
              rw (e, add_param)
                (rw f (IsShown-put name (param_prop p) acc.path_props required acc.path_req a, b))
          | inr f ↦ elim (Bool-cases (is_in "query" p)) [
            | inl g ↦
                rw (e, add_param)
                  (rw f (
                    rw g (
                      a,
                      IsShown-put name (param_prop p) acc.query_props required acc.query_req b,
                    )))
            | inr g ↦ elim (Bool-cases (is_in "body" p)) [
              | inl i ↦ rw (e, add_param) (rw f (rw g (rw i (a, b))))
              | inr i ↦ elim (Bool-cases (is_in "formData" p)) [
                | inl j ↦ rw (e, add_param) (rw f (rw g (rw i (rw j (a, b)))))
                | inr j ↦ rw (e, add_param) (rw f (rw g (rw i (rw j (a, b)))))
              ]
            ]
          ]
        ]
      ]

  -- Whatever parameters an operation declares, each that an input schema requires in the path or the
  -- query has a schema there, if that was so before.
  add_params-IsCovered :
      (spec : Spec) (resolved : Bool) (acc : Params) (a : Items)
      → IsCovered acc
      → IsCovered (add_params spec resolved acc a)
  unfolding add_params
  add_params-IsCovered spec resolved acc nil h = h
  add_params-IsCovered spec resolved acc (cons p a) h =
      add_params-IsCovered spec resolved (add_param spec resolved acc p) a
        (add_param-IsCovered spec resolved acc p h)
