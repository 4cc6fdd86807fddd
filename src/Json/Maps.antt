-- ===== src/Json/Maps.antt =====
-- What a map holds after a write in place.
use mathlib.Core.Option
use min_mcp.Prelude.{
  String, ◌≡◌, inl, inr, some, arith, eq_iff, Option-cases, ◌=?◌, if◌then◌else◌, unwrap_or,
}
use min_mcp.Json.{Value, Fields, get, MapOps, modify, or_insert}

module _ ⦃M : MapOps⦄ where
  pub get-modify :
      (k j : String) (f : Value → Value) (m : Fields)
      → get j (modify k f m) ≡ (if k =? j then Option.map f (get j m) else get j m)
  unfolding modify
  get-modify k j f m = elim (Option-cases (get k m)) [
    | inl e ↦ rw (e, modify) (ground (arith, eq_iff k j))
    | inr (v, e) ↦ rw (e, modify, M.get-insert) (ground (arith, eq_iff k j))
  ]

  pub get-or_insert :
      (k j : String) (d : Value) (f : Value → Value) (m : Fields)
      → get j (or_insert k d f m) ≡ (if k =? j then some (f (unwrap_or (get j m) d)) else get j m)
  unfolding or_insert
  get-or_insert k j d f m = elim (Option-cases (get k m)) [
    | inl e ↦ rw (e, or_insert, M.get-insert) (ground (arith, eq_iff k j))
    | inr (v, e) ↦ rw (e, or_insert, M.get-insert) (ground (arith, eq_iff k j))
  ]
