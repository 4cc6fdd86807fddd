-- ===== src/Json/Entries.antt =====
-- A map as the sequence of its entries: the laws of `MapOps` can be met, and the tests run on it.
use min_mcp.Prelude.{String, ◌≡◌, refl, none, some, arith, eq_iff, ◌=?◌, if◌then◌else◌}
use min_mcp.Json.{Value, Fields, end, field, get, MapOps}

-- In place if the key is there, else at the end.
unfoldable pub put : String → Value → Fields → Fields
put k v end = field k v end
put k v (field j w m) = if j =? k then field j v m else field j w (put k v m)

unfoldable pub without : String → Fields → Fields
without k end = end
without k (field j w m) = if j =? k then without k m else field j w (without k m)

pub get-put :
    (k j : String) (v : Value) (m : Fields)
    → get j (put k v m) ≡ (if k =? j then some v else get j m)
unfolding put get
get-put k j v end = refl
get-put k j v (field i w m) = ground (arith, eq_iff k j, eq_iff i k, eq_iff i j, get-put k j v m)

pub get-without :
    (k j : String) (m : Fields) → get j (without k m) ≡ (if k =? j then none else get j m)
unfolding without get
get-without k j end = ground arith
get-without k j (field i w m) =
    ground (arith, eq_iff k j, eq_iff i k, eq_iff i j, get-without k j m)

pub without-put : (k : String) (v : Value) (m : Fields) → without k (put k v m) ≡ without k m
unfolding put without
without-put k v end = ground (arith, eq_iff k k)
without-put k v (field i w m) = ground (arith, eq_iff i k, without-put k v m)

pub put-end : (k : String) (v : Value) → put k v end ≡ field k v end
unfolding put
put-end k v = refl

instance abbrev pub entries : MapOps
entries = record {
  insert = put;
  remove = without;
  get-insert = get-put;
  get-remove = get-without;
  remove-insert = without-put;
  insert-end = put-end;
}
