-- ===== src/Json/Laws.antt =====
-- The map laws of `get`, `put` and `delete`.
use lazy_vllm.Prelude.{◌≡◌, refl, String, none, some, arith, str_eq, eq_iff, if◌then◌else◌}
use lazy_vllm.Json.{Json, Fields, end, field, get, put, delete}

pub get-put :
    (j k : String) (v : Json) (fs : Fields)
    → get j (put k v fs) ≡ (if str_eq k j then some v else get j fs)
unfolding get put
get-put j k v end = refl
get-put j k v (field i w fs) = ground (arith, eq_iff i k, eq_iff i j, eq_iff k j, get-put j k v fs)

pub get-delete :
    (j k : String) (fs : Fields) → get j (delete k fs) ≡ (if str_eq k j then none else get j fs)
unfolding get delete
get-delete j k end = ground arith
get-delete j k (field i w fs) =
    ground (arith, eq_iff i k, eq_iff i j, eq_iff k j, get-delete j k fs)

-- A second assignment of the same value changes nothing.
pub put-put : (k : String) (v : Json) (fs : Fields) → put k v (put k v fs) ≡ put k v fs
unfolding put
put-put k v end = ground (arith, eq_iff k k)
put-put k v (field j w fs) = ground (arith, eq_iff j k, put-put k v fs)
