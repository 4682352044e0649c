-- ===== src/Json/Structs.antt =====
-- Structs that encoding/json decodes: `none` is an error, which the program takes as a whole.
use lazy_vllm.Prelude.{String, Option, none, some, List, [], ◌∷◌}
use lazy_vllm.Json.{ℤ, pos, Json, null, obj, Fields, end, get, as_array, as_int}

infixl 5 ◌>>=◌
abbrev pub ◌>>=◌ {ℓ κ} : {A : Type ℓ} {B : Type κ} → Option A → (A → Option B) → Option B
none >>= k = none
some a >>= k = k a

-- A struct is decoded from null as from an object without fields.
abbrev pub as_struct : Json → Option Fields
as_struct null = some end
as_struct (obj fs) = some fs
as_struct _ = none

abbrev pub struct_at : String → Fields → Option Fields
struct_at k fs = elim (get k fs) [ none ↦ some end | some v ↦ as_struct v ]

abbrev pub list_at : String → Fields → Option (List Json)
list_at k fs = elim (get k fs) [ none ↦ some [] | some v ↦ as_array v ]

abbrev pub int_at : String → Fields → Option ℤ
int_at k fs = elim (get k fs) [ none ↦ some (pos 0) | some v ↦ as_int v ]

abbrev pub each {ℓ} : {A : Type ℓ} → (Json → Option A) → List Json → Option (List A)
each f [] = some []
each f (v ∷ vs) = do a ← f v; rest ← each f vs; some (a ∷ rest)
