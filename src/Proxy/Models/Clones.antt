-- ===== src/Proxy/Models/Clones.antt =====
-- proxy/internal/proxy/models.go: the -FLASH clones of models.
use lazy_vllm.Prelude.{
  ◌≡◌, ◌≢◌, refl, sym, ◌∙◌, String, ◌<>◌, true, Option, none, some, inl, inr, Bool-cases, str_eq,
  eq_iff, arith,
}
use lazy_vllm.Json.{Json, null, bool, int, real, str, arr, obj, Fields, get, put, as_string}
use lazy_vllm.Json.Laws.{get-put}
use lazy_vllm.Json.Structs.{◌>>=◌}
use lazy_vllm.Server.{flash_suffix, is_flash_model, strip_flash}
use lazy_vllm.Server.Flash.{strip_flash-append}
use lazy_vllm.Proxy.Models.{same_string, with_root, clone_model_with_flash}

get-put_same : (k : String) (v : Json) (fs : Fields) → get k (put k v fs) ≡ some v
get-put_same k v fs = ground (arith, get-put k k v fs, eq_iff k k)

get-put_other : (j k : String) (v : Json) (fs : Fields) → j ≢ k → get j (put k v fs) ≡ get j fs
get-put_other j k v fs h = ground (arith, get-put j k v fs, eq_iff k j)

with_root-other :
    (j id : String) (new : Json) (fs : Fields) → j ≢ "root" → get j (with_root id new fs) ≡ get j fs
with_root-other j id new fs h = elim (Bool-cases (same_string id (get "root" fs >>= as_string))) [
  | inl t ↦ rw t (get-put_other j "root" new fs h)
  | inr t ↦ rw t refl
]

with_root-root :
    (id : String) (new : Json) (fs : Fields)
    → get "root" fs ≡ some (str id)
    → get "root" (with_root id new fs) ≡ some new
with_root-root id new fs h =
    let t : str_eq id id ≡ true = (eq_iff id id).1 refl in rw (h, t) (get-put_same "root" new fs)

-- A root that is read as a name is that name, unless it is null, which is read as no name.
same_string-root :
    (id : String) (root : Option Json)
    → same_string id (root >>= as_string) ≡ true
    → id ≢ ""
    → root ≡ some (str id)
same_string-root id none same named = absurd (ground (arith, same))
same_string-root id (some (str s)) same named = ground (arith, eq_iff s id)
same_string-root id (some null) same named = absurd (named (sym ((eq_iff "" id).0 same)))
same_string-root id (some (bool b)) same named = absurd (ground (arith, same))
same_string-root id (some (int z)) same named = absurd (ground (arith, same))
same_string-root id (some (real s)) same named = absurd (ground (arith, same))
same_string-root id (some (arr vs)) same named = absurd (ground (arith, same))
same_string-root id (some (obj fs)) same named = absurd (ground (arith, same))

with_root-other_root :
    (id : String) (new : Json) (fs : Fields)
    → get "root" fs ≢ some (str id)
    → id ≢ ""
    → get "root" (with_root id new fs) ≡ get "root" fs
with_root-other_root id new fs r named =
    elim (Bool-cases (same_string id (get "root" fs >>= as_string))) [
      | inl t ↦ absurd (r (same_string-root id (get "root" fs) t named))
      | inr f ↦ rw f refl
    ]

root-ne-id : ◌≢◌ {A = String} "root" "id"
root-ne-id = ground (arith, eq_iff "root" "id")

id-ne-root : ◌≢◌ {A = String} "id" "root"
id-ne-root = ground (arith, eq_iff "id" "root")

-- A model whose id is a string, if the text of the new name between quotes is read as that name, has
-- a clone whose id is the name with -FLASH, which is a flash name and stands for the model. The clone
-- has every key but the id and the root as it was; a root that was the id is the new name, and any
-- other root, or no root, stays as it was, if the id is not empty.
pub clone_model_with_flash_sound :
    (literal : String → Option String) (fs : Fields) (id : String)
    → get "id" fs ≡ some (str id)
    → literal (id <> flash_suffix) ≡ some (id <> flash_suffix)
    → (gs : Fields) × (clone_model_with_flash literal (obj fs) ≡ some (obj gs))
      × (get "id" gs ≡ some (str (id <> flash_suffix)))
      × ((is_flash_model (id <> flash_suffix) ≡ true) × (strip_flash (id <> flash_suffix) ≡ id))
      × ((k : String) → k ≢ "id" → k ≢ "root" → get k gs ≡ get k fs)
      × (get "root" fs ≡ some (str id) → get "root" gs ≡ some (str (id <> flash_suffix)))
      × (get "root" fs ≢ some (str id) → id ≢ "" → get "root" gs ≡ get "root" fs)
unfolding clone_model_with_flash
clone_model_with_flash_sound literal fs id h l =
    let new = str (id <> flash_suffix) in
    let renamed = put "id" new fs in
    let kept : get "root" renamed ≡ get "root" fs = get-put_other "root" "id" new fs root-ne-id in
    (
      with_root id new renamed,
      rw (h, l) refl,
      with_root-other "id" id new renamed id-ne-root ∙ get-put_same "id" new fs,
      strip_flash-append id,
      λ k n r. with_root-other k id new renamed r ∙ get-put_other k "id" new fs n,
      λ r. with_root-root id new renamed (kept ∙ r),
      λ r named. with_root-other_root id new renamed (λ e. r (sym kept ∙ e)) named ∙ kept,
    )
