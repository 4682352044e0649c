-- ===== src/Server/Flash.antt =====
-- The -FLASH suffix of model names.
use mathlib.Core.List.{append-nil}
use lazy_vllm.Prelude.{
  ◌-◌, String, ◌<>◌, true, some, List, [], ◌∷◌, ◌++◌, ◌≡◌, refl, ap, sym, ◌∙◌, length, take,
  length-append, drop-append, leb, arith,
}
use lazy_vllm.Text.{has_suffix, strip_prefix}
use lazy_vllm.Text.Laws.{strip_prefix-append}
use lazy_vllm.Text.Chars.{Chars, chars, of_chars, char_eq, chars-append, of_chars-chars}
use lazy_vllm.Server.{is_flash_model, without_suffix, flash_suffix, cut_flash, strip_flash}

strip_prefix_self : (p : Chars) → strip_prefix p p ≡ some []
strip_prefix_self p = ap (strip_prefix p) (sym (append-nil p)) ∙ strip_prefix-append p []

has_suffix-append : (s p : Chars) → has_suffix p (s ++ p) ≡ true
unfolding has_suffix
has_suffix-append s p =
    let n : length (s ++ p) - length p ≡ length s = omega (arith, length-append s p) in
    let long : leb (length p) (length (s ++ p)) ≡ true = ground (arith, length-append s p) in
    rw (long, n) (rw (drop-append s p) (rw strip_prefix_self refl))

take-append {ℓ} : {A : Type ℓ} (xs ys : List A) → take (length xs) (xs ++ ys) ≡ xs
take-append [] ys = refl
take-append (x ∷ xs) ys = ap (λ r. x ∷ r) (take-append xs ys)

pub is_flash_model-append : (name : String) → is_flash_model (name <> flash_suffix) ≡ true
unfolding is_flash_model
is_flash_model-append name =
    rw (chars-append name flash_suffix) (has_suffix-append (chars name) (chars flash_suffix))

without_suffix-append :
    (name : String) (suffix : String)
    → without_suffix (chars suffix) (chars (name <> suffix)) ≡ name
unfolding without_suffix
without_suffix-append name suffix =
    let both = chars-append name suffix in
    let n : length (chars name ++ chars suffix) - length (chars suffix) ≡ length (chars name) =
      omega (arith, length-append (chars name) (chars suffix)) in
    rw both (rw n (ap of_chars (take-append (chars name) (chars suffix)) ∙ of_chars-chars name))

pub cut_flash-append : (name : String) → cut_flash (name <> flash_suffix) ≡ some name
unfolding cut_flash
cut_flash-append name =
    rw (is_flash_model-append name) (ap some (without_suffix-append name flash_suffix))

strip_flash_of_cut :
    (name before : String) → cut_flash name ≡ some before → strip_flash name ≡ before
unfolding strip_flash
strip_flash_of_cut name before h = ground arith

-- A flash name is recognised, and stripping it gives back the name of the model.
pub strip_flash-append :
    (name : String)
    → (is_flash_model (name <> flash_suffix) ≡ true) × (strip_flash (name <> flash_suffix) ≡ name)
strip_flash-append name =
    (is_flash_model-append name, strip_flash_of_cut _ name (cut_flash-append name))
