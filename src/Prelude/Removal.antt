-- ===== src/Prelude/Removal.antt =====
-- A list and what is left of it when some of its items are taken out.
use mathlib.Core.Path.{◌≡◌}
use mathlib.Core.Bool.{Bool, true, false}
use mathlib.Core.Logic.{inl, inr}
use mathlib.Core.List.{List, [], ◌∷◌}
use lazy_vllm.Prelude.Tests.{Bool-cases}
use lazy_vllm.Prelude.Lists.{keep}

module _ {A : Type 0} where
  -- The second list is the first without the items of which `T` holds, in the same order.
  pub data Without (T : A → Type 0) : List A → List A → Type 0 where
    nothing : Without T [] []
    taken_out : {x : A} {xs ys : List A} → T x → Without T xs ys → Without T (x ∷ xs) ys
    left_in : {x : A} {xs ys : List A} → ¬ T x → Without T xs ys → Without T (x ∷ xs) (x ∷ ys)

  pub keep-Without :
      (T : A → Type 0) (p : A → Bool)
      → ((x : A) → p x ≡ true → ¬ T x)
      → ((x : A) → p x ≡ false → T x)
      → (xs : List A) → Without T xs (keep p xs)
  keep-Without T p never only [] = nothing
  keep-Without T p never only (x ∷ xs) = elim (Bool-cases (p x)) [
    | inl t ↦ rw t (left_in (never x t) (keep-Without T p never only xs))
    | inr f ↦ rw f (taken_out (only x f) (keep-Without T p never only xs))
  ]
