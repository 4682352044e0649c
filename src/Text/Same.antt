-- ===== src/Text/Same.antt =====
-- Equality of byte strings, which Go's strings are.
use lazy_vllm.Prelude.{ℕ, ◌≡◌, refl, ◌↔◌, Bool, true, false, ◌&&◌, List, [], ◌∷◌, ◌==◌, arith}

abbrev pub same : List ℕ → List ℕ → Bool
same [] [] = true
same (a ∷ s) (b ∷ t) = a == b && same s t
same [] (b ∷ t) = false
same (a ∷ s) [] = false

same_self : (s : List ℕ) → same s s ≡ true
same_self [] = refl
same_self (a ∷ s) = ground (arith, same_self s)

eq_of_same : (s t : List ℕ) → same s t ≡ true → s ≡ t
eq_of_same [] [] h = refl
eq_of_same (a ∷ s) (b ∷ t) h = ground (arith, eq_of_same s t)
eq_of_same [] (b ∷ t) h = cc
eq_of_same (a ∷ s) [] h = cc

pub same_iff : (s t : List ℕ) → (same s t ≡ true) ↔ (s ≡ t)
same_iff s t = (eq_of_same s t, λ e. rw e (same_self t))
