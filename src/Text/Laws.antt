-- ===== src/Text/Laws.antt =====
-- What the scanning functions find.
use lazy_vllm.Prelude.{
  ℕ, zero, suc, ◌+◌, ◌≡◌, refl, sym, ap, ◌∙◌, ◌≢◌, inl, inr, none, some, List, [], ◌∷◌, ◌++◌, ◌≤◌,
  length, length-append, take, drop, drop-append, arith, Option-cases,
}
use mathlib.Core.List.{append_assoc}
use lazy_vllm.Text.{Comparable, strip_prefix, index}

drop-nil {ℓ} : {A : Type ℓ} (n : ℕ) → drop {A = A} n [] ≡ []
drop-nil zero = refl
drop-nil (suc n) = refl

drop_add {ℓ} : {A : Type ℓ} (i n : ℕ) (s : List A) → drop (i + n) s ≡ drop n (drop i s)
drop_add zero n s = let e : zero + n ≡ n = omega arith in rw e
drop_add (suc i) n [] = drop-nil (suc i + n) ∙ sym (drop-nil n)
drop_add (suc i) n (c ∷ s) = let e : suc i + n ≡ suc (i + n) = omega arith in rw e (drop_add i n s)

module _ {ℓ} {A : Type ℓ} ⦃e : Comparable A⦄ where
  -- The pattern stands somewhere in the text.
  abbrev pub Holds : List A → List A → Type ℓ
  Holds sep s = (b : List A) × (a : List A) × (s ≡ b ++ (sep ++ a))

  pub strip_prefix-append : (p r : List A) → strip_prefix p (p ++ r) ≡ some r
  unfolding strip_prefix
  strip_prefix-append [] r = refl
  strip_prefix-append (c ∷ p) r = rw ((e.is_same_iff c c).1 refl) (strip_prefix-append p r)

  pub eq_of_strip_prefix : (p s r : List A) → strip_prefix p s ≡ some r → s ≡ p ++ r
  unfolding strip_prefix
  eq_of_strip_prefix [] s r h = ground arith
  eq_of_strip_prefix (c ∷ p) [] r h = cc
  eq_of_strip_prefix (c ∷ p) (d ∷ s) r h =
      ground (arith, e.is_same_iff c d, eq_of_strip_prefix p s r)

  split_here : (sep s r : List A) → strip_prefix sep s ≡ some r → s ≡ sep ++ drop (0 + length sep) s
  split_here sep s r h = rw (drop_add 0 (length sep) s) (
      eq_of_strip_prefix sep s r h
      ∙ ap (λ t. sep ++ t)
          (sym (drop-append sep r) ∙ ap (drop (length sep)) (sym (eq_of_strip_prefix sep s r h))))

  -- The occurrence that `index` finds splits the text.
  pub index_split :
      (sep s : List A) (i : ℕ)
      → index sep s ≡ some i
      → s ≡ take i s ++ (sep ++ drop (i + length sep) s)
  unfolding index
  index_split sep [] i h = elim (Option-cases (strip_prefix sep [])) [
    | inl e ↦ cc
    | inr (r, e) ↦ let at : i ≡ 0 = ground arith in rw at (split_here sep [] r e)
  ]
  index_split sep (c ∷ s) zero h = elim (Option-cases (strip_prefix sep (c ∷ s))) [
    | inl e ↦ absurd (ground arith)
    | inr (r, e) ↦ split_here sep (c ∷ s) r e
  ]
  index_split sep (c ∷ s) (suc i) h =
      let later : index sep s ≡ some i = ground arith in
      rw (drop_add (suc i) (length sep) (c ∷ s))
        (ap (λ t. c ∷ t) (index_split sep s i later ∙ rw (drop_add i (length sep) s) refl))

  pub index_of_append : (sep b a : List A) → index sep (b ++ (sep ++ a)) ≢ none
  unfolding index strip_prefix
  index_of_append [] [] [] = ground arith
  index_of_append [] [] (c ∷ a) = ground arith
  index_of_append (c ∷ sep) [] a = ground (arith, strip_prefix-append (c ∷ sep) a)
  index_of_append sep (c ∷ b) a = ground (arith, index_of_append sep b a)

  strip_prefix-append_right :
      (p s t r : List A) → strip_prefix p s ≡ some r → strip_prefix p (s ++ t) ≡ some (r ++ t)
  strip_prefix-append_right p s t r h =
      ap (strip_prefix p) (ap (λ u. u ++ t) (eq_of_strip_prefix p s r h) ∙ append_assoc p r t)
      ∙ strip_prefix-append p (r ++ t)

  length_of_strip_prefix : (p s r : List A) → strip_prefix p s ≡ some r → length p ≤ length s
  length_of_strip_prefix p s r h =
      let e = ap length (eq_of_strip_prefix p s r h) in omega (arith, length-append p r, e)

  strip_prefix-append_none :
      (p s t : List A)
      → strip_prefix p s ≡ none
      → length p ≤ length s
      → strip_prefix p (s ++ t) ≡ none
  unfolding strip_prefix
  strip_prefix-append_none [] s t h k = cc
  strip_prefix-append_none (c ∷ p) [] t h k = absurd (omega arith)
  strip_prefix-append_none (c ∷ p) (d ∷ s) t h k = ground (arith, strip_prefix-append_none p s t)

  -- The occurrence that is found ends within the text.
  pub index_found_le : (sep s : List A) (i : ℕ) → index sep s ≡ some i → i + length sep ≤ length s
  unfolding index
  index_found_le sep [] i h = elim (Option-cases (strip_prefix sep [])) [
    | inl e ↦ cc
    | inr (r, e) ↦ ground (arith, length_of_strip_prefix sep [] r)
  ]
  index_found_le sep (c ∷ s) zero h = elim (Option-cases (strip_prefix sep (c ∷ s))) [
    | inl e ↦ absurd (ground arith)
    | inr (r, e) ↦ ground (arith, length_of_strip_prefix sep (c ∷ s) r)
  ]
  index_found_le sep (c ∷ s) (suc i) h =
      let later : index sep s ≡ some i = ground arith in omega (arith, index_found_le sep s i later)

  -- Text added behind does not move the first occurrence.
  pub index-append : (sep s t : List A) (i : ℕ) → index sep s ≡ some i → index sep (s ++ t) ≡ some i
  unfolding index
  index-append sep [] [] i h = h
  index-append sep [] (d ∷ t) i h = elim (Option-cases (strip_prefix sep [])) [
    | inl e ↦ cc
    | inr (r, e) ↦ ground (arith, strip_prefix-append_right sep [] (d ∷ t) r)
  ]
  index-append sep (c ∷ s) t i h = elim (Option-cases (strip_prefix sep (c ∷ s))) [
    | inr (r, e) ↦ ground (arith, strip_prefix-append_right sep (c ∷ s) t r)
    | inl e ↦ elim (Option-cases (index sep s)) [
      | inl none_later ↦ cc
      | inr (j, later) ↦ ground (
        arith,
        strip_prefix-append_none sep (c ∷ s) t,
        index_found_le sep s j,
        index-append sep s t j,
      )
    ]
  ]
