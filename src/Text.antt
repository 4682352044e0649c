-- ===== src/Text.antt =====
-- The functions of Go's packages strings and bytes that the program scans text with, over bytes
-- and over the characters of a string alike.
pub mod Laws
pub mod Codes
pub mod Same
pub mod Chars
pub mod Bytes
use lazy_vllm.Prelude.{
  ℕ, suc, ◌+◌, ◌-◌, ◌≡◌, ◌↔◌, Bool, true, false, ◌&&◌, ◌||◌, Option, none, some, List, [], ◌∷◌,
  ◌++◌, length, take, drop, arith, leb, if◌then◌else◌, ==_iff, ◌==◌,
}
use mathlib.Core.List.{reverse}

-- Elements that the program compares: bytes and characters.
pub record Comparable {ℓ} (A : Type ℓ) : Type ℓ where
  pub is_same : A → A → Bool
  pub is_same_iff : (x y : A) → (is_same x y ≡ true) ↔ (x ≡ y)

instance abbrev pub nat_eq : Comparable ℕ
nat_eq = record { is_same = ◌==◌; is_same_iff = ==_iff }

-- The position here, from whether the pattern begins here, or one more than the position later.
abbrev pub next_index {ℓ} : {R : Type ℓ} → Option R → Option ℕ → Option ℕ
next_index (some _) later = some 0
next_index none none = none
next_index none (some i) = some (suc i)

module _ {ℓ} {A : Type ℓ} ⦃e : Comparable A⦄ where
  -- `strings.CutPrefix(s, p)`, with the operands swapped.
  unfoldable pub strip_prefix : List A → List A → Option (List A)
  strip_prefix [] s = some s
  strip_prefix (p ∷ ps) [] = none
  strip_prefix (p ∷ ps) (c ∷ s) = if e.is_same p c then strip_prefix ps s else none

  -- `strings.Index(s, sep)`; `none` is -1.
  unfoldable pub index : List A → List A → Option ℕ
  index sep [] = next_index (strip_prefix sep []) none
  index sep (c ∷ s) = next_index (strip_prefix sep (c ∷ s)) (index sep s)

  -- `before, after, ok := strings.Cut(s, sep)`.
  unfoldable pub cut : List A → List A → Option (List A × List A)
  unfolding index
  cut sep s = elim (index sep s) [ none ↦ none | some i ↦ some (take i s, drop (i + length sep) s) ]

  -- `strings.HasPrefix(s, p)`.
  unfoldable pub has_prefix : List A → List A → Bool
  unfolding strip_prefix
  has_prefix p s = elim (strip_prefix p s) [ none ↦ false | some _ ↦ true ]

  -- `strings.HasSuffix(s, p)`.
  unfoldable pub has_suffix : List A → List A → Bool
  unfolding strip_prefix
  has_suffix p s =
      leb (length p) (length s)
      && (elim (strip_prefix p (drop (length s - length p) s)) [ none ↦ false | some _ ↦ true ])

module _ {ℓ} {A : Type ℓ} where
  -- Leading elements of a set dropped, as `strings.TrimLeft`.
  unfoldable pub trim_left : (A → Bool) → List A → List A
  trim_left cutset [] = []
  trim_left cutset (c ∷ s) = if cutset c then trim_left cutset s else c ∷ s

  unfoldable pub trim_right : (A → Bool) → List A → List A
  unfolding trim_left
  trim_right cutset s = reverse (trim_left cutset (reverse s))
