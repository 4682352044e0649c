-- ===== src/Text/Codes.antt =====
-- Characters by their numbers: which numbers are characters, and texts as lists of numbers.
use Prim.Native.Nat.{compare, Ordering}
use Prim.Native.Char.{Char, char, code, IsLt, IsScalar}
use lazy_vllm.Prelude.{ℕ, ◌≡◌, refl, ap, Option, none, some, List, [], ◌∷◌}
use lazy_vllm.Text.Chars.{Chars}

-- The three comparisons that make a number a scalar value.
abbrev Both : Ordering → Ordering → Type 0
Both Ordering.lt o = IsLt o
Both Ordering.eq _ = ⊥
Both Ordering.gt _ = ⊥

abbrev Scalar : Ordering → Ordering → Ordering → Type 0
Scalar Ordering.lt _ _ = Unit
Scalar Ordering.eq o p = Both o p
Scalar Ordering.gt o p = Both o p

abbrev decide_lt : (o : Ordering) → Option (IsLt o)
decide_lt Ordering.lt = some tt
decide_lt Ordering.eq = none
decide_lt Ordering.gt = none

abbrev decide_both : (o p : Ordering) → Option (Both o p)
decide_both Ordering.lt p = decide_lt p
decide_both Ordering.eq p = none
decide_both Ordering.gt p = none

abbrev decide : (o p q : Ordering) → Option (Scalar o p q)
decide Ordering.lt p q = some tt
decide Ordering.eq p q = decide_both p q
decide Ordering.gt p q = decide_both p q

decide_lt_lem : (o : Ordering) (s : IsLt o) → decide_lt o ≡ some s
decide_lt_lem Ordering.lt s = refl
decide_lt_lem Ordering.eq s = elim s [ ]
decide_lt_lem Ordering.gt s = elim s [ ]

decide_both_lem : (o p : Ordering) (s : Both o p) → decide_both o p ≡ some s
decide_both_lem Ordering.lt p s = decide_lt_lem p s
decide_both_lem Ordering.eq p s = elim s [ ]
decide_both_lem Ordering.gt p s = elim s [ ]

decide_lem : (o p q : Ordering) (s : Scalar o p q) → decide o p q ≡ some s
decide_lem Ordering.lt p q s = refl
decide_lem Ordering.eq p q s = decide_both_lem p q s
decide_lem Ordering.gt p q s = decide_both_lem p q s

abbrev is_scalar : (n : ℕ) → Option (IsScalar n)
is_scalar n = decide (compare n 55296) (compare 57343 n) (compare n 1114112)

abbrev char_if : (n : ℕ) → Option (IsScalar n) → Option Char
char_if n none = none
char_if n (some s) = some (char n s)

abbrev pub of_code : ℕ → Option Char
of_code n = char_if n (is_scalar n)

pub of_code-code : (c : Char) → of_code (code c) ≡ some c
of_code-code (char n s) =
    ap (char_if n) (decide_lem (compare n 55296) (compare 57343 n) (compare n 1114112) s)

abbrev pub codes : Chars → List ℕ
codes [] = []
codes (c ∷ s) = code c ∷ codes s

abbrev cons_if : Option Char → Chars → Chars
cons_if none s = s
cons_if (some c) s = c ∷ s

abbrev pub of_codes : List ℕ → Chars
of_codes [] = []
of_codes (n ∷ ns) = cons_if (of_code n) (of_codes ns)

pub of_codes-codes : (s : Chars) → of_codes (codes s) ≡ s
of_codes-codes [] = refl
of_codes-codes (c ∷ s) = rw (of_code-code c) (ap (λ r. c ∷ r) (of_codes-codes s))
