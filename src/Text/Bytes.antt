-- ===== src/Text/Bytes.antt =====
-- `bytes.TrimSpace`: the white space of Unicode off both ends of a byte string. A space of more
-- than one byte is found by its encoding in UTF-8, from the front or, in reverse, from the end.
use mathlib.Core.List.{reverse}
use lazy_vllm.Prelude.{ℕ, zero, suc, List, [], ◌∷◌, ◌++◌, map, length, if◌then◌else◌}
use lazy_vllm.Text.{has_prefix, nat_eq}

-- U+0009 to U+000D, U+0020, U+0085, U+00A0, U+1680, U+2028, U+2029, U+202F, U+205F, U+3000.
abbrev some_spaces : List (List ℕ)
some_spaces =
    (9 ∷ [])
    ∷ (10 ∷ [])
    ∷ (11 ∷ [])
    ∷ (12 ∷ [])
    ∷ (13 ∷ [])
    ∷ (32 ∷ [])
    ∷ (0xc2 ∷ 0x85 ∷ [])
    ∷ (0xc2 ∷ 0xa0 ∷ [])
    ∷ (0xe1 ∷ 0x9a ∷ 0x80 ∷ [])
    ∷ (0xe2 ∷ 0x80 ∷ 0xa8 ∷ [])
    ∷ (0xe2 ∷ 0x80 ∷ 0xa9 ∷ [])
    ∷ (0xe2 ∷ 0x80 ∷ 0xaf ∷ [])
    ∷ (0xe2 ∷ 0x81 ∷ 0x9f ∷ [])
    ∷ (0xe3 ∷ 0x80 ∷ 0x80 ∷ [])
    ∷ []

-- U+2000 to U+200A.
abbrev wide_spaces : List (List ℕ)
wide_spaces =
    map (λ n. 0xe2 ∷ 0x80 ∷ n ∷ [])
      (0x80 ∷ 0x81 ∷ 0x82 ∷ 0x83 ∷ 0x84 ∷ 0x85 ∷ 0x86 ∷ 0x87 ∷ 0x88 ∷ 0x89 ∷ 0x8a ∷ [])

abbrev spaces : List (List ℕ)
spaces = some_spaces ++ wide_spaces

-- The length of the space that a byte string begins with, or 0.
abbrev width : List (List ℕ) → List ℕ → ℕ
width [] s = 0
width (p ∷ ps) s = if has_prefix p s then length p else width ps s

-- The first `n` bytes dropped, and the spaces behind them.
abbrev trim_from : List (List ℕ) → ℕ → List ℕ → List ℕ
trim_from ps n [] = []
trim_from ps (suc n) (c ∷ s) = trim_from ps n s
trim_from ps zero (c ∷ s) = elim (width ps (c ∷ s)) [ zero ↦ c ∷ s | suc n ↦ trim_from ps n s ]

unfoldable pub trim_bytes : List ℕ → List ℕ
trim_bytes s = reverse (trim_from (map reverse spaces) 0 (reverse (trim_from spaces 0 s)))
