-- ===== src/Text/Chars.antt =====
-- A Go string as the list of its characters.
use Prim.Native.Char.{Char, code}
use lazy_vllm.Prelude.{
  ◌≡◌, refl, ap, ◌∙◌, ◌↔◌, String, ◌<>◌, Bool, true, ◌&&◌, ◌||◌, leb, List, [], ◌∷◌, ◌++◌, ==_iff,
  ◌==◌,
}
use lazy_vllm.Text.{Comparable, trim_left, trim_right}
use text.Mathlib.TextEquality.{Char-path}
use text.Mathlib.TextLemmas.{nil-append, cons-append}

abbrev pub Chars : Type 0
Chars = List Char

abbrev pub char_beq : Char → Char → Bool
char_beq c d = code c == code d

pub char_beq_iff : (c d : Char) → (char_beq c d ≡ true) ↔ (c ≡ d)
char_beq_iff c d = (
  λ h. Char-path c d ((==_iff (code c) (code d)).0 h),
  λ e. (==_iff (code c) (code d)).1 (ap code e),
)

instance abbrev pub char_eq : Comparable Char
char_eq = record { is_same = char_beq; is_same_iff = char_beq_iff }

unfoldable pub chars : String → Chars
chars String.[] = []
chars (String.◌∷◌ c s) = c ∷ chars s

unfoldable pub of_chars : Chars → String
of_chars [] = String.[]
of_chars (c ∷ s) = String.◌∷◌ c (of_chars s)

pub chars-of_chars : (s : Chars) → chars (of_chars s) ≡ s
unfolding chars of_chars
chars-of_chars [] = refl
chars-of_chars (c ∷ s) = ap (λ r. c ∷ r) (chars-of_chars s)

pub of_chars-chars : (s : String) → of_chars (chars s) ≡ s
unfolding chars of_chars
of_chars-chars String.[] = refl
of_chars-chars (String.◌∷◌ c s) = ap (λ r. String.◌∷◌ c r) (of_chars-chars s)

pub chars-append : (s t : String) → chars (s <> t) ≡ chars s ++ chars t
unfolding chars
chars-append String.[] t = ap chars (nil-append t)
chars-append (String.◌∷◌ c s) t = ap chars (cons-append c s t) ∙ ap (λ r. c ∷ r) (chars-append s t)

-- `unicode.IsSpace`, for `strings.TrimSpace`.
unfoldable pub is_space : Char → Bool
is_space c =
    let n = code c in
    n == b' '
    || leb 9 n && leb n 13
    || n == 0x85
    || n == 0xa0
    || n == 0x1680
    || leb 0x2000 n && leb n 0x200a
    || n == 0x2028
    || n == 0x2029
    || n == 0x202f
    || n == 0x205f
    || n == 0x3000

unfoldable pub trim_space : Chars → Chars
unfolding is_space trim_left trim_right
trim_space s = trim_right is_space (trim_left is_space s)
