-- ===== src/Json/Thinking.antt =====
-- The blocks of a message that hold thinking, by the value of their "type".
use mathlib.Core.Bool.{false≢true}
use lazy_vllm.Prelude.{
  ◌≡◌, sym, ap, ◌∙◌, ◌⊎◌, inl, inr, Bool, true, false, not, ◌||◌, Option, none, some, String,
  str_eq, eq_iff, arith, Bool-cases,
}
use lazy_vllm.Json.{Json, null, bool, int, real, str, arr, obj, Fields, get}

abbrev pub IsThoughtType : String → Type 0
IsThoughtType t = (t ≡ "thinking") ⊎ (t ≡ "redacted_thinking")

-- The value that a "type" has, if there is one.
abbrev pub IsThoughtEntry : Option Json → Type 0
IsThoughtEntry o = (o ≡ some (str "thinking")) ⊎ (o ≡ some (str "redacted_thinking"))

-- An object of such a type.
abbrev pub IsThought : Json → Type 0
IsThought v = (fs : Fields) × (v ≡ obj fs) × IsThoughtEntry (get "type" fs)

abbrev pub is_plain_type : String → Bool
is_plain_type t = not (str_eq t "thinking" || str_eq t "redacted_thinking")

abbrev pub is_plain : Option Json → Bool
is_plain (some (str t)) = is_plain_type t
is_plain _ = true

pub is_plain_type-IsThoughtType : (t : String) → is_plain_type t ≡ true → ¬ IsThoughtType t
is_plain_type-IsThoughtType t h (inl e) = false≢true (sym (ap is_plain_type e) ∙ h)
is_plain_type-IsThoughtType t h (inr e) = false≢true (sym (ap is_plain_type e) ∙ h)

pub is_plain_type-false : (t : String) → is_plain_type t ≡ false → IsThoughtType t
is_plain_type-false t h = elim (Bool-cases (str_eq t "thinking")) [
  | inl e ↦ inl ((eq_iff t "thinking").0 e)
  | inr e ↦ inr ((eq_iff t "redacted_thinking").0 (ground (arith, e, h)))
]

pub is_plain-IsThoughtEntry : (o : Option Json) → is_plain o ≡ true → ¬ IsThoughtEntry o
is_plain-IsThoughtEntry o h (inl e) = false≢true (sym (ap is_plain e) ∙ h)
is_plain-IsThoughtEntry o h (inr e) = false≢true (sym (ap is_plain e) ∙ h)

some_type : (t : String) → IsThoughtType t → IsThoughtEntry (some (str t))
some_type t (inl e) = inl (ap (λ s. some (str s)) e)
some_type t (inr e) = inr (ap (λ s. some (str s)) e)

pub is_plain-false : (o : Option Json) → is_plain o ≡ false → IsThoughtEntry o
is_plain-false none h = absurd (ground arith)
is_plain-false (some (str t)) h = some_type t (is_plain_type-false t h)
is_plain-false (some null) h = absurd (ground arith)
is_plain-false (some (bool b)) h = absurd (ground arith)
is_plain-false (some (int z)) h = absurd (ground arith)
is_plain-false (some (real s)) h = absurd (ground arith)
is_plain-false (some (arr vs)) h = absurd (ground arith)
is_plain-false (some (obj fs)) h = absurd (ground arith)

-- Of objects alone a test that agrees with `is_plain` keeps those that hold no thinking.
module _ (kept : Json → Bool) (other : (v : Json) → kept v ≡ false → (fs : Fields) × (v ≡ obj fs))
    (same : (fs : Fields) → kept (obj fs) ≡ is_plain (get "type" fs)) where
  pub kept-IsThought : (v : Json) → kept v ≡ true → ¬ IsThought v
  kept-IsThought v h (fs, e, t) =
      is_plain-IsThoughtEntry (get "type" fs) (sym (same fs) ∙ sym (ap kept e) ∙ h) t

  pub kept-false : (v : Json) → kept v ≡ false → IsThought v
  kept-false v h =
      let (fs, e) = other v h in
      (fs, e, is_plain-false (get "type" fs) (sym (same fs) ∙ sym (ap kept e) ∙ h))
