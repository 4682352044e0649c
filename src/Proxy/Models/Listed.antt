-- ===== src/Proxy/Models/Listed.antt =====
-- proxy/internal/proxy/models.go: which models are listed.
use lazy_vllm.Prelude.{
  ℕ, zero, suc, ◌+◌, ◌≡◌, refl, sym, ap, ◌∙◌, String, Bool, true, false, Option, none, some, List,
  [], ◌∷◌, inl, inr, any, keep, Bool-cases, if◌then◌else◌, str_eq, eq_iff, arith,
}
use lazy_vllm.Proxy.Models.{Arrived, merge_models}

abbrev is_absent : Option String → Bool
is_absent none = true
is_absent (some _) = false

abbrev pub is_unnamed : Arrived → Bool
is_unnamed a = is_absent (a.0)

abbrev pub at_most_one : ℕ → ℕ
at_most_one zero = 0
at_most_one (suc n) = 1

zero_unless : (b : Bool) → ◌≡◌ {A = ℕ} 0 (if b then 0 else 0)
zero_unless true = refl
zero_unless false = refl

zero_add_if :
    (b : Bool) (n : ℕ)
    → 0 + (if b then 0 else at_most_one n) ≡ (if b then 0 else at_most_one (0 + n))
zero_add_if true n = refl
zero_add_if false n =
    let e : 0 + n ≡ n = omega arith in
    let f : 0 + at_most_one n ≡ at_most_one n = omega arith in f ∙ ap at_most_one (sym e)

skip_zero :
    (b : Bool) (n : ℕ) → (if b then 0 else at_most_one n) ≡ (if b then 0 else at_most_one (0 + n))
skip_zero true n = refl
skip_zero false n = let e : 0 + n ≡ n = omega arith in ap at_most_one (sym e)

one_add : (n : ℕ) → at_most_one (1 + n) ≡ 1
one_add n = let e : 1 + n ≡ suc n = omega arith in rw e refl

str_eq_self : (s : String) → str_eq s s ≡ true
str_eq_self s = (eq_iff s s).1 refl

str_eq_comm : (s t : String) → str_eq s t ≡ false → str_eq t s ≡ false
str_eq_comm s t h = ground (arith, eq_iff s t, eq_iff t s)

abbrev named : String → Option String → ℕ
named t none = 0
named t (some id) = if str_eq id t then 1 else 0

-- How many of the models have the id of these bytes.
abbrev pub occurs : String → List Arrived → ℕ
occurs t [] = 0
occurs t ((id, v) ∷ vs) = named t id + occurs t vs

-- The first model of each id is listed, and no other of that id.
merge_models-occurs :
    (t : String) (vs : List Arrived) (seen : List String)
    → occurs t (merge_models vs seen)
      ≡ (if any (str_eq t) seen then 0 else at_most_one (occurs t vs))
unfolding merge_models
merge_models-occurs t [] seen = zero_unless (any (str_eq t) seen)
merge_models-occurs t ((none, v) ∷ vs) seen =
    rw (merge_models-occurs t vs seen) (zero_add_if (any (str_eq t) seen) (occurs t vs))
merge_models-occurs t ((some id, v) ∷ vs) seen = elim (Bool-cases (str_eq id t)) [
  | inl g ↦
      (let q = (eq_iff id t).0 g in
        elim (Bool-cases (any (str_eq t) seen)) [
          | inl a ↦ rw (q, a, merge_models-occurs t vs seen, a) refl
          | inr a ↦
              rw (q, a, merge_models-occurs t vs (t ∷ seen), str_eq_self t)
                (sym (one_add (occurs t vs)))
        ])
  | inr g ↦ elim (Bool-cases (any (str_eq id) seen)) [
    | inl a ↦
        rw (a, g, merge_models-occurs t vs seen) (skip_zero (any (str_eq t) seen) (occurs t vs))
    | inr a ↦
        rw (a, g, merge_models-occurs t vs (id ∷ seen), str_eq_comm id t g)
          (zero_add_if (any (str_eq t) seen) (occurs t vs))
  ]
]

merge_models-unnamed :
    (vs : List Arrived) (seen : List String)
    → keep is_unnamed (merge_models vs seen) ≡ keep is_unnamed vs
unfolding merge_models
merge_models-unnamed [] seen = refl
merge_models-unnamed ((none, v) ∷ vs) seen = ap (λ r. (none, v) ∷ r) (merge_models-unnamed vs seen)
merge_models-unnamed ((some id, v) ∷ vs) seen = elim (Bool-cases (any (str_eq id) seen)) [
  | inl a ↦ rw a (merge_models-unnamed vs seen)
  | inr a ↦ rw a (merge_models-unnamed vs (id ∷ seen))
]

-- Of the models that arrive, the loop of `HandleModels` keeps one of each id that occurs, where ids
-- are compared by their bytes, and all those without an id as they come. The clones that are added
-- behind the loop do not count here.
pub merge_models_once :
    (vs : List Arrived)
    → ((t : String) → occurs t (merge_models vs []) ≡ at_most_one (occurs t vs))
      × (keep is_unnamed (merge_models vs []) ≡ keep is_unnamed vs)
merge_models_once vs = (λ t. merge_models-occurs t vs [], merge_models-unnamed vs [])
