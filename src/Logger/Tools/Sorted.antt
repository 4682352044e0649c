-- ===== src/Logger/Tools/Sorted.antt =====
-- proxy/internal/logger/parse.go: the tool calls of a stream, put in the order of their indexes.
use lazy_vllm.Prelude.{
  ◌≡◌, refl, sym, ap, ◌∙◌, String, true, false, Option, none, some, [], ◌∷◌, inl, inr, Bool-cases,
  if◌then◌else◌, arith,
}
use lazy_vllm.Json.{ℤ, pos, negsuc}
use lazy_vllm.Logger.{ToolCall}
use lazy_vllm.Logger.Tools.{int_le, int_same, Tools, extend, accumulate, insert, sort_tools}

-- `m[i]` with its `ok`.
abbrev pub find : ℤ → Tools → Option ToolCall
find i [] = none
find i ((j, c) ∷ m) = if int_same j i then some c else find i m

abbrev Lt : ℤ → ℤ → Type 0
Lt i j = int_le j i ≡ false

abbrev Apart : ℤ → Tools → Type 0
Apart i [] = Unit
Apart i ((j, _) ∷ m) = (int_same j i ≡ false) × Apart i m

abbrev pub Distinct : Tools → Type 0
Distinct [] = Unit
Distinct ((i, _) ∷ m) = Apart i m × Distinct m

abbrev Above : ℤ → Tools → Type 0
Above i [] = Unit
Above i ((j, _) ∷ m) = Lt i j × Above i m

-- Each index is greater than those before it.
abbrev pub Increasing : Tools → Type 0
Increasing [] = Unit
Increasing ((i, _) ∷ m) = Above i m × Increasing m

pub int_same_self : (i : ℤ) → int_same i i ≡ true
int_same_self (pos m) = ground arith
int_same_self (negsuc m) = ground arith

pub eq_of_int_same : (i j : ℤ) → int_same i j ≡ true → i ≡ j
eq_of_int_same (pos m) (pos n) h = let e : m ≡ n = ground arith in ap pos e
eq_of_int_same (negsuc m) (negsuc n) h = let e : m ≡ n = ground arith in ap negsuc e
eq_of_int_same (pos m) (negsuc n) h = cc
eq_of_int_same (negsuc m) (pos n) h = cc

pub int_same_comm : (i j : ℤ) → int_same i j ≡ int_same j i
int_same_comm (pos m) (pos n) = ground arith
int_same_comm (negsuc m) (negsuc n) = ground arith
int_same_comm (pos m) (negsuc n) = refl
int_same_comm (negsuc m) (pos n) = refl

lt_of_le : (i j : ℤ) → int_le i j ≡ true → int_same j i ≡ false → Lt i j
lt_of_le (pos m) (pos n) h d = ground arith
lt_of_le (negsuc m) (negsuc n) h d = ground arith
lt_of_le (pos m) (negsuc n) h d = cc
lt_of_le (negsuc m) (pos n) h d = refl

lt_trans : (i j k : ℤ) → Lt i j → Lt j k → Lt i k
lt_trans (pos a) (pos b) (pos c) h g = ground arith
lt_trans (negsuc a) (negsuc b) (negsuc c) h g = ground arith
lt_trans (negsuc a) j (pos c) h g = refl
lt_trans (pos a) (pos b) (negsuc c) h g = cc
lt_trans (pos a) (negsuc b) k h g = cc
lt_trans (negsuc a) (pos b) (negsuc c) h g = cc

Above-trans : (i j : ℤ) (m : Tools) → Lt i j → Above j m → Above i m
Above-trans i j [] h a = tt
Above-trans i j ((k, _) ∷ m) h (a, rest) = (lt_trans i j k h a, Above-trans i j m h rest)

insert-Above :
    (i : ℤ) (e : ℤ × ToolCall) (m : Tools) → Lt i (e.0) → Above i m → Above i (insert e m)
insert-Above i e [] h a = (h, tt)
insert-Above i e (f ∷ m) h (a, rest) = elim (Bool-cases (int_le (e.0) (f.0))) [
  | inl t ↦ rw t (h, (a, rest))
  | inr t ↦ rw t (a, insert-Above i e m h rest)
]

insert-Apart :
    (i : ℤ) (e : ℤ × ToolCall) (m : Tools)
    → int_same (e.0) i ≡ false
    → Apart i m
    → Apart i (insert e m)
insert-Apart i e [] h a = (h, tt)
insert-Apart i e (f ∷ m) h (a, rest) = elim (Bool-cases (int_le (e.0) (f.0))) [
  | inl t ↦ rw t (h, (a, rest))
  | inr t ↦ rw t (a, insert-Apart i e m h rest)
]

insert-Increasing :
    (e : ℤ × ToolCall) (m : Tools) → Apart (e.0) m → Increasing m → Increasing (insert e m)
insert-Increasing e [] h a = (tt, tt)
insert-Increasing e (f ∷ m) (h, hs) (a, rest) = elim (Bool-cases (int_le (e.0) (f.0))) [
  | inl t ↦
      (let l = lt_of_le (e.0) (f.0) t h in rw t ((l, Above-trans (e.0) (f.0) m l a), (a, rest)))
  | inr t ↦ rw t (insert-Above (f.0) e m t a, insert-Increasing e m hs rest)
]

find-insert :
    (i : ℤ) (e : ℤ × ToolCall) (m : Tools) → Apart (e.0) m → find i (insert e m) ≡ find i (e ∷ m)
find-insert i e [] h = refl
find-insert i e (f ∷ m) (h, hs) = elim (Bool-cases (int_le (e.0) (f.0))) [
  | inl t ↦ rw t refl
  | inr t ↦ elim (Bool-cases (int_same (f.0) i)) [
    | inl g ↦
        (let q = ap (λ k. int_same k (e.0)) (eq_of_int_same (f.0) i g) in
          let o = int_same_comm (e.0) i ∙ (sym q ∙ h) in rw (t, g, o) refl)
    | inr g ↦ rw (t, g) (find-insert i e m hs)
  ]
]

sort_tools-Apart : (i : ℤ) (m : Tools) → Apart i m → Apart i (sort_tools m)
unfolding sort_tools
sort_tools-Apart i [] h = tt
sort_tools-Apart i (e ∷ m) (h, hs) = insert-Apart i e (sort_tools m) h (sort_tools-Apart i m hs)

-- Entries of different indexes come out in increasing order, and each is found as before.
pub sort_tools-Increasing :
    (m : Tools)
    → Distinct m
    → Increasing (sort_tools m) × ((i : ℤ) → find i (sort_tools m) ≡ find i m)
unfolding sort_tools
sort_tools-Increasing [] h = (tt, λ i. refl)
sort_tools-Increasing (e ∷ m) (h, hs) =
    let (inc, same) = sort_tools-Increasing m hs in
    let apart = sort_tools-Apart (e.0) m h in
    (
      insert-Increasing e (sort_tools m) apart inc,
      λ i.
          find-insert i e (sort_tools m) apart
          ∙ ap (λ r. if int_same (e.0) i then some (e.1) else r) (same i),
    )

accumulate-Apart :
    (i j : ℤ) (c : ToolCall) (s : String) (m : Tools)
    → int_same j i ≡ false
    → Apart i m
    → Apart i (accumulate j c s m)
unfolding accumulate
accumulate-Apart i j c s [] h a = (h, tt)
accumulate-Apart i j c s ((k, d) ∷ m) h (a, rest) = elim (Bool-cases (int_same k j)) [
  | inl t ↦ rw t (a, rest)
  | inr t ↦ rw t (a, accumulate-Apart i j c s m h rest)
]

pub accumulate-Distinct :
    (j : ℤ) (c : ToolCall) (s : String) (m : Tools) → Distinct m → Distinct (accumulate j c s m)
unfolding accumulate
accumulate-Distinct j c s [] h = (tt, tt)
accumulate-Distinct j c s ((k, d) ∷ m) (a, rest) = elim (Bool-cases (int_same k j)) [
  | inl t ↦ rw t (a, rest)
  | inr t ↦
      rw t (accumulate-Apart k j c s m (int_same_comm j k ∙ t) a, accumulate-Distinct j c s m rest)
]

abbrev pub or_else : ToolCall → Option ToolCall → ToolCall
or_else c none = c
or_else c (some d) = d

pub find-accumulate :
    (i j : ℤ) (c : ToolCall) (s : String) (m : Tools)
    → find i (accumulate j c s m)
      ≡ (if int_same j i then some (extend s (or_else c (find i m))) else find i m)
unfolding accumulate
find-accumulate i j c s [] = refl
find-accumulate i j c s ((k, d) ∷ m) = elim (Bool-cases (int_same k j)) [
  | inl t ↦
      (let e = eq_of_int_same k j t in
        elim (Bool-cases (int_same j i)) [
          | inl g ↦ (let o = ap (λ z. int_same z i) e ∙ g in rw (t, o, g) refl)
          | inr g ↦ (let o = ap (λ z. int_same z i) e ∙ g in rw (t, o, g) refl)
        ])
  | inr t ↦ elim (Bool-cases (int_same k i)) [
    | inl g ↦
        (let e = eq_of_int_same k i g in
          let o = int_same_comm j i ∙ (ap (λ z. int_same z j) (sym e) ∙ t) in rw (t, g, o) refl)
    | inr g ↦ rw (t, g) (find-accumulate i j c s m)
  ]
]
