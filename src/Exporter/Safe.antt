-- ===== src/Exporter/Safe.antt =====
-- coretemp-exporter/main.go: a scrape reads no array beyond its end.
use mathlib.Core.Path.{subst}
use lazy_vllm.Prelude.{
  ℕ, zero, suc, String, ◌+◌, ◌≤◌, ◌<◌, ◌≡◌, refl, ap, Bool, true, false, Option, none, some, List,
  [], ◌∷◌, ◌++◌, length, leb, inl, inr, Bool-cases, if◌then◌else◌, ◌==◌, drop, arith,
}
use lazy_vllm.Json.Structs.{◌>>=◌}
use lazy_vllm.Exporter.{
  Bytes, CoreTempData, map_view, words, read_data, Mapping, plausible, is_plausible, read_mapping,
  or_next, read_shared_memory,
}
use lazy_vllm.Exporter.Samples.{
  Floats, cstr, at, celsius, Samples, Sample, ◌⊕◌, core_index, core_samples, all_cores, reading,
  if_supported, one_package, packages, package_count, general, samples_of, collect,
}

-- An option that has a value.
abbrev Some {ℓ} : {A : Type ℓ} → Option A → Type ℓ
Some {A = A} o = (a : A) × (o ≡ some a)

-- The arrays are as long as they are declared.
abbrev Shaped : CoreTempData → Type 0
Shaped d =
    (length d.load ≡ 256)
    × (length d.tj_max ≡ 128)
    × (length d.temp ≡ 256)
    × (length d.tdp ≡ 128)
    × (length d.power ≡ 128)

length-words : (n : ℕ) (s : Bytes) → length (words n s) ≡ n
length-words zero s = refl
length-words (suc n) s = ap suc (length-words n (drop 4 s))

read_data-Shaped : (s : Bytes) → Shaped (read_data s)
unfolding read_data
read_data-Shaped s = (
  length-words 256 s,
  length-words 128 (drop 1024 s),
  length-words 256 (drop 1544 s),
  length-words 128 (drop 2692 s),
  length-words 128 (drop 3204 s),
)

at-Some : (i : ℕ) (xs : List ℕ) → i < length xs → Some (at i xs)
at-Some i [] h = absurd (omega arith)
at-Some zero (x ∷ xs) h = (x, refl)
at-Some (suc i) (x ∷ xs) h = at-Some i xs (omega arith)

bind-Some {ℓ κ} :
    {A : Type ℓ} {B : Type κ} (o : Option A) (k : A → Option B)
    → Some o
    → ((a : A) → Some (k a))
    → Some (o >>= k)
bind-Some o k (a, e) h = rw e (h a)

if-Some {ℓ} : {A : Type ℓ} (b : Bool) (x y : Option A) → Some x → Some y → Some (if b then x else y)
if-Some true x y s t = s
if-Some false x y s t = t

module _ (f : Floats) where
  append-Some : (a b : Samples f) → Some a → Some b → Some (a ⊕ b)
  append-Some a b (x, e) (y, g) = rw (e, g) (x ++ y, refl)

  celsius-Some :
      (d : CoreTempData) (idx cpu : ℕ)
      → Shaped d
      → idx < 256
      → cpu < 128
      → Some (celsius f d idx cpu)
  unfolding celsius
  celsius-Some d idx cpu (l, j, t, p, w) h c =
      bind-Some (at idx d.temp) _ (at-Some idx d.temp (omega (arith, t))) λ v.
        bind-Some _ _
          (if-Some (d.delta_to_tj_max == 0) _ _ (_, refl)
            (bind-Some (at cpu d.tj_max) _ (at-Some cpu d.tj_max (omega (arith, j)))
              λ k. (_, refl)))
          λ actual. (_, refl)

  core_samples-Some :
      (d : CoreTempData) (cpu core : ℕ) → Shaped d → cpu < 128 → Some (core_samples f d cpu core)
  unfolding core_samples
  core_samples-Some d cpu core s c = elim (Bool-cases (leb 256 (core_index d cpu core))) [
    | inl b ↦ rw b ([], refl)
    | inr b ↦
        (let h : core_index d cpu core < 256 = ground arith in
          rw b (
            bind-Some (celsius f d (core_index d cpu core) cpu) _
              (celsius-Some d (core_index d cpu core) cpu s h c)
              λ t.
                bind-Some (at (core_index d cpu core) d.load) _
                  (at-Some (core_index d cpu core) d.load (omega (arith, s.0))) λ l. (_, refl)))
  ]

  all_cores-Some :
      (d : CoreTempData) (cpu n core : ℕ) → Shaped d → cpu < 128 → Some (all_cores f d cpu n core)
  unfolding all_cores
  all_cores-Some d cpu zero core s c = ([], refl)
  all_cores-Some d cpu (suc n) core s c =
      append-Some (core_samples f d cpu core) (all_cores f d cpu n (suc core))
        (core_samples-Some d cpu core s c) (all_cores-Some d cpu n (suc core) s c)

  reading-Some :
      (conv : ℕ → f.Float) (desc : String) (cpu : ℕ) (xs : List ℕ)
      → length xs ≡ 128
      → cpu < 128
      → Some (reading f conv desc cpu xs)
  reading-Some conv desc cpu xs h c =
      bind-Some (at cpu xs) _ (at-Some cpu xs (omega (arith, h))) λ x. (_, refl)

  if_supported-Some : (b : Bool) (a : Samples f) → Some a → Some (if_supported f b a)
  if_supported-Some true a s = s
  if_supported-Some false a s = ([], refl)

  one_package-Some :
      (d : CoreTempData) (cpu : ℕ) → Shaped d → cpu < 128 → Some (one_package f d cpu)
  unfolding one_package
  one_package-Some d cpu s c =
      let (l, j, t, p, w) = s in
      append-Some _ _
        (append-Some _ _
          (append-Some _ _ (reading-Some f.of_word _ cpu d.tj_max j c)
            (if_supported-Some _ _ (reading-Some f.of_bits _ cpu d.power w c)))
          (if_supported-Some _ _ (reading-Some f.of_word _ cpu d.tdp p c)))
        (all_cores-Some d cpu d.core_cnt 0 s c)

  packages-Some :
      (d : CoreTempData) (n cpu : ℕ) → Shaped d → cpu + n ≤ 128 → Some (packages f d n cpu)
  unfolding packages
  packages-Some d zero cpu s h = ([], refl)
  packages-Some d (suc n) cpu s h =
      append-Some (one_package f d cpu) (packages f d n (suc cpu))
        (one_package-Some d cpu s (omega arith)) (packages-Some d n (suc cpu) s (omega arith))

  package_count-le : (d : CoreTempData) → Shaped d → package_count d ≤ 128
  package_count-le d (l, j, t, p, w) = ground (arith, j)

  general-Some : (d : CoreTempData) → f.is_label (cstr d.cpu_name) ≡ true → Some (general f d)
  general-Some d l = rw l (_, refl)

  samples_of-Some :
      (o : Option CoreTempData)
      → ((d : CoreTempData) → o ≡ some d → Shaped d)
      → ((d : CoreTempData) → o ≡ some d → f.is_label (cstr d.cpu_name) ≡ true)
      → Some (samples_of f o)
  samples_of-Some none h l = (_, refl)
  samples_of-Some (some d) h l =
      let s = h d refl in
      append-Some (general f d) (packages f d (package_count d) 0) (general-Some d (l d refl))
        (packages-Some d (package_count d) 0 s (let le = package_count-le d s in omega (arith, le)))

plausible-Shaped :
    (b : Option Bytes) (d : CoreTempData)
    → plausible (do s ← b; some (read_data s)) ≡ some d
    → Shaped d
plausible-Shaped none d h = cc
plausible-Shaped (some s) d h = elim (Bool-cases (is_plausible (read_data s))) [
  | inl t ↦ (let e : read_data s ≡ d = ground (arith, h, t) in subst Shaped e (read_data-Shaped s))
  | inr t ↦ absurd (ground (arith, h, t))
]

read_mapping-Shaped :
    (m : Option (ℕ → Option Bytes)) (d : CoreTempData) → read_mapping m ≡ some d → Shaped d
read_mapping-Shaped none d h = cc
read_mapping-Shaped (some view) d h = plausible-Shaped (map_view view) d h

or_next-Shaped :
    (a b : Option CoreTempData) (d : CoreTempData)
    → ((e : CoreTempData) → a ≡ some e → Shaped e)
    → ((e : CoreTempData) → b ≡ some e → Shaped e)
    → or_next a b ≡ some d
    → Shaped d
or_next-Shaped none b d ha hb h = hb d h
or_next-Shaped (some e) b d ha hb h = ha d h

-- If the name of the processor in what is read of the shared memory is taken as a label, then a
-- scrape gives samples, whatever else the memory holds: it reads no array beyond its end.
pub collect_total :
    (f : Floats) (memory : Mapping)
    → ((d : CoreTempData)
        → read_shared_memory memory ≡ some d
        → f.is_label (cstr d.cpu_name) ≡ true)
    → (s : List (Sample f)) × (collect f memory ≡ some s)
unfolding collect read_shared_memory
collect_total f memory named =
    samples_of-Some f (read_shared_memory memory)
      (λ d.
        or_next-Shaped _ _ d (read_mapping-Shaped (memory "CoreTempMappingObjectEx"))
          (read_mapping-Shaped (memory "CoreTempMappingObject")))
      named
