-- ===== src/Exporter/Samples.antt =====
-- coretemp-exporter/main.go: the samples of a scrape. Go's floating point is given by `Floats`,
-- with the texts that client_golang takes as the value of a label, those that are UTF-8; a reading
-- beyond the end of an array is a panic, `none`, and so is any other label.
use lazy_vllm.Prelude.{
  ℕ, zero, suc, ◌+◌, ◌*◌, ◌%◌, ◌^◌, String, Bool, true, false, not, ◌&&◌, Option, none, some, List,
  [], ◌∷◌, ◌++◌, length, leb, ltb, if◌then◌else◌, ◌==◌,
}
use lazy_vllm.Json.Structs.{◌>>=◌}
use lazy_vllm.Exporter.{Bytes, CoreTempData, Mapping, read_shared_memory}

pub record Floats : Type 1 where
  pub Float : Type 0
  pub of_word : ℕ → Float
  pub of_bits : ℕ → Float
  pub subtract : Float → Float → Float
  pub to_celsius : Float → Float
  pub percent : Float → Float
  pub is_label : Bytes → Bool

-- `d.Temp[i]`.
abbrev pub at : ℕ → List ℕ → Option ℕ
at i [] = none
at zero (x ∷ xs) = some x
at (suc i) (x ∷ xs) = at i xs

-- `cstr`: the bytes in front of the first zero.
unfoldable pub cstr : Bytes → Bytes
cstr [] = []
cstr (b ∷ bs) = let rest = cstr bs in if b == 0 then [] else b ∷ rest

pub data Label : Type 0 where
  number : ℕ → Label
  text : Bytes → Label

infixl 6 ◌⊕◌
-- One behind the other, unless there is a panic.
abbrev pub ◌⊕◌ {ℓ} : {A : Type ℓ} → Option (List A) → Option (List A) → Option (List A)
none ⊕ b = none
some xs ⊕ none = none
some xs ⊕ some ys = some (xs ++ ys)

abbrev pub at_least_one : ℕ → ℕ
at_least_one n = if n == 0 then 1 else n

-- Fewer than the number of packages, and than the length of TjMax.
abbrev pub package_count : CoreTempData → ℕ
package_count d =
    let n = at_least_one d.cpu_cnt in if ltb n (length d.tj_max) then n else length d.tj_max

-- `cpu*d.CoreCnt + core`, in 32 bits.
abbrev pub core_index : CoreTempData → ℕ → ℕ → ℕ
core_index d cpu core = (cpu * d.core_cnt + core) % 2 ^ 32

module _ (f : Floats) where
  pub record Sample : Type 0 where
    pub desc : String
    pub value : f.Float
    pub labels : List Label

  abbrev in_celsius : ℕ → f.Float → f.Float
  in_celsius fahrenheit t = if fahrenheit == 0 then t else f.to_celsius t

  -- `celsius`.
  unfoldable pub celsius : CoreTempData → ℕ → ℕ → Option f.Float
  celsius d idx cpu = do
    t ← at idx d.temp
    actual ←
        (if d.delta_to_tj_max == 0
          then some (f.of_bits t)
          else (do j ← at cpu d.tj_max; some (f.subtract (f.of_word j) (f.of_bits t))))
    some (in_celsius d.fahrenheit actual)

  abbrev sample : String → f.Float → List Label → Sample
  sample desc v labels = record { desc = desc; value = v; labels = labels }

  abbrev pub Samples : Type 0
  Samples = Option (List Sample)

  unfoldable pub core_samples : CoreTempData → ℕ → ℕ → Samples
  core_samples d cpu core =
      let idx = core_index d cpu core in
      if leb 256 idx then some [] else (do
        t ← celsius d idx cpu
        l ← at idx d.load
        some (
            sample "coretemp_core_temperature_celsius" t (number cpu ∷ number core ∷ [])
            ∷ sample "coretemp_core_load_ratio" (f.percent (f.of_word l))
                (number cpu ∷ number core ∷ [])
            ∷ []))

  -- The cores of a package, `n` of them behind `core`.
  unfoldable pub all_cores : CoreTempData → ℕ → ℕ → ℕ → Samples
  all_cores d cpu zero core = some []
  all_cores d cpu (suc n) core = core_samples d cpu core ⊕ all_cores d cpu n (suc core)

  abbrev pub reading : (ℕ → f.Float) → String → ℕ → List ℕ → Samples
  reading conv desc cpu xs = do x ← at cpu xs; some (sample desc (conv x) (number cpu ∷ []) ∷ [])

  abbrev supported : CoreTempData → ℕ → Bool
  supported d flag = leb 2 d.struct_version && not (flag == 0)

  abbrev pub if_supported : Bool → Samples → Samples
  if_supported true s = s
  if_supported false s = some []

  unfoldable pub one_package : CoreTempData → ℕ → Samples
  one_package d cpu =
      reading f.of_word "coretemp_tjmax_celsius" cpu d.tj_max
      ⊕ if_supported (supported d d.power_supported)
          (reading f.of_bits "coretemp_power_watts" cpu d.power)
      ⊕ if_supported (supported d d.tdp_supported)
          (reading f.of_word "coretemp_tdp_watts" cpu d.tdp)
      ⊕ all_cores d cpu d.core_cnt 0

  unfoldable pub packages : CoreTempData → ℕ → ℕ → Samples
  packages d zero cpu = some []
  packages d (suc n) cpu = one_package d cpu ⊕ packages d n (suc cpu)

  -- `prometheus.MustNewConstMetric` with the processor's name as a label.
  abbrev pub named : CoreTempData → Samples
  named d =
      if f.is_label (cstr d.cpu_name)
      then some (sample "coretemp_cpu_info" (f.of_word 1) (text (cstr d.cpu_name) ∷ []) ∷ [])
      else none

  abbrev pub counted : CoreTempData → List Sample
  counted d =
      sample "coretemp_core_count" (f.of_word d.core_cnt) []
      ∷ sample "coretemp_cpu_count" (f.of_word d.cpu_cnt) []
      ∷ sample "coretemp_cpu_speed_mhz" (f.of_bits d.cpu_speed) []
      ∷ sample "coretemp_fsb_speed_mhz" (f.of_bits d.fsb_speed) []
      ∷ sample "coretemp_multiplier" (f.of_bits d.multiplier) []
      ∷ sample "coretemp_vid_volts" (f.of_bits d.vid) []
      ∷ []

  abbrev pub general : CoreTempData → Samples
  general d = some (sample "coretemp_up" (f.of_word 1) [] ∷ []) ⊕ named d ⊕ some (counted d)

  abbrev pub samples_of : Option CoreTempData → Samples
  samples_of none = some (sample "coretemp_up" (f.of_word 0) [] ∷ [])
  samples_of (some d) = general d ⊕ packages d (package_count d) 0

  -- `Collect`.
  unfoldable pub collect : Mapping → Samples
  collect memory = samples_of (read_shared_memory memory)
