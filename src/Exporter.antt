-- ===== src/Exporter.antt =====
-- coretemp-exporter/main.go: the shared memory that the exporter of temperatures reads, which is
-- given by `Mapping`.
pub mod Samples
pub mod Safe
use lazy_vllm.Prelude.{
  ℕ, zero, suc, ◌+◌, ◌*◌, ◌%◌, ◌^◌, ◌-◌, String, Bool, true, false, not, ◌&&◌, ◌||◌, Option, none,
  some, List, [], ◌∷◌, ◌++◌, take, drop, length, leb, ltb, if◌then◌else◌, ◌==◌,
}
use lazy_vllm.Json.Structs.{◌>>=◌}

abbrev pub Bytes : Type 0
Bytes = List ℕ

-- `CORE_TEMP_SHARED_DATA_EX`; a float32 is kept by its bits.
pub record CoreTempData : Type 0 where
  pub load : List ℕ
  pub tj_max : List ℕ
  pub core_cnt : ℕ
  pub cpu_cnt : ℕ
  pub temp : List ℕ
  pub vid : ℕ
  pub cpu_speed : ℕ
  pub fsb_speed : ℕ
  pub multiplier : ℕ
  pub cpu_name : Bytes
  pub fahrenheit : ℕ
  pub delta_to_tj_max : ℕ
  pub tdp_supported : ℕ
  pub power_supported : ℕ
  pub struct_version : ℕ
  pub tdp : List ℕ
  pub power : List ℕ
  pub multipliers : List ℕ

abbrev pub ex_size : ℕ
ex_size = 4740

abbrev pub base_size : ℕ
base_size = 2686

-- Little-endian words.
abbrev pub word : Bytes → ℕ
word (a ∷ b ∷ c ∷ d ∷ _) = a + 256 * b + 65536 * c + 16777216 * d
word _ = 0

abbrev pub words : ℕ → Bytes → List ℕ
words zero s = []
words (suc n) s = word s ∷ words n (drop 4 s)

abbrev byte : Bytes → ℕ
byte [] = 0
byte (b ∷ _) = b

-- `binary.Read` of the fields, one behind the other.
unfoldable pub read_data : Bytes → CoreTempData
read_data s = record {
  load = words 256 s;
  tj_max = words 128 (drop 1024 s);
  core_cnt = word (drop 1536 s);
  cpu_cnt = word (drop 1540 s);
  temp = words 256 (drop 1544 s);
  vid = word (drop 2568 s);
  cpu_speed = word (drop 2572 s);
  fsb_speed = word (drop 2576 s);
  multiplier = word (drop 2580 s);
  cpu_name = take 100 (drop 2584 s);
  fahrenheit = byte (drop 2684 s);
  delta_to_tj_max = byte (drop 2685 s);
  tdp_supported = byte (drop 2686 s);
  power_supported = byte (drop 2687 s);
  struct_version = word (drop 2688 s);
  tdp = words 128 (drop 2692 s);
  power = words 128 (drop 3204 s);
  multipliers = words 256 (drop 3716 s);
}

-- A mapping that can be opened gives a view for each size that it can be mapped with.
abbrev pub Mapping : Type 0
Mapping = String → Option (ℕ → Option Bytes)

abbrev pub zeros : ℕ → Bytes
zeros zero = []
zeros (suc n) = 0 ∷ zeros n

-- The copy of a view of `mapped` bytes in a buffer of zeros.
abbrev pub copied : ℕ → Bytes → Bytes
copied mapped view = let p = take mapped view in p ++ zeros (ex_size - length p)

abbrev mapped_base : Option Bytes → Option Bytes
mapped_base none = none
mapped_base (some view) = some (copied base_size view)

abbrev mapped_first : Option Bytes → Option Bytes → Option Bytes
mapped_first none base = mapped_base base
mapped_first (some view) base = some (copied ex_size view)

-- The sizes are tried in order.
abbrev pub map_view : (ℕ → Option Bytes) → Option Bytes
map_view view = mapped_first (view ex_size) (view base_size)

abbrev pub is_plausible : CoreTempData → Bool
is_plausible d = not (d.core_cnt == 0) && not (ltb 256 d.core_cnt)

abbrev pub plausible : Option CoreTempData → Option CoreTempData
plausible none = none
plausible (some d) = if is_plausible d then some d else none

abbrev pub read_mapping : Option (ℕ → Option Bytes) → Option CoreTempData
read_mapping none = none
read_mapping (some view) = plausible (do buf ← map_view view; some (read_data buf))

abbrev pub or_next : Option CoreTempData → Option CoreTempData → Option CoreTempData
or_next none next = next
or_next (some d) next = some d

-- `readSharedMemory`: nothing is an error.
unfoldable pub read_shared_memory : Mapping → Option CoreTempData
read_shared_memory memory =
    or_next (read_mapping (memory "CoreTempMappingObjectEx"))
      (read_mapping (memory "CoreTempMappingObject"))
