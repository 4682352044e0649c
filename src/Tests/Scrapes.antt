-- ===== src/Tests/Scrapes.antt =====
-- A scrape of a host whose processor has one core.
use lazy_vllm.Prelude.{ℕ, ◌≡◌, refl, true, some, List, [], ◌∷◌, ◌++◌}
use lazy_vllm.Exporter.{Mapping, zeros}
use lazy_vllm.Exporter.Samples.{Floats, Sample, collect}
use lazy_vllm.Exporter.Safe.{collect_total}

-- Numbers in place of floating point.
abbrev floats : Floats
floats = record {
  Float = ℕ;
  of_word = λ n. n;
  of_bits = λ n. n;
  subtract = λ a b. a;
  to_celsius = λ a. a;
  percent = λ a. a;
  is_label = λ bs. true;
}

abbrev memory : Mapping
memory name = some (λ n. some (zeros 1536 ++ 1 ∷ []))

collect_total_example : (s : List (Sample floats)) × (collect floats memory ≡ some s)
collect_total_example = collect_total floats memory (λ d h. refl)
