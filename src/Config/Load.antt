-- ===== src/Config/Load.antt =====
-- What a configuration that loads guarantees.
use lazy_vllm.Prelude.{String, false, Option, List, [], ◌∷◌, ◌≡◌, ◌≢◌, All, arith, eq_iff}
use lazy_vllm.Json.{Body, ℤ}
use lazy_vllm.Config.{Provider, Config, loaded, names_local, load_config}

-- No provider has the reserved name.
abbrev pub NoneLocal : List Provider → Type 0
NoneLocal = All (λ p. p.name ≢ "local")

names_local-NoneLocal : (ps : List Provider) → names_local ps ≡ false → NoneLocal ps
names_local-NoneLocal [] h = tt
names_local-NoneLocal (p ∷ ps) h =
    (ground (arith, eq_iff p.name "local"), names_local-NoneLocal ps (ground arith))

module _ (env : String → String) (atoi : String → Option ℤ) (parse : String → Body) where
  -- A configuration that loads has BACKENDS_MAP set, and no provider called "local".
  pub load_config_sound :
      (c : Config)
      → load_config env atoi parse ≡ loaded c
      → (env "BACKENDS_MAP" ≢ "") × NoneLocal c.providers
  unfolding load_config
  load_config_sound c h = (
    ground (arith, eq_iff (env "BACKENDS_MAP") ""),
    names_local-NoneLocal c.providers (ground arith),
  )
