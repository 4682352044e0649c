-- ===== src/Tests/Bodies.antt =====
-- Request bodies, backends and configurations.
use lazy_vllm.Prelude.{
  ℕ, ◌≤◌, ◌≡◌, ◌≢◌, refl, String, false, Option, none, some, List, [], ◌∷◌, arith, str_eq,
  if◌then◌else◌,
}
use lazy_vllm.Json.{
  ℤ, str, int, pos, arr, obj, Fields, field, end, Items, Body, doc, malformed, get,
}
use lazy_vllm.Config.{Backend, Config, load_config, env_or, env_int_or}
use lazy_vllm.Config.Load.{NoneLocal, load_config_sound}
use lazy_vllm.Server.{
  AsAny, any_fields, ◌>>=◌, ok, extract_model, thinking_kwargs, inject_disable_thinking,
  compute_thinking_budget, effort_token_budget, extract_effort, extract_max_tokens,
}
use lazy_vllm.Server.Inject.{inject_disable_thinking_sound, extract_model-flash}
use lazy_vllm.Json.{Map, map_of}
use lazy_vllm.Obs.Inject.{remind_anthropic_all, remind_openai_all}
use lazy_vllm.Obs.Inject.Roles.{
  AgreeButContent, remind_anthropic_all_sound, remind_openai_all_sound,
}
use lazy_vllm.Prelude.{false}
use lazy_vllm.Server.Budget.{compute_thinking_budget_bounds}

-- {"model": "qwen-FLASH", "max_tokens": 100}
abbrev flash_fields : Fields
flash_fields = field "model" (str "qwen-FLASH") (field "max_tokens" (int (pos 100)) end)

-- A conversion under which every number is 50, in place of the one to a float.
abbrev fifty : AsAny
fifty (int z) = some (int (pos 50))
fifty v = some v

abbrev read_fields : Fields
read_fields = field "model" (str "qwen-FLASH") (field "max_tokens" (int (pos 50)) end)

inject_disable_thinking_sound_example :
    (gs : Fields) × (inject_disable_thinking fifty (doc (obj flash_fields)) ≡ ok (doc (obj gs)))
    × (get "model" gs ≡ some (str "qwen"))
    × (get "chat_template_kwargs" gs ≡ some (thinking_kwargs false))
    × ((k : String)
        → k ≢ "model"
        → k ≢ "chat_template_kwargs"
        → get k gs ≡ (get k flash_fields >>= fifty))
unfolding get any_fields
inject_disable_thinking_sound_example =
    inject_disable_thinking_sound fifty "qwen" flash_fields read_fields refl refl

extract_model-flash_example :
    (gs : Fields) × (extract_model fifty (doc (obj flash_fields)) ≡ ("qwen-FLASH", doc (obj gs)))
    × (get "model" gs ≡ some (str "qwen"))
    × ((k : String) → k ≢ "model" → get k gs ≡ (get k flash_fields >>= fifty))
unfolding get any_fields
extract_model-flash_example = extract_model-flash fifty "qwen" flash_fields read_fields refl refl

abbrev backend : String → String → Backend
backend name url = record {
  name = name;
  url = url;
  count_tokens = false;
  inject_obs_instructions = false;
  inject_thinking_budget = false;
}

abbrev small : Backend
small = backend "small" "http://a"

abbrev others : List Backend
others = backend "large" "http://b" ∷ backend "large" "http://a" ∷ []

abbrev asked : Body
asked = doc (obj (field "reasoning_effort" (str "low") (field "max_tokens" (int (pos 100)) end)))

-- The whole of the tokens may be thinking.
abbrev all_of : ℕ → ℕ
all_of n = n

all_of_le : (n : ℕ) → all_of n ≤ n
all_of_le n = omega arith

compute_thinking_budget_bounds_example :
    let r = compute_thinking_budget all_of asked in
    let effort = effort_token_budget (extract_effort asked) in
    (r.1 ≡ effort.1)
    × (r.0 ≤ effort.0)
    × (r.0 ≤ all_of (extract_max_tokens asked 32000))
    × (r.0 ≤ extract_max_tokens asked 32000)
compute_thinking_budget_bounds_example = compute_thinking_budget_bounds all_of asked all_of_le

-- BACKENDS_MAP is [] and PROVIDERS_MAP is [{"name": "cloud"}].
abbrev env : String → String
env k = if str_eq k "BACKENDS_MAP" then "[]" else if str_eq k "PROVIDERS_MAP" then "[{}]" else ""

abbrev parse : String → Body
parse s =
    if str_eq s "[]"
    then doc (arr Items.nil)
    else if str_eq s "[{}]"
    then doc (arr (Items.cons (obj (field "name" (str "cloud") end)) Items.nil))
    else malformed s

abbrev atoi : String → Option ℤ
atoi s = none

abbrev config : Config
config = record {
  backends = [];
  providers =
      record { name = "cloud"; url = ""; count_tokens = false; inject_obs_instructions = false }
      ∷ [];
  routing_rules = [];
  port = pos 8002;
  log_dir = "";
  memory_ingest_url = "";
}

load_config_sound_example : (env "BACKENDS_MAP" ≢ "") × NoneLocal config.providers
unfolding load_config env_or env_int_or get
load_config_sound_example = load_config_sound env atoi parse config refl

-- A question and an answer.
abbrev turns : List Map
turns =
    map_of (field "role" (str "user") (field "content" (str "Why?") end))
    ∷ map_of (field "role" (str "assistant") (field "content" (str "So.") end))
    ∷ []

remind_anthropic_all_sound_example :
    AgreeButContent turns (remind_anthropic_all "!" turns).0
    × ((remind_anthropic_all "!" turns).1 ≡ false → (remind_anthropic_all "!" turns).0 ≡ turns)
remind_anthropic_all_sound_example = remind_anthropic_all_sound "!" turns

remind_openai_all_sound_example :
    AgreeButContent turns (remind_openai_all "!" turns).0
    × ((remind_openai_all "!" turns).1 ≡ false → (remind_openai_all "!" turns).0 ≡ turns)
remind_openai_all_sound_example = remind_openai_all_sound "!" turns
