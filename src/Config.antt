-- ===== src/Config.antt =====
-- proxy/internal/config/config.go: the configuration, and its reading from the environment. The
-- environment is a function of names; `strconv.Atoi` is read through `atoi`.
pub mod Load
use lazy_vllm.Prelude.{
  String, Bool, true, false, Option, none, some, List, [], ◌∷◌, str_eq, ◌||◌, if◌then◌else◌,
}
use lazy_vllm.Json.{Json, Body, doc, malformed, ℤ, pos, Map, null_map, map_of, Fields, get}
use lazy_vllm.Json.{as_string, as_bool, as_int, as_maps, field_string}

pub record Backend : Type 0 where
  pub name : String
  pub url : String
  pub count_tokens : Bool
  pub inject_obs_instructions : Bool
  pub inject_thinking_budget : Bool

pub record Provider : Type 0 where
  pub name : String
  pub url : String
  pub count_tokens : Bool
  pub inject_obs_instructions : Bool

pub record RouteRule : Type 0 where
  pub source_model : String
  pub threshold : ℤ
  pub target_model : String

pub record Config : Type 0 where
  pub backends : List Backend
  pub providers : List Provider
  pub routing_rules : List RouteRule
  pub port : ℤ
  pub log_dir : String
  pub memory_ingest_url : String

-- The errors of `LoadConfig`.
pub data ConfigError : Type 0 where
  backends_required invalid_backends invalid_rules invalid_providers reserved_provider : ConfigError

pub data Loaded : Type 0 where
  loaded : Config → Loaded
  refused : ConfigError → Loaded

pub data LogLevel : Type 0 where
  debug info warn error : LogLevel

-- `ParseLogLevel`.
unfoldable pub parse_log_level : String → LogLevel
parse_log_level s =
    if str_eq s "DEBUG"
    then debug
    else if str_eq s "WARN" || str_eq s "WARNING"
    then warn
    else if str_eq s "ERROR"
    then error
    else info

-- A field of a struct that is decoded: absent and null leave the zero value.
abbrev pub field_bool : String → Fields → Option Bool
field_bool k fs = elim (get k fs) [ none ↦ some false | some v ↦ as_bool v ]

abbrev pub field_int : String → Fields → Option ℤ
field_int k fs = elim (get k fs) [ none ↦ some (pos 0) | some v ↦ as_int v ]

infixl 5 ◌>>=◌
abbrev pub ◌>>=◌ {ℓ κ} : {A : Type ℓ} {B : Type κ} → Option A → (A → Option B) → Option B
none >>= k = none
some a >>= k = k a

abbrev fields_of : Map → Fields
fields_of null_map = Fields.end
fields_of (map_of fs) = fs

abbrev pub decode_backend : Map → Option Backend
decode_backend m = do
  let fs = fields_of m
  name ← field_string "name" fs
  url ← field_string "url" fs
  count ← field_bool "count_tokens" fs
  obs ← field_bool "inject_obs_instructions" fs
  budget ← field_bool "inject_thinking_budget" fs
  some (record {
    name = name;
    url = url;
    count_tokens = count;
    inject_obs_instructions = obs;
    inject_thinking_budget = budget;
  })

abbrev pub decode_provider : Map → Option Provider
decode_provider m = do
  let fs = fields_of m
  name ← field_string "name" fs
  url ← field_string "url" fs
  count ← field_bool "count_tokens" fs
  obs ← field_bool "inject_obs_instructions" fs
  some (record { name = name; url = url; count_tokens = count; inject_obs_instructions = obs })

abbrev pub decode_rule : Map → Option RouteRule
decode_rule m = do
  let fs = fields_of m
  source ← field_string "source_model" fs
  threshold ← field_int "threshold" fs
  target ← field_string "target_model" fs
  some (record { source_model = source; threshold = threshold; target_model = target })

abbrev pub decode_each {ℓ} : {A : Type ℓ} → (Map → Option A) → List Map → Option (List A)
decode_each f [] = some []
decode_each f (m ∷ ms) = do a ← f m; as' ← decode_each f ms; some (a ∷ as')

abbrev pub decode_list {ℓ} : {A : Type ℓ} → (Map → Option A) → Body → Option (List A)
decode_list f (malformed _) = none
decode_list f (doc v) = as_maps v >>= decode_each f

abbrev pub names_local : List Provider → Bool
names_local [] = false
names_local (p ∷ ps) = str_eq p.name "local" || names_local ps

-- The process environment, with the JSON text of a variable decoded by `parse`.
module _ (env : String → String) (atoi : String → Option ℤ) (parse : String → Body) where
  unfoldable pub env_or : String → String → String
  env_or key fallback = if str_eq (env key) "" then fallback else env key

  unfoldable pub env_int_or : String → ℤ → ℤ
  env_int_or key fallback =
      if str_eq (env key) ""
      then fallback
      else elim (atoi (env key)) [ none ↦ fallback | some n ↦ n ]

  -- A list in an optional variable.
  abbrev optional_list {ℓ} : {A : Type ℓ} → (Map → Option A) → String → Option (List A)
  optional_list f raw = if str_eq raw "" then some [] else decode_list f (parse raw)

  abbrev finish : List Backend → List RouteRule → List Provider → Loaded
  finish backends rules providers =
      if names_local providers
      then refused reserved_provider
      else loaded (record {
        backends = backends;
        providers = providers;
        routing_rules = rules;
        port = env_int_or "PORT" (pos 8002);
        log_dir = env_or "LOG_DIR" "";
        memory_ingest_url = env_or "MEMORY_INGEST_URL" "";
      })

  unfoldable pub load_config : Loaded
  unfolding env_or env_int_or
  load_config =
      if str_eq (env_or "BACKENDS_MAP" "") ""
      then refused backends_required
      else (elim (decode_list decode_backend (parse (env_or "BACKENDS_MAP" ""))) [
        | none ↦ refused invalid_backends
        | some backends ↦ elim (optional_list decode_rule (env_or "ROUTING_RULES" "")) [
          | none ↦ refused invalid_rules
          | some rules ↦ elim (optional_list decode_provider (env_or "PROVIDERS_MAP" "")) [
            | none ↦ refused invalid_providers
            | some providers ↦ finish backends rules providers
          ]
        ]
      ])
