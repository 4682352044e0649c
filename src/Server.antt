-- ===== src/Server.antt =====
-- proxy/internal/proxy/server.go: which backend serves a model, and the changes of a request body.
-- A body is a decoded document or text that is not JSON. `AsAny` says what encoding/json writes of a
-- value that it has read into an `any`, where numbers become floats: nothing if one is too large.
pub mod Backends
pub mod Flash
pub mod Inject
pub mod Budget
pub mod Attribution
use Prim.Native.Char.{code}
use lazy_vllm.Prelude.{
  ℕ, ◌+◌, ◌-◌, String, ◌<>◌, Bool, true, false, ◌&&◌, ◌||◌, Option, none, some, List, [], ◌∷◌, ◌++◌,
  length, take, any, leb, ltb, ◌==◌, str_eq, if◌then◌else◌,
}
use lazy_vllm.Json.{
  Json, null, bool, int, str, obj, end, field, Fields, Body, doc, malformed, ℤ, pos, negsuc, Map,
  null_map, map_of, get, put, as_map, as_string, as_int, entry, asserted_string,
}
use lazy_vllm.Text.{has_suffix}
use lazy_vllm.Text.Chars.{Chars, chars, of_chars, char_eq}
use lazy_vllm.Config.{Backend, Provider}

-- What a function on bodies does: it returns, returns an error, or panics.
pub data Result {ℓ} (A : Type ℓ) : Type ℓ where
  ok : A → Result A
  failed : Result A
  panicked : Result A

-- `lookupProvider`.
unfoldable pub lookup_provider : List Provider → String → Option Provider
lookup_provider [] name = none
lookup_provider (p ∷ ps) name = if str_eq p.name name then some p else lookup_provider ps name

abbrev pub zero_backend : Backend
zero_backend = record {
  name = "";
  url = "";
  count_tokens = false;
  inject_obs_instructions = false;
  inject_thinking_budget = false;
}

-- The loop of `findBackend`.
unfoldable pub find_named : List Backend → String → Option Backend
find_named [] model = none
find_named (b ∷ bs) model = if str_eq b.name model then some b else find_named bs model

-- What follows that loop.
abbrev pub or_first : Option Backend → List Backend → Backend
or_first (some b) backends = b
or_first none (b ∷ _) = b
or_first none [] = zero_backend

unfoldable pub find_backend : List Backend → String → Backend
find_backend backends model = or_first (find_named backends model) backends

unfoldable pub resolve_backend : List Backend → String → String
unfolding find_backend
resolve_backend backends model = (find_backend backends model).url

-- `uniqueURLs`: the map `seen` holds the URLs that were appended.
unfoldable pub unique_urls_from : List String → List Backend → List String
unique_urls_from seen [] = []
unique_urls_from seen (r ∷ rs) =
    let skip = unique_urls_from seen rs in
    let take_it = unique_urls_from (r.url ∷ seen) rs in
    if any (λ u. str_eq u r.url) seen then skip else r.url ∷ take_it

unfoldable pub unique_urls : List Backend → List String
unfolding unique_urls_from
unique_urls backends = unique_urls_from [] backends

abbrev pub flash_suffix : String
flash_suffix = "-FLASH"

-- `isFlashModel`.
unfoldable pub is_flash_model : String → Bool
is_flash_model name = has_suffix (chars flash_suffix) (chars name)

-- `strings.CutSuffix(name, flashSuffix)`, and `stripFlash`.
unfoldable pub without_suffix : Chars → Chars → String
without_suffix suffix s = of_chars (take (length s - length suffix) s)

unfoldable pub cut_flash : String → Option String
cut_flash name =
    if is_flash_model name then some (without_suffix (chars flash_suffix) (chars name)) else none

unfoldable pub strip_flash : String → String
strip_flash name = elim (cut_flash name) [ none ↦ name | some before ↦ before ]

-- The decoded document as a map: `none` when `json.Unmarshal` fails.
abbrev pub body_map : Body → Option Map
body_map (malformed _) = none
body_map (doc v) = as_map v

abbrev pub put_in : String → Json → Map → Json
put_in k v null_map = obj (field k v end)
put_in k v (map_of fs) = obj (put k v fs)

infixl 5 ◌>>=◌
abbrev pub ◌>>=◌ {ℓ κ} : {A : Type ℓ} {B : Type κ} → Option A → (A → Option B) → Option B
none >>= k = none
some a >>= k = k a

abbrev pub AsAny : Type 0
AsAny = Json → Option Json

-- `json.Unmarshal` into a `map[string]any`, as `json.Marshal` writes the map that it gives.
unfoldable pub any_fields : AsAny → Fields → Option Fields
any_fields as_any end = some end
any_fields as_any (field k v fs) = do
  w ← as_any v
  rest ← any_fields as_any fs
  some (field k w rest)

abbrev any_map : AsAny → Map → Option Map
any_map as_any null_map = some null_map
any_map as_any (map_of fs) = do gs ← any_fields as_any fs; some (map_of gs)

-- `modelFromBody`.
unfoldable pub model_from_body : AsAny → Body → String
unfolding any_fields
model_from_body as_any body = elim (body_map body) [
  | none ↦ ""
  | some m ↦ elim (any_map as_any m) [
    | none ↦ ""
    | some read ↦ elim (asserted_string (entry "model" m)) [ none ↦ "" | some s ↦ s ]
  ]
]

-- `extractModel`. A model name was found, so the map is not nil where it is written.
unfoldable pub extract_model : AsAny → Body → String × Body
unfolding any_fields
extract_model as_any body = elim (body_map body) [
  | none ↦ ("", body)
  | some m ↦ elim (any_map as_any m) [
    | none ↦ ("", body)
    | some read ↦ elim (asserted_string (entry "model" m)) [
      | none ↦ ("", body)
      | some model ↦ if str_eq model "" then ("", body) else (elim (cut_flash model) [
        | none ↦ (model, body)
        | some before ↦ (model, doc (put_in "model" (str before) read))
      ])
    ]
  ]
]

abbrev pub thinking_kwargs : Bool → Json
thinking_kwargs b = obj (field "enable_thinking" (bool b) end)

-- The second half of `injectDisableThinking`: strip the suffix of the model, if there is one.
abbrev pub strip_model : Option String → Fields → Fields
strip_model none fs = fs
strip_model (some model) fs =
    if is_flash_model model then put "model" (str (strip_flash model)) fs else fs

abbrev pub without_thinking : Option String → Fields → Fields
without_thinking model fs =
    strip_model model (put "chat_template_kwargs" (thinking_kwargs false) fs)

unfoldable pub inject_disable_thinking : AsAny → Body → Result Body
unfolding any_fields
inject_disable_thinking as_any body = elim (body_map body) [
  | none ↦ ok body
  | some m ↦ elim (any_map as_any m) [
    | none ↦ ok body
    | some null_map ↦ panicked
    | some (map_of gs) ↦ ok (doc (obj (without_thinking (asserted_string (entry "model" m)) gs)))
  ]
]

-- The lower case of a letter as `strings.ToLower` has it, as far as it is an ASCII letter: besides
-- A to Z these come from U+0130 and the Kelvin sign.
abbrev lower : ℕ → ℕ
lower c =
    if leb b'A' c && leb c b'Z'
    then c + 32
    else if c == 0x130
    then b'i'
    else if c == 0x212a
    then b'k'
    else c

-- `strings.ToLower(s) == word`, for an ASCII word.
unfoldable pub lower_is : Chars → Chars → Bool
lower_is [] [] = true
lower_is (c ∷ s) (d ∷ w) = lower (code c) == code d && lower_is s w
lower_is _ _ = false

abbrev says : String → String → Bool
says effort word = lower_is (chars effort) (chars word)

-- `effortTokenBudget`: the tokens, and whether to disable thinking.
unfoldable pub effort_token_budget : String → ℕ × Bool
unfolding lower_is chars
effort_token_budget effort =
    if says effort "none"
    then (0, true)
    else if says effort "minimal"
    then (128, false)
    else if says effort "low"
    then (256, false)
    else if says effort "medium"
    then (1024, false)
    else if says effort "high"
    then (4096, false)
    else if says effort "xhigh"
    then (8192, false)
    else (32000, false)

-- `requestDisableThinking`.
unfoldable pub request_disable_thinking : Body → Bool
request_disable_thinking body =
    elim (do
      m ← body_map body
      raw ← entry "thinking" m
      t ← as_map raw
      v ← entry "type" t
      as_string v) [ none ↦ false | some t ↦ str_eq t "disabled" ]

abbrev effort_of_config : Map → Option String
effort_of_config m = do
  raw ← entry "output_config" m
  cfg ← as_map raw
  effort ← entry "effort" cfg
  as_string effort

-- `extractEffort`.
unfoldable pub extract_effort : Body → String
extract_effort body = elim (body_map body) [
  | none ↦ ""
  | some m ↦ elim (do raw ← entry "reasoning_effort" m; as_string raw) [
    | some s ↦ s
    | none ↦ elim (effort_of_config m) [ none ↦ "" | some s ↦ s ]
  ]
]

abbrev positive_or : ℕ → Option ℤ → ℕ
positive_or default (some (pos n)) = if ltb 0 n then n else default
positive_or default _ = default

-- `extractMaxTokens`.
unfoldable pub extract_max_tokens : Body → ℕ → ℕ
extract_max_tokens body default =
    positive_or default (do m ← body_map body; raw ← entry "max_tokens" m; as_int raw)

-- `computeThinkingBudget`. `cap` is `int(float64(maxTokens) * fraction)`, for a fraction that is
-- not negative.
unfoldable pub budget_within : ℕ × Bool → ℕ → ℕ × Bool
budget_within (effort_budget, should_disable) fraction_cap =
    if should_disable
    then (0, true)
    else if ltb effort_budget fraction_cap
    then (effort_budget, false)
    else (fraction_cap, false)

unfoldable pub compute_thinking_budget : (ℕ → ℕ) → Body → ℕ × Bool
compute_thinking_budget cap body =
    budget_within (effort_token_budget (extract_effort body)) (cap (extract_max_tokens body 32000))

-- `injectThinkingTokenBudget`.
unfoldable pub inject_thinking_token_budget : Body → ℕ → Result Body
inject_thinking_token_budget body budget = elim (body_map body) [
  | none ↦ failed
  | some null_map ↦ panicked
  | some (map_of fs) ↦ ok (doc (obj (put "thinking_token_budget" (int (pos budget)) fs)))
]
