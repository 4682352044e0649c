-- ===== src/Obs/Inject.antt =====
-- proxy/internal/proxy/obs.go: the injection of the observation instruction and of the reminders
-- into a request. The two texts are parameters here.
pub mod Roles
use lazy_vllm.Prelude.{
  String, ◌<>◌, Bool, true, false, not, ◌&&◌, ◌||◌, Option, none, some, List, [], ◌∷◌, ◌++◌, any,
  str_eq, if◌then◌else◌,
}
use lazy_vllm.Json.{
  ℤ, pos, Json, str, obj, end, field, Body, doc, malformed, Map, null_map, map_of, get, put,
  as_string, as_maps, as_int, entry, string_or_zero, of_maps,
}
use lazy_vllm.Prelude.{◌==◌, ℕ}
use lazy_vllm.Server.{Result, ok, panicked, body_map, put_in}

infixl 5 ◌>>=◌
abbrev ◌>>=◌ {ℓ κ} : {A : Type ℓ} {B : Type κ} → Option A → (A → Option B) → Option B
none >>= k = none
some a >>= k = k a

abbrev is_one : Option ℤ → Bool
is_one (some (pos n)) = n == 1
is_one _ = false

abbrev max_tokens_of : Map → Option ℤ
max_tokens_of m = elim (entry "max_tokens" m) [ none ↦ some (pos 0) | some v ↦ as_int v ]

-- `isProbeRequest`.
unfoldable pub is_probe_request : Body → Bool
is_probe_request body = is_one (body_map body >>= max_tokens_of)

-- The string at a key, empty where there is none, as the code decodes types and roles.
abbrev pub string_at : String → Map → String
string_at k m = string_or_zero (entry k m)

-- `m[k] = v`, on maps that have an entry, and so are not nil.
abbrev pub set_entry : String → Json → Map → Map
set_entry k v null_map = null_map
set_entry k v (map_of fs) = map_of (put k v fs)

abbrev text_block : String → Map
text_block text = map_of (field "type" (str "text") (field "text" (str text) end))

abbrev extend_text : String → Map → Map
extend_text more b = set_entry "text" (str (string_at "text" b <> more)) b

-- The loop from the end that extends the last text block.
unfoldable pub extend_last_text : String → List Map → Option (List Map)
extend_last_text more [] = none
extend_last_text more (b ∷ bs) =
    let later = extend_last_text more bs in
    elim later [
      | some bs' ↦ some (b ∷ bs')
      | none ↦ if str_eq (string_at "type" b) "text" then some (extend_text more b ∷ bs) else none
    ]

-- That loop, and a new block where it finds none.
unfoldable pub append_text : String → List Map → List Map
append_text more blocks = elim (extend_last_text more blocks) [
  | some blocks' ↦ blocks'
  | none ↦ blocks ++ (text_block more ∷ [])
]

abbrev system_with : String → Json → Option Json
system_with addition v = elim (as_string v) [
  | some s ↦ some (str (s <> addition))
  | none ↦ elim (as_maps v) [
    | none ↦ none
    | some blocks ↦ some (of_maps (append_text addition blocks))
  ]
]

-- `injectAnthropicSystem`.
unfoldable pub inject_anthropic_system : Body → String → Result Body
inject_anthropic_system body addition = elim (body_map body) [
  | none ↦ ok body
  | some null_map ↦ panicked
  | some (map_of fs) ↦ elim (get "system" fs) [
    | none ↦ ok (doc (obj (put "system" (str addition) fs)))
    | some v ↦ elim (system_with addition v) [
      | none ↦ ok body
      | some w ↦ ok (doc (obj (put "system" w fs)))
    ]
  ]
]

abbrev system_message : String → Map
system_message addition = map_of (field "role" (str "system") (field "content" (str addition) end))

-- The messages with a system message at their head.
unfoldable pub with_system : String → Map → List Map → List Map
with_system addition m ms =
    if str_eq (string_at "role" m) "system"
    then set_entry "content" (str (string_at "content" m <> addition)) m ∷ ms
    else system_message addition ∷ m ∷ ms

-- `injectOpenAISystem`.
unfoldable pub inject_openai_system : Body → String → Body
inject_openai_system body addition = elim (body_map body) [
  | none ↦ body
  | some m ↦ elim (entry "messages" m >>= as_maps) [
    | none ↦ body
    | some [] ↦ body
    | some (first ∷ rest) ↦ doc (put_in "messages" (of_maps (with_system addition first rest)) m)
  ]
]

abbrev pub is_tool_result : Map → Bool
is_tool_result b = str_eq (string_at "type" b) "tool_result"

-- `hasToolResult`.
unfoldable pub has_tool_result : List Map → Bool
has_tool_result blocks = any is_tool_result blocks

-- The content of a tool result with the reminder, if it is a text or an array of blocks.
abbrev reminded_result : String → Map → Option Map
reminded_result reminder b = elim (entry "content" b >>= as_string) [
  | some s ↦ some (set_entry "content" (str (s <> reminder)) b)
  | none ↦ elim (entry "content" b >>= as_maps) [
    | none ↦ none
    | some blocks ↦ some (set_entry "content" (of_maps (append_text reminder blocks)) b)
  ]
]

-- The last tool result changed; `none` if there is none, and an inner `none` if it cannot be.
unfoldable pub into_last : String → List Map → Option (Option (List Map))
into_last reminder [] = none
into_last reminder (b ∷ bs) =
    let later = into_last reminder bs in
    elim later [
      | some (some bs') ↦ some (some (b ∷ bs'))
      | some none ↦ some none
      | none ↦
          if is_tool_result b
          then (elim (reminded_result reminder b) [
            | none ↦ some none
            | some b' ↦ some (some (b' ∷ bs))
          ])
          else none
    ]

-- `injectIntoLastToolResult`: `none` where its last result is false.
unfoldable pub inject_into_last_tool_result : List Map → String → Option (List Map)
inject_into_last_tool_result blocks reminder = elim (into_last reminder blocks) [
  | none ↦ none
  | some changed ↦ changed
]

abbrev pub set_blocks : Map → List Map → Map
set_blocks m blocks = set_entry "content" (of_maps blocks) m

abbrev remind_blocks : String → Map → List Map → Option Map
remind_blocks reminder m blocks =
    if has_tool_result blocks
    then (elim (inject_into_last_tool_result blocks reminder) [
      | none ↦ none
      | some blocks' ↦ some (set_blocks m blocks')
    ])
    else some (set_blocks m (blocks ++ (text_block reminder ∷ [])))

abbrev pub remind_text : String → Map → Option Map
remind_text reminder m = do
  s ← entry "content" m >>= as_string
  some (set_entry "content" (str (s <> reminder)) m)

-- A message of a request to Anthropic's API with the reminder; `none` if it stays.
unfoldable pub remind_anthropic : String → Map → Option Map
remind_anthropic reminder m =
    if not (str_eq (string_at "role" m) "user") then none else (elim (remind_text reminder m) [
      | some m' ↦ some m'
      | none ↦ elim (entry "content" m >>= as_maps) [
        | none ↦ none
        | some blocks ↦ remind_blocks reminder m blocks
      ]
    ])

abbrev pub put_back : Map → Option Map → List Map × Bool → List Map × Bool
put_back m none (ms, modified) = (m ∷ ms, modified)
put_back m (some m') (ms, modified) = (m' ∷ ms, true)

-- The loop over the messages, and whether it changed one.
unfoldable pub remind_anthropic_all : String → List Map → List Map × Bool
remind_anthropic_all reminder [] = ([], false)
remind_anthropic_all reminder (m ∷ ms) =
    put_back m (remind_anthropic reminder m) (remind_anthropic_all reminder ms)

abbrev pub repacked : Body → Map → List Map × Bool → Body
repacked body m (ms, true) = doc (put_in "messages" (of_maps ms) m)
repacked body m (ms, false) = body

abbrev pub reminded : (List Map → List Map × Bool) → Body → Body
reminded loop body = elim (body_map body) [
  | none ↦ body
  | some m ↦ elim (entry "messages" m >>= as_maps) [
    | none ↦ body
    | some ms ↦ repacked body m (loop ms)
  ]
]

-- `injectAnthropicUserReminder`.
unfoldable pub inject_anthropic_user_reminder : String → Body → Body
inject_anthropic_user_reminder reminder body = reminded (remind_anthropic_all reminder) body

-- Whether the message before these is the last of a run of tool messages.
abbrev ends_run : List Map → Bool
ends_run [] = true
ends_run (next ∷ _) = not (str_eq (string_at "role" next) "tool")

-- A message of a request to OpenAI's API, before the messages `later`.
unfoldable pub remind_openai : String → Map → List Map → Option Map
remind_openai reminder m later =
    if str_eq (string_at "role" m) "user" || (str_eq (string_at "role" m) "tool" && ends_run later)
    then remind_text reminder m
    else none

unfoldable pub remind_openai_all : String → List Map → List Map × Bool
remind_openai_all reminder [] = ([], false)
remind_openai_all reminder (m ∷ ms) =
    put_back m (remind_openai reminder m ms) (remind_openai_all reminder ms)

-- `injectOpenAIUserReminder`.
unfoldable pub inject_openai_user_reminder : String → Body → Body
inject_openai_user_reminder reminder body = reminded (remind_openai_all reminder) body

abbrev then_remind : Bool → String → Result Body → Result Body
then_remind true reminder (ok body) = ok (inject_anthropic_user_reminder reminder body)
then_remind _ reminder r = r

-- `injectObsInstruction`, with the instruction, the reminder and whether reminders are enabled.
unfoldable pub inject_obs_instruction : String → String → Bool → Body → String → Result Body
inject_obs_instruction instruction reminder enabled body format =
    if str_eq format "anthropic"
    then then_remind enabled reminder (inject_anthropic_system body instruction)
    else if str_eq format "openai"
    then ok (
        if enabled
        then inject_openai_user_reminder reminder (inject_openai_system body instruction)
        else inject_openai_system body instruction)
    else ok body
