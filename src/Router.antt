-- ===== src/Router.antt =====
-- router/internal/router/types.go: the requests that the thinking router reads, and its changes of
-- a request body.
pub mod Thinned
pub mod Strip
pub mod Classify
pub mod Handlers
pub mod Served
use lazy_vllm.Prelude.{
  ℕ, zero, suc, ◌+◌, String, ◌<>◌, Bool, true, false, not, ◌&&◌, ◌||◌, Option, none, some, List, [],
  ◌∷◌, ◌++◌, length, keep, ◌==◌, str_eq, if◌then◌else◌,
}
use lazy_vllm.Json.{
  Json, null, bool, str, arr, obj, end, field, Fields, Items, nil, cons, Body, doc, malformed, Map,
  null_map, map_of, get, put, as_map, as_array, as_bool, entry, elements, of_list, field_string,
  asserted_string,
}
use lazy_vllm.Server.{Result, ok, failed, panicked, body_map, thinking_kwargs}

-- `ChatMessage`, and `AnthropicMessage`, which has the same fields. `content` is an `any`.
pub record ChatMessage : Type 0 where
  pub role : String
  pub content : Json

-- `minimalRequest`.
pub record MinimalRequest : Type 0 where
  pub messages : List ChatMessage
  pub stream : Bool

-- `minimalAnthropicRequest`.
pub record AnthropicRequest : Type 0 where
  pub system : Json
  pub messages : List ChatMessage
  pub stream : Bool

infixl 5 ◌>>=◌
abbrev pub ◌>>=◌ {ℓ κ} : {A : Type ℓ} {B : Type κ} → Option A → (A → Option B) → Option B
none >>= k = none
some a >>= k = k a

abbrev pub or_null : Option Json → Json
or_null none = null
or_null (some v) = v

abbrev pub message_of : Json → Option ChatMessage
message_of (obj fs) = do
  role ← field_string "role" fs
  some (record { role = role; content = or_null (get "content" fs) })
message_of null = some (record { role = ""; content = null })
message_of _ = none

abbrev pub all_messages : List Json → Option (List ChatMessage)
all_messages [] = some []
all_messages (v ∷ vs) = do m ← message_of v; ms ← all_messages vs; some (m ∷ ms)

abbrev pub messages_in : Map → Option (List ChatMessage)
messages_in m = do vs ← as_array (or_null (entry "messages" m)); all_messages vs

abbrev pub stream_in : Map → Option Bool
stream_in m = as_bool (or_null (entry "stream" m))

-- `json.Unmarshal(bodyBytes, &req)`.
unfoldable pub decode_request : Body → Option MinimalRequest
decode_request body = do
  m ← body_map body
  ms ← messages_in m
  s ← stream_in m
  some (record { messages = ms; stream = s })

unfoldable pub decode_anthropic : Body → Option AnthropicRequest
decode_anthropic body = do
  m ← body_map body
  ms ← messages_in m
  s ← stream_in m
  some (record { system = or_null (entry "system" m); messages = ms; stream = s })

-- The texts of the items that are objects with a text.
abbrev item_text : Json → Option String
item_text (obj fs) = asserted_string (get "text" fs)
item_text _ = none

abbrev pub texts_of : List Json → List String
texts_of [] = []
texts_of (v ∷ vs) = let rest = texts_of vs in elim (item_text v) [ none ↦ rest | some t ↦ t ∷ rest ]

-- `strings.Join(parts, " ")`.
abbrev pub join_space : List String → String
join_space [] = ""
join_space (p ∷ []) = p
join_space (p ∷ q ∷ ps) = p <> (" " <> join_space (q ∷ ps))

-- `extractText`.
unfoldable pub extract_text : Json → String
extract_text (str s) = s
extract_text (arr vs) = join_space (texts_of (elements vs))
extract_text _ = ""

abbrev text_message : ChatMessage → ChatMessage
text_message m = record { role = m.role; content = str (extract_text m.content) }

abbrev text_messages : List ChatMessage → List ChatMessage
text_messages [] = []
text_messages (m ∷ ms) = text_message m ∷ text_messages ms

-- `anthropicMessagesToChat`.
unfoldable pub anthropic_messages_to_chat : Json → List ChatMessage → List ChatMessage
unfolding extract_text
anthropic_messages_to_chat system messages =
    if str_eq (extract_text system) ""
    then text_messages messages
    else record { role = "system"; content = str (extract_text system) } ∷ text_messages messages

-- Whether a message decodes with the role of the assistant.
abbrev role_is : String → Option String → Bool
role_is role none = false
role_is role (some r) = str_eq r role

abbrev role_of : Map → Option String
role_of null_map = some ""
role_of (map_of fs) = field_string "role" fs

unfoldable pub is_assistant : Json → Bool
is_assistant raw = role_is "assistant" (as_map raw >>= role_of)

-- The first loop of `stripPriorThinkingBlocks`: the index of the last such message, from index `i`.
unfoldable pub last_assistant_from : ℕ → Option ℕ → List Json → Option ℕ
last_assistant_from i last [] = last
last_assistant_from i last (raw ∷ rest) =
    last_assistant_from (suc i) (if is_assistant raw then some i else last) rest

abbrev kind_of : Map → Option String
kind_of null_map = some ""
kind_of (map_of fs) = field_string "type" fs

-- A block stays unless it decodes as thinking or redacted thinking.
unfoldable pub is_kept_block : Json → Bool
is_kept_block block = elim (as_map block >>= kind_of) [
  | none ↦ true
  | some t ↦ not (str_eq t "thinking" || str_eq t "redacted_thinking")
]

-- The array that a message's content is, if it is one. A missing content is no JSON.
abbrev pub blocks_in : Fields → Option (List Json)
blocks_in fs = do v ← get "content" fs; as_array v

abbrev pub with_content : Fields → List Json → List Json → Json
with_content fs blocks filtered =
    if length filtered == length blocks
    then obj fs
    else obj (put "content" (arr (of_list filtered)) fs)

-- The body of the second loop, for an assistant message that is not the last one.
unfoldable pub strip_message : Json → Json
strip_message (obj fs) = elim (blocks_in fs) [
  | none ↦ obj fs
  | some blocks ↦ with_content fs blocks (keep is_kept_block blocks)
]
strip_message v = v

abbrev is_index : ℕ → Option ℕ → Bool
is_index i none = false
is_index i (some j) = i == j

unfoldable pub strip_from : ℕ → Option ℕ → List Json → List Json
strip_from i last [] = []
strip_from i last (raw ∷ rest) =
    (if not (is_assistant raw) || is_index i last then raw else strip_message raw)
    ∷ strip_from (suc i) last rest

abbrev pub strip_messages : List Json → List Json
strip_messages msgs = strip_from 0 (last_assistant_from 0 none msgs) msgs

-- `json.Marshal` of the list that was read from `raw`: a nil slice is null.
abbrev pub marshal_read : Json → List Json → Json
marshal_read null msgs = null
marshal_read raw msgs = arr (of_list msgs)

abbrev pub strip_in : Body → Map → Result Body
strip_in body null_map = ok body
strip_in body (map_of fs) = elim (get "messages" fs) [
  | none ↦ ok body
  | some raw_msgs ↦ elim (as_array raw_msgs) [
    | none ↦ failed
    | some msgs ↦ ok (doc (obj (put "messages" (marshal_read raw_msgs (strip_messages msgs)) fs)))
  ]
]

-- `stripPriorThinkingBlocks`.
unfoldable pub strip_prior_thinking_blocks : Body → Result Body
strip_prior_thinking_blocks body = elim (body_map body) [ none ↦ failed | some m ↦ strip_in body m ]

-- `injectThinkingMode`.
unfoldable pub inject_thinking_mode : Body → Bool → Result Body
inject_thinking_mode body enable = elim (body_map body) [
  | none ↦ failed
  | some null_map ↦ panicked
  | some (map_of fs) ↦ ok (doc (obj (put "chat_template_kwargs" (thinking_kwargs enable) fs)))
]
