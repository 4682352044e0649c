-- ===== src/Tests/Routed.antt =====
-- Requests to the thinking router.
use lazy_vllm.Prelude.{
  if◌then◌else◌, ◌≤◌, ◌≡◌, ◌≢◌, refl, String, true, some, List, [], ◌∷◌, ◌++◌, length,
}
use lazy_vllm.Json.{
  Json, null, str, bool, arr, obj, Fields, field, end, Items, nil, cons, Body, doc, get, elements,
  of_list,
}
use lazy_vllm.Router.{
  ChatMessage, MinimalRequest, AnthropicRequest, strip_prior_thinking_blocks, decode_request,
  decode_anthropic,
}
use lazy_vllm.Router.Strip.{EarlierWithout, strip_all_but_last, strip_prior_thinking_blocks_sound}
use lazy_vllm.Router.Classify.{Config, Client, classify}
use lazy_vllm.Router.Handlers.{
  Incoming, window_of, settled, post, chat_headers, chat_verdict, messages_headers,
  messages_verdict, handle_chat_completions, handle_messages,
}
use lazy_vllm.Router.Served.{
  window_of_sound, classify_fail_open, handle_chat_completions_sound, handle_messages_sound,
}
use lazy_vllm.Server.{ok, thinking_kwargs}

abbrev block : String → String → Json
block kind text = obj (field "type" (str kind) (field "text" (str text) end))

abbrev turn : String → Items → Json
turn role blocks = obj (field "role" (str role) (field "content" (arr blocks) end))

-- A question, a thoughtful answer, a question, a thoughtful answer.
abbrev turns : Items
turns = cons (turn "user" (cons (block "text" "Why?") nil)) (
    cons (turn "assistant" (cons (block "thinking" "Hm.") (cons (block "text" "So.") nil))) (
      cons (turn "user" (cons (block "text" "Sure?") nil)) (
        cons (turn "assistant" (cons (block "thinking" "Well.") (cons (block "text" "Yes.") nil)))
          nil)))

abbrev request_fields : Fields
request_fields = field "messages" (arr turns) (field "stream" (bool true) end)

strip_prior_thinking_blocks_sound_example :
    (gs : Fields) × (strip_prior_thinking_blocks (doc (obj request_fields)) ≡ ok (doc (obj gs)))
    × (get "messages" gs ≡ some (arr (of_list (strip_all_but_last (elements turns)))))
    × EarlierWithout (elements turns) (strip_all_but_last (elements turns))
    × ((k : String) → k ≢ "messages" → get k gs ≡ get k request_fields)
    × (strip_prior_thinking_blocks (doc (obj gs)) ≡ ok (doc (obj gs)))
unfolding get
strip_prior_thinking_blocks_sound_example =
    strip_prior_thinking_blocks_sound request_fields turns refl

abbrev message : String → Json → ChatMessage
message role content = record { role = role; content = content }

abbrev history : List ChatMessage
history = message "user" (str "a") ∷ message "assistant" (str "b") ∷ message "user" (str "c") ∷ []

window_of_sound_example :
    (older : List ChatMessage) × (older ++ window_of 2 history ≡ history)
    × (length (window_of 2 history) ≤ 2)
    × (length history ≤ 2 → window_of 2 history ≡ history)
    × (2 ≤ length history → length (window_of 2 history) ≡ 2)
window_of_sound_example = window_of_sound 2 history

abbrev config : Config
config = record { vllm_base_url = "http://vllm"; port = 8001; window_size = 2; model_name = "qwen" }

-- A client that reaches a server which answers nothing but an error.
abbrev client : Client
client = record {
  is_valid = λ method url. true;
  exchange = λ req. some (record { status = 503; headers = []; body = some (doc null) });
}

classify_fail_open_example :
    let v = classify client config history "" in
    ((e : String) → v.1 ≡ some e → v.0 ≡ true) × ((settled v).0 ≡ v.0)
classify_fail_open_example = classify_fail_open client config history ""

abbrev incoming : Body → Incoming
incoming body = record { method = "POST"; request_uri = "/"; header = λ k. ""; body = some body }

abbrev blocks_message : String → Items → ChatMessage
blocks_message role blocks = message role (arr blocks)

abbrev decoded_messages : List ChatMessage
decoded_messages =
    blocks_message "user" (cons (block "text" "Why?") nil)
    ∷ blocks_message "assistant" (cons (block "thinking" "Hm.") (cons (block "text" "So.") nil))
    ∷ blocks_message "user" (cons (block "text" "Sure?") nil)
    ∷ blocks_message "assistant" (cons (block "thinking" "Well.") (cons (block "text" "Yes.") nil))
    ∷ []

abbrev chat_request : MinimalRequest
chat_request = record { messages = decoded_messages; stream = true }

abbrev anthropic_request : AnthropicRequest
anthropic_request = record { system = null; messages = decoded_messages; stream = true }

abbrev request : Incoming
request = incoming (doc (obj request_fields))

handle_chat_completions_sound_example :
    let out = handle_chat_completions client config request in
    let enable = (chat_verdict client config request chat_request).0 in
    (gs : Fields) × (out.sent
      ≡ some (post "http://vllm/v1/chat/completions" (chat_headers request) (doc (obj gs))))
    × (get "chat_template_kwargs" gs ≡ some (thinking_kwargs enable))
    × ((k : String) → k ≢ "chat_template_kwargs" → get k gs ≡ get k request_fields)
    × (out.label ≡ some (if enable then "reasoning" else "direct"))
unfolding decode_request get
handle_chat_completions_sound_example =
    handle_chat_completions_sound client config request request_fields chat_request refl refl refl

handle_messages_sound_example :
    let out = handle_messages client config request in
    let enable = (messages_verdict client config request anthropic_request).0 in
    (gs : Fields) × (out.sent
      ≡ some (post "http://vllm/v1/messages" (messages_headers request) (doc (obj gs))))
    × (get "chat_template_kwargs" gs ≡ some (thinking_kwargs enable))
    × (get "messages" gs ≡ some (arr (of_list (strip_all_but_last (elements turns)))))
    × EarlierWithout (elements turns) (strip_all_but_last (elements turns))
    × ((k : String) → k ≢ "messages" → k ≢ "chat_template_kwargs" → get k gs ≡ get k request_fields)
unfolding decode_anthropic get
handle_messages_sound_example =
    handle_messages_sound client config request request_fields turns anthropic_request refl refl
      refl refl
