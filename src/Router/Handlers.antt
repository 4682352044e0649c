-- ===== src/Router/Handlers.antt =====
-- router/internal/router/proxy.go: the handlers of the thinking router, as functions from a request
-- to what they answer, what they send to vLLM after classification, and what they count. A body is
-- `none` if it cannot be read, and it is what is left of it at the limit of 32 MB.
use lazy_vllm.Prelude.{
  ℕ, ◌-◌, String, ◌<>◌, Bool, true, false, Option, none, some, List, [], ◌∷◌, ◌++◌, length, drop,
  ltb, str_eq, if◌then◌else◌, not,
}
use lazy_vllm.Json.{Body, field_string, Map, null_map, map_of}
use lazy_vllm.Config.{LogLevel, debug, info, warn, error}
use lazy_vllm.Router.{
  ChatMessage, MinimalRequest, AnthropicRequest, decode_request, decode_anthropic,
  anthropic_messages_to_chat, strip_prior_thinking_blocks, inject_thinking_mode,
}
use lazy_vllm.Router.Classify.{
  Config, Headers, Request, Response, Client, json_content, header_unless_empty, classify,
}
use lazy_vllm.Server.{Result, ok, failed, panicked, body_map}

-- `http.Request`, with `r.Header.Get` as a function.
pub record Incoming : Type 0 where
  pub method : String
  pub request_uri : String
  pub header : String → String
  pub body : Option Body

-- `http.Error`, the upstream's response copied through, with a flush of each part if it is streamed,
-- an empty response, and a connection that a panic ends.
pub data Reply : Type 0 where
  http_error : ℕ → String → Reply
  relayed : Bool → Response → Reply
  accepted : Reply
  aborted : Reply

-- `sent` is the request to vLLM, `label` the classification that is counted, `errors` the number
-- by which `classifyErrorsTotal` grows.
pub record Outcome : Type 0 where
  pub reply : Reply
  pub sent : Option Request
  pub label : Option String
  pub errors : ℕ

abbrev rejected : ℕ → String → Outcome
rejected status message = record {
  reply = http_error status message;
  sent = none;
  label = none;
  errors = 0;
}

-- The last messages, as many as the window takes. A window size is not negative here.
unfoldable pub window_of : ℕ → List ChatMessage → List ChatMessage
window_of size messages =
    if ltb size (length messages) then drop (length messages - size) messages else messages

-- The end of a handler: the request to vLLM, and its response copied.
unfoldable pub relay : Client → Bool → Request → Reply × Option Request
relay client stream req =
    if not (client.is_valid req.method req.url)
    then (http_error 500 "failed to build upstream request", none)
    else (elim (client.exchange req) [
      | none ↦ (http_error 502 "upstream request failed", some req)
      | some resp ↦ (relayed stream resp, some req)
    ])

abbrev label_of : Bool → String
label_of enable = if enable then "reasoning" else "direct"

-- The verdict that a handler works with, and the number of errors it counts.
abbrev pub settled : Bool × Option String → Bool × ℕ
settled (enable, none) = (enable, 0)
settled (enable, some _) = (true, 1)

abbrev pub counted : Bool × ℕ → Reply × Option Request → Outcome
counted (enable, errors) (reply, sent) = record {
  reply = reply;
  sent = sent;
  label = some (label_of enable);
  errors = errors;
}

abbrev pub post : String → Headers → Body → Request
post url headers body = record { method = "POST"; url = url; headers = headers; body = body }

abbrev pub relay_modified : Client → Bool → String → Headers → Result Body → Reply × Option Request
relay_modified client stream url headers (ok body) = relay client stream (post url headers body)
relay_modified client stream url headers failed = (http_error 500 "failed to modify request", none)
relay_modified client stream url headers panicked = (aborted, none)

abbrev pub chat_headers : Incoming → Headers
chat_headers r = json_content ++ header_unless_empty "Authorization" (r.header "Authorization")

abbrev pub chat_verdict : Client → Config → Incoming → MinimalRequest → Bool × ℕ
chat_verdict client cfg r req =
    settled
      (classify client cfg (window_of cfg.window_size req.messages) (r.header "Authorization"))

abbrev pub chat_decoded : Client → Config → Incoming → Body → MinimalRequest → Outcome
chat_decoded client cfg r body req =
    let v = chat_verdict client cfg r req in
    counted v (
      relay_modified client req.stream (cfg.vllm_base_url <> "/v1/chat/completions")
        (chat_headers r) (inject_thinking_mode body v.0))

abbrev pub chat_parsed : Client → Config → Incoming → Body → Option MinimalRequest → Outcome
chat_parsed client cfg r body none = rejected 400 "invalid JSON"
chat_parsed client cfg r body (some req) = chat_decoded client cfg r body req

abbrev pub chat_read : Client → Config → Incoming → Option Body → Outcome
chat_read client cfg r none = rejected 400 "failed to read request body"
chat_read client cfg r (some body) = chat_parsed client cfg r body (decode_request body)

-- `HandleChatCompletions`.
unfoldable pub handle_chat_completions : Client → Config → Incoming → Outcome
handle_chat_completions client cfg r = chat_read client cfg r r.body

-- Anthropic clients send x-api-key; `Authorization` stands in for it.
unfoldable pub auth_header : Incoming → String
auth_header r =
    if str_eq (r.header "x-api-key") "" then r.header "Authorization" else r.header "x-api-key"

abbrev forward_headers : Incoming → List String → Headers
forward_headers r [] = []
forward_headers r (h ∷ hs) = header_unless_empty h (r.header h) ++ forward_headers r hs

abbrev pub messages_headers : Incoming → Headers
messages_headers r =
    json_content
    ++ forward_headers r
        ("x-api-key" ∷ "anthropic-version" ∷ "anthropic-beta" ∷ "Authorization" ∷ [])

abbrev pub messages_verdict : Client → Config → Incoming → AnthropicRequest → Bool × ℕ
messages_verdict client cfg r req = settled (
    classify client cfg
      (window_of cfg.window_size (anthropic_messages_to_chat req.system req.messages))
      (auth_header r))

abbrev pub relay_stripped :
    Client → Bool → String → Headers → Bool → Result Body → Reply × Option Request
relay_stripped client stream url headers enable (ok body) =
    relay_modified client stream url headers (inject_thinking_mode body enable)
relay_stripped client stream url headers enable failed =
    (http_error 500 "failed to strip thinking blocks", none)
relay_stripped client stream url headers enable panicked = (aborted, none)

abbrev pub messages_decoded : Client → Config → Incoming → Body → AnthropicRequest → Outcome
messages_decoded client cfg r body req =
    let v = messages_verdict client cfg r req in
    counted v (
      relay_stripped client req.stream (cfg.vllm_base_url <> "/v1/messages") (messages_headers r)
        v.0 (strip_prior_thinking_blocks body))

abbrev pub messages_parsed : Client → Config → Incoming → Body → Option AnthropicRequest → Outcome
messages_parsed client cfg r body none = rejected 400 "invalid JSON"
messages_parsed client cfg r body (some req) = messages_decoded client cfg r body req

abbrev pub messages_read : Client → Config → Incoming → Option Body → Outcome
messages_read client cfg r none = rejected 400 "failed to read request body"
messages_read client cfg r (some body) = messages_parsed client cfg r body (decode_anthropic body)

-- `HandleMessages`.
unfoldable pub handle_messages : Client → Config → Incoming → Outcome
handle_messages client cfg r = messages_read client cfg r r.body

abbrev level_of : String → Option LogLevel
level_of s =
    if str_eq s "DEBUG"
    then some debug
    else if str_eq s "INFO"
    then some info
    else if str_eq s "WARN"
    then some warn
    else if str_eq s "ERROR"
    then some error
    else none

abbrev level_field : Map → Option String
level_field null_map = some ""
level_field (map_of fs) = field_string "level" fs

-- `HandleLogLevel`: the answer, and the level that the server has after it. The body is the first
-- document of the request's.
unfoldable pub handle_log_level : Body → LogLevel → Reply × LogLevel
handle_log_level body level = elim (body_map body) [
  | none ↦ (http_error 400 "invalid JSON", level)
  | some m ↦ elim (level_field m) [
    | none ↦ (http_error 400 "invalid JSON", level)
    | some s ↦ elim (level_of s) [
      | none ↦ (http_error 400 "invalid log level", level)
      | some new_level ↦ (accepted, new_level)
    ]
  ]
]

-- `HandleGenericProxy`, with the body that is sent on as it is read.
unfoldable pub handle_generic_proxy : Client → Config → Incoming → Body → Reply × Option Request
handle_generic_proxy client cfg r body = relay client false (record {
  method = r.method;
  url = cfg.vllm_base_url <> r.request_uri;
  headers =
      header_unless_empty "Authorization" (r.header "Authorization")
      ++ (header_unless_empty "Content-Type" (r.header "Content-Type")
          ++ header_unless_empty "Accept" (r.header "Accept"));
  body = body;
})
