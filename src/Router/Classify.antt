-- ===== src/Router/Classify.antt =====
-- router/internal/router/classify.go: the call that asks the model whether a request needs
-- reasoning. The HTTP client and the server behind it are a parameter, `Client`.
use Prim.Native.Char.{code}
use lazy_vllm.Prelude.{
  ℕ, String, ◌<>◌, Bool, true, false, Option, none, some, List, [], ◌∷◌, ◌++◌, str_eq, ◌==◌, leb,
  ◌&&◌, not, ◌-◌, if◌then◌else◌,
}
use lazy_vllm.Json.{
  pos, Json, bool, int, str, arr, obj, end, field, Body, doc, as_map, as_array, asserted_string,
  entry, of_list, Items,
}
use lazy_vllm.Text.Chars.{Chars, chars, trim_space}
use lazy_vllm.Router.{ChatMessage, message_of, ◌>>=◌, or_null}
use lazy_vllm.Server.{body_map, thinking_kwargs}

-- `Config` of router/internal/router/proxy.go; the port is the listener's alone.
pub record Config : Type 0 where
  pub vllm_base_url : String
  pub port : ℕ
  pub window_size : ℕ
  pub model_name : String

abbrev pub Headers : Type 0
Headers = List (String × String)

pub record Request : Type 0 where
  pub method : String
  pub url : String
  pub headers : Headers
  pub body : Body

-- A body is `none` if it cannot be read to its end.
pub record Response : Type 0 where
  pub status : ℕ
  pub headers : Headers
  pub body : Option Body

-- `http.NewRequestWithContext` refuses some URLs, and an exchange fails with no response.
pub record Client : Type 0 where
  pub is_valid : String → String → Bool
  pub exchange : Request → Option Response

abbrev message_json : ChatMessage → Json
message_json m = obj (field "role" (str m.role) (field "content" m.content end))

abbrev messages_json : List ChatMessage → Items
messages_json [] = Items.nil
messages_json (m ∷ ms) = Items.cons (message_json m) (messages_json ms)

-- `routingPrompt`.
abbrev routing_prompt : String
routing_prompt =
    "You are a query router. Classify the user's latest message as DIRECT or REASONING based on the cognitive depth required to provide an accurate response.\n\nDIRECT: Use for shallow-processing tasks. This includes simple factual retrieval, greetings, or trivial transformations where the answer is immediate and requires no internal logical steps, synthesis of information, or complex reasoning.\n\nREASONING: Use for deep-processing tasks. This includes queries that require:\n- Multi-step logical deduction or sequential processing.\n- Synthesis or abstraction (e.g., summarizing, identifying themes, or distilling information).\n- Analytical reasoning (e.g., comparisons, critiques, or explaining 'why').\n- Complex constraint satisfaction (e.g., following intricate formatting or stylistic rules).\n- Processing high-density or structurally complex input.\n\nClassify the message based on the required depth of processing."

-- The payload of `classify`.
unfoldable pub classify_payload : Config → List ChatMessage → Json
classify_payload cfg messages = obj (
    field "model" (str cfg.model_name) (
      field "messages"
        (arr (messages_json (record { role = "system"; content = str routing_prompt } ∷ messages)))
        (field "max_tokens" (int (pos 16)) (
          field "stream" (bool false) (
            field "structured_outputs"
              (obj (field "choice" (arr (of_list (str "DIRECT" ∷ str "REASONING" ∷ []))) end))
              (field "chat_template_kwargs" (thinking_kwargs false) end))))))

abbrev pub json_content : Headers
json_content = ("Content-Type", "application/json") ∷ []

-- A header that is set only if the client sent one.
abbrev pub header_unless_empty : String → String → Headers
header_unless_empty name v = if str_eq v "" then [] else (name, v) ∷ []

unfoldable pub classify_request : Config → List ChatMessage → String → Request
classify_request cfg messages auth = record {
  method = "POST";
  url = cfg.vllm_base_url <> "/v1/chat/completions";
  headers = json_content ++ header_unless_empty "Authorization" auth;
  body = doc (classify_payload cfg messages);
}

-- `choices[i].message` of a `chatResponse`.
abbrev choice_message : Json → Option ChatMessage
choice_message v = do m ← as_map v; message_of (or_null (entry "message" m))

abbrev choice_messages : List Json → Option (List ChatMessage)
choice_messages [] = some []
choice_messages (v ∷ vs) = do m ← choice_message v; ms ← choice_messages vs; some (m ∷ ms)

abbrev decode_choices : Body → Option (List ChatMessage)
decode_choices body = do
  m ← body_map body
  vs ← as_array (or_null (entry "choices" m))
  choice_messages vs

-- The capital of a letter as `strings.ToUpper` has it, as far as it is an ASCII letter: besides a to
-- z these come from U+0131 and U+017F.
abbrev upper : ℕ → ℕ
upper c =
    if leb b'a' c && leb c b'z'
    then c - 32
    else if c == 0x131
    then b'I'
    else if c == 0x17f
    then b'S'
    else c

unfoldable pub upper_is : Chars → Chars → Bool
upper_is [] [] = true
upper_is (c ∷ s) (d ∷ w) = upper (code c) == code d && upper_is s w
upper_is _ _ = false

-- Whether a content says REASONING. White space has no capital, so it is trimmed first here.
abbrev is_reasoning : String → Bool
is_reasoning content = upper_is (trim_space (chars content)) (chars "REASONING")

-- The verdict in the body of an answer, or the error with its verdict.
unfoldable pub verdict : Body → Bool × Option String
verdict body = elim (decode_choices body) [
  | none ↦ (true, some "classify unmarshal")
  | some [] ↦ (true, some "classify: no choices in response")
  | some (m ∷ _) ↦ elim (asserted_string (some m.content)) [
    | none ↦ (true, some "classify: unexpected content type")
    | some content ↦ (is_reasoning content, none)
  ]
]

abbrev pub verdict_of : Response → Bool × Option String
verdict_of resp = elim resp.body [
  | none ↦ (true, some "classify read")
  | some body ↦ if not (resp.status == 200) then (true, some "classify status") else verdict body
]

-- `classify`: whether to think, and an error. `json.Marshal` writes every payload of this form.
unfoldable pub classify : Client → Config → List ChatMessage → String → Bool × Option String
classify client cfg messages auth =
    let req = classify_request cfg messages auth in
    if not (client.is_valid req.method req.url)
    then (true, some "classify request")
    else (elim (client.exchange req) [
      | none ↦ (true, some "classify http")
      | some resp ↦ verdict_of resp
    ])
