-- ===== src/Agent/Model.antt =====
-- agent/internal/agent/llm.go: `callModel`. The server behind it is a `Host`, whose state passes
-- from exchange to exchange.
pub mod Calls
use lazy_vllm.Prelude.{
  ℕ, String, ◌<>◌, Bool, true, false, not, Option, none, some, List, [], ◌∷◌, ◌++◌, map, ◌==◌, ltb,
  str_eq, if◌then◌else◌,
}
use lazy_vllm.Json.{
  ℤ, pos, negsuc, Json, null, str, bool, int, obj, arr, end, field, Fields, Body, doc, Map, get,
  as_map, as_array, entry, of_list, field_string,
}
use lazy_vllm.Json.Structs.{◌>>=◌, as_struct, struct_at, list_at, each}
use lazy_vllm.Logger.{ToolCall}
use lazy_vllm.Logger.Outputs.{call_of}
use lazy_vllm.Server.{body_map, thinking_kwargs}
use lazy_vllm.Router.Classify.{Request, Response, Headers, json_content}
use lazy_vllm.Agent.{
  Content, decoded, ChatMessage, PipelineCtx, message, chats_json, optional_field,
}
use lazy_vllm.Agent.History.{extract_text_value}

pub record Host (W : Type 0) : Type 0 where
  pub is_valid : String → String → Bool
  pub exchange : Request → W → Option Response × W

pub data ToolResult : Type 0 where
  returned : String → ToolResult
  raised : String → ToolResult

pub record ToolDef (W : Type 0) : Type 0 where
  pub name : String
  pub description : String
  pub parameters : Json
  pub handler : String → W → ToolResult × W

pub record HistoryPolicy : Type 0 where
  pub strip_thinking_on_commit : Bool
  pub window_size : ℤ

pub record Agent (W : Type 0) : Type 0 where
  pub system_prompt : String
  pub model : String
  pub max_tokens : ℤ
  pub thinking_mode : Option Bool
  pub structured_choice : List String
  pub tools : List (ToolDef W)
  pub history : HistoryPolicy

pub record Config : Type 0 where
  pub window_size : ℤ
  pub model_name : String

pub record ModelResponse : Type 0 where
  pub content : String
  pub reasoning : String
  pub tool_calls : List ToolCall

-- `buildPayloadMessages`.
unfoldable pub build_payload_messages : String → List ChatMessage → List ChatMessage
build_payload_messages system_prompt msgs =
    if str_eq system_prompt "" then msgs else message "system" (decoded (str system_prompt)) ∷ msgs

abbrev or_true : Option Bool → Bool
or_true none = true
or_true (some b) = b

abbrev pub first_set : Option Bool → Option Bool → Option Bool
first_set none b = b
first_set (some a) b = some a

abbrev or_nil : Option Json → Json
or_nil none = null
or_nil (some v) = v

abbrev choice_of : Json → Option ModelResponse
choice_of v = do
  fs ← as_struct v
  m ← struct_at "message" fs
  reasoning ← field_string "reasoning" m
  vs ← list_at "tool_calls" m
  calls ← each call_of vs
  some (record {
    content = extract_text_value (or_nil (get "content" m));
    reasoning = reasoning;
    tool_calls = calls;
  })

abbrev pub choices_in : Body → Option (List ModelResponse)
choices_in (doc v) = do fs ← as_struct v; vs ← list_at "choices" fs; each choice_of vs
choices_in _ = none

abbrev pub first_choice : Option (List ModelResponse) → Option ModelResponse
first_choice (some (r ∷ _)) = some r
first_choice _ = none

-- The model's answer in a response, or nothing after an error.
unfoldable pub answer_in : Response → Option ModelResponse
answer_in resp = elim resp.body [
  | none ↦ none
  | some body ↦ if not (resp.status == 200) then none else first_choice (choices_in body)
]

abbrev authorization : (String → String) → Headers
authorization header =
    if str_eq (header "x-api-key") ""
    then (if str_eq (header "Authorization") ""
        then []
        else ("Authorization", header "Authorization") ∷ [])
    else ("Authorization", "Bearer " <> header "x-api-key") ∷ []

abbrev positive_field : String → ℤ → Fields → Fields
positive_field k (pos n) fs = if n == 0 then fs else field k (int (pos n)) fs
positive_field k (negsuc n) fs = fs

abbrev choice_field : List String → Fields → Fields
choice_field [] fs = fs
choice_field (c ∷ cs) fs =
    field "structured_outputs" (obj (field "choice" (arr (of_list (map str (c ∷ cs)))) end)) fs

module _ {W : Type 0} where
  -- `resolveModel` and `resolveThinking`.
  unfoldable pub resolve_model : Config → Agent W → PipelineCtx → String
  resolve_model cfg ag pctx =
      if not (str_eq pctx.model_override "")
      then pctx.model_override
      else if not (str_eq ag.model "")
      then ag.model
      else cfg.model_name

  unfoldable pub resolve_thinking : Agent W → PipelineCtx → Bool
  resolve_thinking ag pctx = or_true (first_set ag.thinking_mode pctx.thinking_mode)

  abbrev schema_json : ToolDef W → Json
  schema_json t = obj (
      field "type" (str "function") (
        field "function"
          (obj (
            field "name" (str t.name)
              (field "description" (str t.description) (field "parameters" t.parameters end))))
          end))

  abbrev tools_field : List (ToolDef W) → Fields → Fields
  tools_field [] fs = fs
  tools_field (t ∷ ts) fs = field "tools" (arr (of_list (map schema_json (t ∷ ts)))) fs

  -- The payload, in some order of its keys.
  unfoldable pub call_payload : Config → Agent W → PipelineCtx → List ChatMessage → Json
  unfolding resolve_model resolve_thinking build_payload_messages
  call_payload cfg ag pctx msgs = obj (
      field "model" (str (resolve_model cfg ag pctx)) (
        field "messages" (chats_json (build_payload_messages ag.system_prompt msgs)) (
          field "stream" (bool false) (
            field "chat_template_kwargs" (thinking_kwargs (resolve_thinking ag pctx)) (
              positive_field "max_tokens" ag.max_tokens
                (choice_field ag.structured_choice (tools_field ag.tools end)))))))

  unfoldable pub call_request : Config → Agent W → PipelineCtx → List ChatMessage → Request
  unfolding call_payload
  call_request cfg ag pctx msgs = record {
    method = "POST";
    url = pctx.backend_url <> "/v1/chat/completions";
    headers = json_content ++ authorization pctx.original_headers;
    body = doc (call_payload cfg ag pctx msgs);
  }

  abbrev answered : Option Response × W → Option ModelResponse × W
  answered (none, w) = (none, w)
  answered (some resp, w) = (answer_in resp, w)

  -- `callModel`: nothing after an error.
  unfoldable pub call_model :
      Host W → Config → Agent W → PipelineCtx → List ChatMessage → W → Option ModelResponse × W
  unfolding call_request
  call_model host cfg ag pctx msgs w =
      if str_eq pctx.backend_url ""
      then (none, w)
      else (let req = call_request cfg ag pctx msgs in
          if not (host.is_valid req.method req.url)
          then (none, w)
          else answered (host.exchange req w))
