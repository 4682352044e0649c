-- ===== src/Agent.antt =====
-- agent/internal/agent/types.go and anthropic.go: the messages of the agent, and the state of a
-- request on its way through a graph. `ToolCall` has the fields that it has in the session log.
pub mod History
pub mod Model
pub mod Logging
pub mod Graph
pub mod Anthropic
use lazy_vllm.Prelude.{
  ℕ, String, Bool, true, false, Option, none, some, List, [], ◌∷◌, ◌++◌, map, str_eq, if◌then◌else◌,
}
use lazy_vllm.Json.{Json, null, str, obj, arr, end, field, Fields, Body, of_list}
use lazy_vllm.Logger.{ToolCall}

-- The value of an `any`, or nil for the `Content`.
pub record AnthropicContentBlock : Type 0 where
  pub type : String
  pub text : String
  pub thinking : String
  pub id : String
  pub name : String
  pub input : Option Json
  pub tool_use_id : String
  pub content : Option Json

pub record ContentBlock : Type 0 where
  pub type : String
  pub text : String

-- The types that the `any` of a message's content has: what encoding/json decodes, and three of the
-- program's.
pub data Content : Type 0 where
  decoded : Json → Content
  content_blocks : List ContentBlock → Content
  anthropic_blocks : List AnthropicContentBlock → Content
  raw_message : Json → Content

pub record ChatMessage : Type 0 where
  pub role : String
  pub content : Content
  pub reasoning_content : String
  pub tool_calls : List ToolCall
  pub tool_call_id : String
  pub name : String

abbrev pub message : String → Content → ChatMessage
message role content = record {
  role = role;
  content = content;
  reasoning_content = "";
  tool_calls = [];
  tool_call_id = "";
  name = "";
}

pub data ApiFormat : Type 0 where
  openai anthropic : ApiFormat

pub record PipelineCtx : Type 0 where
  pub original_body : Body
  pub original_headers : String → String
  pub stream : Bool
  pub format : ApiFormat
  pub messages : List ChatMessage
  pub node_outputs : List (String × String)
  pub thinking_mode : Option Bool
  pub model_override : String
  pub backend_url : String

-- `pctx.NodeOutputs[k]`, and an assignment to it.
unfoldable pub output_of : String → List (String × String) → String
output_of k [] = ""
output_of k ((j, v) ∷ m) = if str_eq j k then v else output_of k m

unfoldable pub set_output : String → String → List (String × String) → List (String × String)
set_output k v [] = (k, v) ∷ []
set_output k v ((j, w) ∷ m) = if str_eq j k then (j, v) ∷ m else (j, w) ∷ set_output k v m

-- A field that is left out when it is empty.
abbrev pub unless_empty : String → String → Fields → Fields
unless_empty k v fs = if str_eq v "" then fs else field k (str v) fs

abbrev pub call_json : ToolCall → Json
call_json c = obj (
    field "id" (str c.id) (
      field "type" (str c.type) (
        field "function"
          (obj
            (field "name" (str c.function.name) (field "arguments" (str c.function.arguments) end)))
          end)))

abbrev pub calls_field : List ToolCall → Fields → Fields
calls_field [] fs = fs
calls_field (c ∷ cs) fs = field "tool_calls" (arr (of_list (map call_json (c ∷ cs)))) fs

abbrev pub optional_field : String → Option Json → Fields → Fields
optional_field k none fs = fs
optional_field k (some v) fs = field k v fs

-- `json.Marshal` of a block and of a message.
abbrev pub anthropic_block_json : AnthropicContentBlock → Json
anthropic_block_json b = obj (
    field "type" (str b.type) (
      unless_empty "text" b.text (
        unless_empty "thinking" b.thinking (
          unless_empty "id" b.id (
            unless_empty "name" b.name (
              optional_field "input" b.input (
                unless_empty "tool_use_id" b.tool_use_id
                  (optional_field "content" b.content end))))))))

abbrev pub block_json : ContentBlock → Json
block_json b = obj (field "type" (str b.type) (unless_empty "text" b.text end))

abbrev pub content_json : Content → Json
content_json (decoded v) = v
content_json (content_blocks bs) = arr (of_list (map block_json bs))
content_json (anthropic_blocks bs) = arr (of_list (map anthropic_block_json bs))
content_json (raw_message v) = v

abbrev pub chat_json : ChatMessage → Json
chat_json m = obj (
    field "role" (str m.role) (
      field "content" (content_json m.content) (
        unless_empty "reasoning" m.reasoning_content (
          calls_field m.tool_calls
            (unless_empty "tool_call_id" m.tool_call_id (unless_empty "name" m.name end))))))

abbrev pub chats_json : List ChatMessage → Json
chats_json ms = arr (of_list (map chat_json ms))
