-- ===== src/Agent/Anthropic/Wire.antt =====
-- agent/internal/agent/anthropic.go: the messages of the agent as the Anthropic API takes them, and the
-- body of a request with them.
use lazy_vllm.Prelude.{
  String, Bool, Option, none, some, List, [], ◌∷◌, ◌++◌, map, str_eq, if◌then◌else◌,
}
use lazy_vllm.Json.{
  Json, null, str, obj, arr, end, field, Fields, Body, doc, put, delete, elements, of_list,
  null_map, map_of,
}
use lazy_vllm.Server.{Result, ok, failed, panicked, body_map, thinking_kwargs}
use lazy_vllm.Logger.{ToolCall}
use lazy_vllm.Agent.{
  Content, decoded, content_blocks, anthropic_blocks, raw_message, ChatMessage, ContentBlock,
  AnthropicContentBlock, PipelineCtx, content_json,
}
use lazy_vllm.Agent.History.{extract_text_content, join_with}
use lazy_vllm.Agent.Anthropic.{JsonText, AnthropicMessage, blocks_of}

-- The messages that the Anthropic API takes for the internal ones.
abbrev pub block_of_type : String → AnthropicContentBlock
block_of_type t = record {
  type = t;
  text = "";
  thinking = "";
  id = "";
  name = "";
  input = none;
  tool_use_id = "";
  content = none;
}

abbrev pub text_block : String → String → AnthropicContentBlock
text_block t s = record (block_of_type t) { text = s }

abbrev plain_block : ContentBlock → AnthropicContentBlock
plain_block b = text_block b.type b.text

unfoldable pub tool_msg_to_result_block : ChatMessage → AnthropicContentBlock
tool_msg_to_result_block m = record (block_of_type "tool_result") {
  tool_use_id = m.tool_call_id;
  content = some (str (extract_text_content m.content));
}

abbrev pub content_to_blocks : Content → List AnthropicContentBlock
content_to_blocks (decoded (str s)) = if str_eq s "" then [] else text_block "text" s ∷ []
content_to_blocks (decoded (arr vs)) = blocks_of (elements vs)
content_to_blocks (decoded _) = []
content_to_blocks (anthropic_blocks bs) = bs
content_to_blocks (content_blocks bs) = map plain_block bs
content_to_blocks (raw_message v) = []

unfoldable pub internal_content_to_anthropic : Content → Content
internal_content_to_anthropic (decoded (str s)) = decoded (str s)
internal_content_to_anthropic (decoded (arr vs)) = decoded (arr vs)
internal_content_to_anthropic (anthropic_blocks bs) = anthropic_blocks bs
internal_content_to_anthropic (content_blocks bs) = anthropic_blocks (map plain_block bs)
internal_content_to_anthropic c = decoded (str (extract_text_content c))

abbrev pub user_message : Content → AnthropicMessage
user_message c = record { role = "user"; content = c }

-- The tool results that were collected become one message.
abbrev pub flush : List AnthropicContentBlock → List AnthropicMessage → List AnthropicMessage
flush [] out = out
flush (b ∷ bs) out = user_message (anthropic_blocks (b ∷ bs)) ∷ out

abbrev pub is_role : String → ChatMessage → Bool
is_role r m = str_eq m.role r

-- The texts of the system messages.
unfoldable pub system_parts : List ChatMessage → List String
system_parts [] = []
system_parts (m ∷ ms) =
    let rest = system_parts ms in
    if is_role "system" m then extract_text_content m.content ∷ rest else rest

-- A slice without blocks is nil here, which is null.
abbrev sent_content : Content → Json
sent_content (anthropic_blocks []) = null
sent_content c = content_json c

abbrev sent_message : AnthropicMessage → Json
sent_message m = obj (field "role" (str m.role) (field "content" (sent_content m.content) end))

abbrev messages_json : List AnthropicMessage → Json
messages_json [] = null
messages_json (m ∷ ms) = arr (of_list (map sent_message (m ∷ ms)))

abbrev set_system : String → Fields → Fields
set_system s fs = if str_eq s "" then delete "system" fs else put "system" (str s) fs

-- The overrides of the body, which `rebuildRequestBody` has as well.
abbrev pub set_thinking : Option Bool → Fields → Fields
set_thinking none fs = fs
set_thinking (some b) fs = put "chat_template_kwargs" (thinking_kwargs b) fs

abbrev pub set_model : String → Fields → Fields
set_model s fs = if str_eq s "" then fs else put "model" (str s) fs

module _ (j : JsonText) where
  abbrev input_of : Option Json → Json
  input_of none = obj end
  input_of (some v) = v

  abbrev pub use_block : ToolCall → AnthropicContentBlock
  use_block c = record (block_of_type "tool_use") {
    id = c.id;
    name = c.function.name;
    input = some (input_of (j.decode c.function.arguments));
  }

  unfoldable pub assistant_to_anthropic_blocks : ChatMessage → List AnthropicContentBlock
  assistant_to_anthropic_blocks m = content_to_blocks m.content ++ map use_block m.tool_calls

  -- The message that a message other than a tool's becomes.
  abbrev emit : ChatMessage → List AnthropicMessage → List AnthropicMessage
  emit m out =
      if is_role "user" m
      then user_message (internal_content_to_anthropic m.content) ∷ out
      else if is_role "assistant" m
      then record {
        role = "assistant";
        content = anthropic_blocks (assistant_to_anthropic_blocks m);
      }
        ∷ out
      else out

  -- The loop of `chatMessagesToAnthropic`, with the tool results that are not yet in a message.
  unfoldable pub anthropic_messages :
      List AnthropicContentBlock → List ChatMessage → List AnthropicMessage
  unfolding tool_msg_to_result_block assistant_to_anthropic_blocks internal_content_to_anthropic
  anthropic_messages waiting [] = flush waiting []
  anthropic_messages waiting (m ∷ ms) =
      let is_tool = is_role "tool" m in
      let rest =
        anthropic_messages (if is_tool then waiting ++ tool_msg_to_result_block m ∷ [] else [])
          ms in
      if is_tool then rest else flush waiting (emit m rest)

  unfoldable pub chat_messages_to_anthropic : List ChatMessage → String × List AnthropicMessage
  unfolding system_parts anthropic_messages
  chat_messages_to_anthropic ms = (join_with "\n" (system_parts ms), anthropic_messages [] ms)

  -- `BuildAnthropicRequestBody`. A body of null is a nil map, and the assignment to it panics.
  unfoldable pub build_anthropic_request_body : Body → List ChatMessage → PipelineCtx → Result Body
  unfolding chat_messages_to_anthropic
  build_anthropic_request_body original msgs pctx = elim (body_map original) [
    | none ↦ failed
    | some null_map ↦ panicked
    | some (map_of fs) ↦
        (let sent = chat_messages_to_anthropic msgs in
          ok (
            doc (
              obj (
                set_model pctx.model_override (
                  set_thinking pctx.thinking_mode
                    (put "messages" (messages_json (sent.1)) (set_system (sent.0) fs)))))))
  ]
