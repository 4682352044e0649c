-- ===== src/Agent/Anthropic.antt =====
-- agent/internal/agent/anthropic.go: requests of the Anthropic API as messages of the agent.
pub mod Wire
pub mod RoundTrip
pub mod Turns
use lazy_vllm.Prelude.{
  String, Bool, true, false, not, ◌&&◌, Option, none, some, List, [], ◌∷◌, ◌++◌, map, keep, str_eq,
  if◌then◌else◌,
}
use lazy_vllm.Json.{
  Json, null, str, obj, arr, end, field, Fields, Body, doc, as_map, get, put, delete, elements,
  of_list, field_string, Map, null_map, map_of,
}
use lazy_vllm.Server.{Result, ok, failed, panicked, body_map, thinking_kwargs}
use lazy_vllm.Logger.{ToolCall}
use lazy_vllm.Agent.{
  Content, decoded, content_blocks, anthropic_blocks, raw_message, ChatMessage, ContentBlock,
  AnthropicContentBlock, PipelineCtx, message, content_json, chats_json,
}
use lazy_vllm.Agent.History.{extract_text_value, extract_text_content, join_with, join_non_empty}

-- The text of the arguments of a call: how encoding/json reads and writes it.
pub record JsonText : Type 0 where
  pub decode : String → Option Json
  pub encode : Json → String

pub record AnthropicMessage : Type 0 where
  pub role : String
  pub content : Content

abbrev as_struct : Json → Option Fields
as_struct null = some end
as_struct (obj fs) = some fs
as_struct _ = none

infixl 5 ◌>>=◌
abbrev ◌>>=◌ {ℓ κ} : {A : Type ℓ} {B : Type κ} → Option A → (A → Option B) → Option B
none >>= k = none
some a >>= k = k a

-- An `any` that is decoded from null is nil.
abbrev any_of : Option Json → Option Json
any_of (some null) = none
any_of v = v

abbrev block_of : Json → Option AnthropicContentBlock
block_of v = do
  fs ← as_struct v
  type ← field_string "type" fs
  text ← field_string "text" fs
  thinking ← field_string "thinking" fs
  id ← field_string "id" fs
  name ← field_string "name" fs
  tool_use_id ← field_string "tool_use_id" fs
  some (record {
    type = type;
    text = text;
    thinking = thinking;
    id = id;
    name = name;
    input = get "input" fs;
    tool_use_id = tool_use_id;
    content = any_of (get "content" fs);
  })

-- The items that are blocks.
abbrev pub blocks_of : List Json → List AnthropicContentBlock
blocks_of [] = []
blocks_of (v ∷ vs) =
    let rest = blocks_of vs in elim (block_of v) [ none ↦ rest | some b ↦ b ∷ rest ]

unfoldable pub decode_anthropic_blocks : Content → Option (List AnthropicContentBlock)
decode_anthropic_blocks (anthropic_blocks bs) = some bs
decode_anthropic_blocks (decoded (arr vs)) = some (blocks_of (elements vs))
decode_anthropic_blocks _ = none

abbrev block_texts : List AnthropicContentBlock → List String
block_texts [] = []
block_texts (b ∷ bs) =
    let rest = block_texts bs in
    if str_eq b.type "text" && not (str_eq b.text "") then b.text ∷ rest else rest

-- `extractAnthropicText`, of nil as well. A value that was decoded has the text that
-- `extractTextContent` finds in it: both join what is not empty.
unfoldable pub extract_anthropic_text : Content → String
extract_anthropic_text (anthropic_blocks bs) = join_with " " (block_texts bs)
extract_anthropic_text (decoded v) = extract_text_value v
extract_anthropic_text _ = ""

abbrev pub or_nil : Option Json → Json
or_nil none = null
or_nil (some v) = v

abbrev pub tool_message : AnthropicContentBlock → ChatMessage
tool_message b =
    record (message "tool" (decoded (str (extract_anthropic_text (decoded (or_nil b.content)))))) {
      tool_call_id = b.tool_use_id;
    }

abbrev pub is_result : AnthropicContentBlock → Bool
is_result b = str_eq b.type "tool_result"

abbrev pub is_use : AnthropicContentBlock → Bool
is_use b = str_eq b.type "tool_use"

abbrev other_message : List AnthropicContentBlock → List ChatMessage
other_message [] = []
other_message (b ∷ bs) = message "user" (anthropic_blocks (b ∷ bs)) ∷ []

unfoldable pub convert_anthropic_user_msg : AnthropicMessage → List ChatMessage
convert_anthropic_user_msg m = elim (decode_anthropic_blocks m.content) [
  | none ↦ message "user" (decoded (str (extract_anthropic_text m.content))) ∷ []
  | some bs ↦
      map tool_message (keep is_result bs) ++ other_message (keep (λ b. not (is_result b)) bs)
]

-- What is left of the blocks, or nil.
abbrev pub remaining_content : List AnthropicContentBlock → Content
remaining_content [] = decoded null
remaining_content (b ∷ bs) = anthropic_blocks (b ∷ bs)

module _ (j : JsonText) where
  abbrev arguments_text : Option Json → String
  arguments_text none = "{}"
  arguments_text (some v) = j.encode v

  abbrev pub use_call : AnthropicContentBlock → ToolCall
  use_call b = record {
    id = b.id;
    type = "function";
    function = record { name = b.name; arguments = arguments_text b.input };
  }

  unfoldable pub convert_anthropic_assistant_msg : AnthropicMessage → ChatMessage
  convert_anthropic_assistant_msg m = elim (decode_anthropic_blocks m.content) [
    | none ↦ message "assistant" (decoded (str (extract_anthropic_text m.content)))
    | some bs ↦ record (message "assistant" (remaining_content (keep (λ b. not (is_use b)) bs))) {
      tool_calls = map use_call (keep is_use bs);
    }
  ]

  abbrev convert_message : AnthropicMessage → List ChatMessage
  convert_message m =
      if str_eq m.role "user"
      then convert_anthropic_user_msg m
      else if str_eq m.role "assistant"
      then convert_anthropic_assistant_msg m ∷ []
      else message m.role (decoded (str (extract_anthropic_text m.content))) ∷ []

  unfoldable pub convert_messages : List AnthropicMessage → List ChatMessage
  unfolding convert_anthropic_user_msg convert_anthropic_assistant_msg
  convert_messages [] = []
  convert_messages (m ∷ ms) = convert_message m ++ convert_messages ms

  -- `AnthropicToChatMessages`.
  unfoldable pub anthropic_to_chat_messages : Content → List AnthropicMessage → List ChatMessage
  unfolding convert_messages
  anthropic_to_chat_messages system ms =
      let sys = extract_anthropic_text system in
      if str_eq sys ""
      then convert_messages ms
      else message "system" (decoded (str sys)) ∷ convert_messages ms
