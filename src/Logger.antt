-- ===== src/Logger.antt =====
-- proxy/internal/logger/parse.go: the messages of a request as the session log keeps them. A
-- `json.RawMessage` is the document in it, and `none` where it is nil; the text of a document is a
-- parameter, `text_of`.
pub mod Calls
pub mod Messages
pub mod Outputs
pub mod Tools
pub mod Streams
use lazy_vllm.Prelude.{
  ℕ, ◌+◌, String, ◌<>◌, Bool, true, false, Option, none, some, List, [], ◌∷◌, ◌++◌, map, str_eq,
  if◌then◌else◌,
}
use lazy_vllm.Json.{
  Json, null, str, obj, arr, end, field, Fields, Body, Map, null_map, map_of, get, as_map, as_array,
  as_string, entry, of_list, elements, field_string, string_or_zero, doc, malformed,
}
use lazy_vllm.Server.{body_map}

infixl 5 ◌>>=◌
abbrev pub ◌>>=◌ {ℓ κ} : {A : Type ℓ} {B : Type κ} → Option A → (A → Option B) → Option B
none >>= k = none
some a >>= k = k a

pub record ToolFunc : Type 0 where
  pub name : String
  pub arguments : String

pub record ToolCall : Type 0 where
  pub id : String
  pub type : String
  pub function : ToolFunc

abbrev pub unless_empty : String → String → Fields → Fields
unless_empty k v fs = if str_eq v "" then fs else field k (str v) fs

abbrev function_json : ToolFunc → Json
function_json f = obj (field "name" (str f.name) (field "arguments" (str f.arguments) end))

-- `json.Marshal` of a tool call.
abbrev pub call_json : ToolCall → Json
call_json c = obj (
    unless_empty "id" c.id
      (unless_empty "type" c.type (field "function" (function_json c.function) end)))

pub record Message : Type 0 where
  pub role : String
  pub content : Option Json
  pub reasoning_content : String
  pub tool_calls : Option Json
  pub tool_call_id : String
  pub name : String

-- `ExtractTools`: the document that it returns the text of.
unfoldable pub extract_tools : Body → Json
extract_tools body = elim (body_map body) [
  | none ↦ null
  | some m ↦ elim (entry "tools" m) [
    | none ↦ null
    | some null ↦ null
    | some v ↦ elim (as_array v) [ none ↦ null | some tools ↦ arr (of_list tools) ]
  ]
]

pub record AnthropicMessage : Type 0 where
  pub role : String
  pub content : Option Json

pub record AnthropicBlock : Type 0 where
  pub type : String
  pub text : String
  pub thinking : String
  pub id : String
  pub name : String
  pub input : Option Json
  pub tool_use_id : String
  pub content : Option Json

abbrev block_of : Map → Option AnthropicBlock
block_of null_map = some (record {
  type = "";
  text = "";
  thinking = "";
  id = "";
  name = "";
  input = none;
  tool_use_id = "";
  content = none;
})
block_of (map_of fs) = do
  type ← field_string "type" fs
  text ← field_string "text" fs
  thinking ← field_string "thinking" fs
  id ← field_string "id" fs
  name ← field_string "name" fs
  tool_use_id ← field_string "tool_use_id" fs
  some (record {
    type = type;
    text = text;
    thinking = thinking;
    id = id;
    name = name;
    input = get "input" fs;
    tool_use_id = tool_use_id;
    content = get "content" fs;
  })

abbrev all_blocks : List Json → Option (List AnthropicBlock)
all_blocks [] = some []
all_blocks (v ∷ vs) = do m ← as_map v; b ← block_of m; bs ← all_blocks vs; some (b ∷ bs)

-- `json.Unmarshal(raw, &blocks)`; a nil `raw` is no JSON.
unfoldable pub decode_blocks : Option Json → Option (List AnthropicBlock)
decode_blocks raw = do v ← raw; vs ← as_array v; all_blocks vs

-- The texts of the text blocks, one after the other.
unfoldable pub text_parts : List AnthropicBlock → String
text_parts [] = ""
text_parts (b ∷ bs) =
    let rest = text_parts bs in if str_eq b.type "text" then b.text <> rest else rest

-- `extractSystemText`.
unfoldable pub extract_system_text : Option Json → String
extract_system_text raw = elim (raw >>= as_string) [
  | some s ↦ s
  | none ↦ elim (decode_blocks raw) [ none ↦ "" | some blocks ↦ text_parts blocks ]
]

-- The text of a tool result.
unfoldable pub result_text : AnthropicBlock → String
result_text b = elim (b.content >>= as_string) [
  | some s ↦ s
  | none ↦ elim (decode_blocks b.content) [ none ↦ "" | some blocks ↦ text_parts blocks ]
]

abbrev pub plain : String → Option Json → Message
plain role content = record {
  role = role;
  content = content;
  reasoning_content = "";
  tool_calls = none;
  tool_call_id = "";
  name = "";
}

abbrev pub tool_message : AnthropicBlock → Message
tool_message b = record (plain "tool" (some (str (result_text b)))) { tool_call_id = b.tool_use_id }

-- A message for each tool result.
unfoldable pub tool_messages : List AnthropicBlock → List Message
tool_messages [] = []
tool_messages (b ∷ bs) =
    let rest = tool_messages bs in
    if str_eq b.type "tool_result" then tool_message b ∷ rest else rest

abbrev pub user_message : String → List Message
user_message text = if str_eq text "" then [] else plain "user" (some (str text)) ∷ []

-- `convertAnthropicUserBlocks`.
unfoldable pub convert_anthropic_user_blocks : List AnthropicBlock → List Message
convert_anthropic_user_blocks blocks = tool_messages blocks ++ user_message (text_parts blocks)

unfoldable pub thinking_parts : List AnthropicBlock → String
thinking_parts [] = ""
thinking_parts (b ∷ bs) =
    let rest = thinking_parts bs in if str_eq b.type "thinking" then b.thinking <> rest else rest

-- `json.Marshal` of the calls, where there are any.
abbrev pub calls_json : List ToolCall → Option Json
calls_json [] = none
calls_json (c ∷ cs) = some (arr (of_list (map call_json (c ∷ cs))))

abbrev sys_message : String → List Message
sys_message sys = if str_eq sys "" then [] else plain "system" (some (str sys)) ∷ []

abbrev message_in : Map → Option AnthropicMessage
message_in null_map = some (record { role = ""; content = none })
message_in (map_of fs) = do
  role ← field_string "role" fs
  some (record { role = role; content = get "content" fs })

abbrev messages_of : List Json → Option (List AnthropicMessage)
messages_of [] = some []
messages_of (v ∷ vs) = do m ← as_map v; a ← message_in m; rest ← messages_of vs; some (a ∷ rest)

abbrev or_no_messages : Option Json → Option (List AnthropicMessage)
or_no_messages none = some []
or_no_messages (some v) = do vs ← as_array v; messages_of vs

module _ (text_of : Json → String) where
  abbrev pub arguments_of : Option Json → String
  arguments_of none = "{}"
  arguments_of (some v) = text_of v

  abbrev pub tool_call : AnthropicBlock → ToolCall
  tool_call b = record {
    id = b.id;
    type = "function";
    function = record { name = b.name; arguments = arguments_of b.input };
  }

  unfoldable pub tool_calls_of : List AnthropicBlock → List ToolCall
  tool_calls_of [] = []
  tool_calls_of (b ∷ bs) =
      let rest = tool_calls_of bs in if str_eq b.type "tool_use" then tool_call b ∷ rest else rest

  -- `convertAnthropicAssistantBlocks`.
  unfoldable pub convert_anthropic_assistant_blocks : List AnthropicBlock → Message
  convert_anthropic_assistant_blocks blocks =
      record (plain "assistant" (some (str (text_parts blocks)))) {
        reasoning_content = thinking_parts blocks;
        tool_calls = calls_json (tool_calls_of blocks);
      }

  abbrev pub convert_blocks : AnthropicMessage → List AnthropicBlock → List Message
  convert_blocks m blocks =
      if str_eq m.role "user"
      then convert_anthropic_user_blocks blocks
      else if str_eq m.role "assistant"
      then convert_anthropic_assistant_blocks blocks ∷ []
      else plain m.role m.content ∷ []

  -- A content that is a string, or blocks, or neither.
  abbrev pub converted :
      AnthropicMessage → Option String → Option (List AnthropicBlock) → List Message
  converted m (some s) blocks = plain m.role (some (str s)) ∷ []
  converted m none none = plain m.role m.content ∷ []
  converted m none (some blocks) = convert_blocks m blocks

  -- `convertAnthropicMessage`.
  unfoldable pub convert_anthropic_message : AnthropicMessage → List Message
  convert_anthropic_message m = converted m (m.content >>= as_string) (decode_blocks m.content)

  abbrev pub convert_all : List AnthropicMessage → List Message
  convert_all [] = []
  convert_all (m ∷ ms) = convert_anthropic_message m ++ convert_all ms

  -- `ParseAnthropicMessages`.
  unfoldable pub parse_anthropic_messages : Body → List Message
  parse_anthropic_messages body = elim (body_map body) [
    | none ↦ []
    | some m ↦ elim (or_no_messages (entry "messages" m)) [
      | none ↦ []
      | some ms ↦ sys_message (extract_system_text (entry "system" m)) ++ convert_all ms
    ]
  ]
