-- ===== src/Logger/Outputs.antt =====
-- proxy/internal/logger/parse.go: what the log keeps of a response that is not streamed.
use lazy_vllm.Prelude.{String, Option, none, some, List, [], ◌∷◌, ◌++◌, str_eq, ◌<>◌, if◌then◌else◌}
use lazy_vllm.Json.{Json, Body, doc, malformed, get, field_string}
use lazy_vllm.Json.Structs.{◌>>=◌, as_struct, struct_at, list_at, each}
use lazy_vllm.Logger.{ToolCall, arguments_of}

pub record OutputLog : Type 0 where
  pub reasoning : String
  pub content : String
  pub tool_calls : List ToolCall

-- A call of a tool in a message of the OpenAI API.
abbrev pub call_of : Json → Option ToolCall
call_of v = do
  fs ← as_struct v
  id ← field_string "id" fs
  type ← field_string "type" fs
  ff ← struct_at "function" fs
  name ← field_string "name" ff
  arguments ← field_string "arguments" ff
  some (record { id = id; type = type; function = record { name = name; arguments = arguments } })

abbrev choice_of : Json → Option OutputLog
choice_of v = do
  fs ← as_struct v
  message ← struct_at "message" fs
  content ← field_string "content" message
  reasoning ← field_string "reasoning" message
  vs ← list_at "tool_calls" message
  calls ← each call_of vs
  some (record { reasoning = reasoning; content = content; tool_calls = calls })

abbrev pub no_output : OutputLog
no_output = record { reasoning = ""; content = ""; tool_calls = [] }

abbrev first_or_none : Option (List OutputLog) → OutputLog
first_or_none (some (o ∷ _)) = o
first_or_none _ = no_output

abbrev choices_in : Body → Option (List OutputLog)
choices_in (malformed _) = none
choices_in (doc v) = do fs ← as_struct v; vs ← list_at "choices" fs; each choice_of vs

-- `parseOpenAIJSON`.
unfoldable pub parse_openai_json : Body → OutputLog
parse_openai_json body = first_or_none (choices_in body)

-- A block of the content of an Anthropic response.
pub record OutputBlock : Type 0 where
  pub type : String
  pub text : String
  pub thinking : String
  pub id : String
  pub name : String
  pub input : Option Json

unfoldable pub output_block : Json → Option OutputBlock
output_block v = do
  fs ← as_struct v
  type ← field_string "type" fs
  text ← field_string "text" fs
  thinking ← field_string "thinking" fs
  id ← field_string "id" fs
  name ← field_string "name" fs
  some (record {
    type = type;
    text = text;
    thinking = thinking;
    id = id;
    name = name;
    input = get "input" fs;
  })

abbrev pub output_blocks : Body → Option (List OutputBlock)
output_blocks (malformed _) = none
output_blocks (doc v) = do fs ← as_struct v; vs ← list_at "content" fs; each output_block vs

module _ (text_of : Json → String) where
  abbrev pub block_call : OutputBlock → ToolCall
  block_call b = record {
    id = b.id;
    type = "function";
    function = record { name = b.name; arguments = arguments_of text_of b.input };
  }

  abbrev pub add_block : OutputBlock → OutputLog → OutputLog
  add_block b o =
      if str_eq b.type "text"
      then record o { content = o.content <> b.text }
      else if str_eq b.type "thinking"
      then record o { reasoning = o.reasoning <> b.thinking }
      else if str_eq b.type "tool_use"
      then record o { tool_calls = o.tool_calls ++ block_call b ∷ [] }
      else o

  -- The loop over the blocks.
  unfoldable pub add_blocks : List OutputBlock → OutputLog → OutputLog
  add_blocks [] o = o
  add_blocks (b ∷ bs) o = add_blocks bs (add_block b o)

  -- `parseAnthropicJSON`.
  unfoldable pub parse_anthropic_json : Body → OutputLog
  parse_anthropic_json body = elim (output_blocks body) [
    | none ↦ no_output
    | some bs ↦ add_blocks bs no_output
  ]
