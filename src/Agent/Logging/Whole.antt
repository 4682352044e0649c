-- ===== src/Agent/Logging/Whole.antt =====
-- agent/internal/agent/executor.go: the log of a response that is not streamed.
use lazy_vllm.Prelude.{
  ℕ, ◌+◌, String, ◌<>◌, Option, none, some, List, [], ◌∷◌, ◌++◌, length, str_eq, if◌then◌else◌,
}
use lazy_vllm.Json.{Json, null, Body, doc, malformed, get, field_string}
use lazy_vllm.Json.Structs.{◌>>=◌, as_struct, struct_at, list_at, each}
use lazy_vllm.Logger.Outputs.{OutputBlock, output_blocks, block_call, call_of}
use lazy_vllm.Agent.{ChatMessage, ApiFormat, openai, anthropic}
use lazy_vllm.Agent.History.{extract_text_value}
use lazy_vllm.Agent.Model.{ModelResponse, choices_in, first_choice}
use lazy_vllm.Agent.Logging.{RequestLog, add_call}

-- `parseOpenAINonStreamResponse`: nothing is nil.
unfoldable pub parse_openai_non_stream_response : Body → Option ModelResponse
parse_openai_non_stream_response body = first_choice (choices_in body)

module _ (text_of : Json → String) where
  abbrev pub add_block : OutputBlock → ModelResponse → ModelResponse
  add_block b r =
      if str_eq b.type "text"
      then record r { content = r.content <> b.text }
      else if str_eq b.type "thinking"
      then record r { reasoning = r.reasoning <> b.thinking }
      else if str_eq b.type "tool_use"
      then record r { tool_calls = r.tool_calls ++ block_call text_of b ∷ [] }
      else r

  unfoldable pub add_blocks : List OutputBlock → ModelResponse → ModelResponse
  add_blocks [] r = r
  add_blocks (b ∷ bs) r = add_blocks bs (add_block b r)

  abbrev empty_response : ModelResponse
  empty_response = record { content = ""; reasoning = ""; tool_calls = [] }

  -- `parseAnthropicNonStreamResponse`.
  unfoldable pub parse_anthropic_non_stream_response : Body → Option ModelResponse
  parse_anthropic_non_stream_response body = elim (output_blocks body) [
    | none ↦ none
    | some bs ↦ some (add_blocks bs empty_response)
  ]

  -- `parseNonStreamResponse`.
  unfoldable pub parse_non_stream_response : ApiFormat → Body → Option ModelResponse
  parse_non_stream_response openai body = parse_openai_non_stream_response body
  parse_non_stream_response anthropic body = parse_anthropic_non_stream_response body

  abbrev added : String → List ChatMessage → ℕ → Option ModelResponse → RequestLog → RequestLog
  added node msgs now none r = r
  added node msgs now (some mr) r = add_call node "respond" 0 msgs mr now r

  -- What `runRespond` does with the log of its request.
  unfoldable pub log_whole :
      ApiFormat → String → List ChatMessage → ℕ → Body → Option RequestLog → Option RequestLog
  log_whole f node msgs now body none = none
  log_whole f node msgs now body (some r) =
      some (added node msgs now (parse_non_stream_response f body) r)

-- The line that `logNonStreamResponse` gives to slog.Debug, if any.
pub record RespondOutput : Type 0 where
  pub id : String
  pub content : String
  pub reasoning : String
  pub tool_calls : ℕ

abbrev or_nil : Option Json → Json
or_nil none = null
or_nil (some v) = v

abbrev logged_message : String → Json → Option RespondOutput
logged_message id v = do
  fs ← as_struct v
  m ← struct_at "message" fs
  reasoning ← field_string "reasoning" m
  vs ← list_at "tool_calls" m
  calls ← each call_of vs
  some (record {
    id = id;
    content = extract_text_value (or_nil (get "content" m));
    reasoning = reasoning;
    tool_calls = length calls;
  })

abbrev first_line : Option (List RespondOutput) → Option RespondOutput
first_line (some (o ∷ _)) = some o
first_line _ = none

abbrev openai_lines : Body → Option (List RespondOutput)
openai_lines (malformed _) = none
openai_lines (doc v) = do
  fs ← as_struct v
  id ← field_string "id" fs
  vs ← list_at "choices" fs
  each (logged_message id) vs

-- `logOpenAINonStreamResponse`.
unfoldable pub log_openai_non_stream_response : Body → Option RespondOutput
log_openai_non_stream_response body = first_line (openai_lines body)

pub record LoggedBlock : Type 0 where
  pub type : String
  pub text : String
  pub thinking : String

abbrev logged_block : Json → Option LoggedBlock
logged_block v = do
  fs ← as_struct v
  type ← field_string "type" fs
  text ← field_string "text" fs
  thinking ← field_string "thinking" fs
  some (record { type = type; text = text; thinking = thinking })

abbrev count_block : LoggedBlock → RespondOutput → RespondOutput
count_block b o =
    if str_eq b.type "text"
    then record o { content = o.content <> b.text }
    else if str_eq b.type "thinking"
    then record o { reasoning = o.reasoning <> b.thinking }
    else if str_eq b.type "tool_use"
    then record o { tool_calls = o.tool_calls + 1 }
    else o

unfoldable pub count_blocks : List LoggedBlock → RespondOutput → RespondOutput
count_blocks [] o = o
count_blocks (b ∷ bs) o = count_blocks bs (count_block b o)

abbrev blocks_logged : Body → Option (String × List LoggedBlock)
blocks_logged (malformed _) = none
blocks_logged (doc v) = do
  fs ← as_struct v
  id ← field_string "id" fs
  vs ← list_at "content" fs
  bs ← each logged_block vs
  some (id, bs)

-- `logAnthropicNonStreamResponse`.
unfoldable pub log_anthropic_non_stream_response : Body → Option RespondOutput
log_anthropic_non_stream_response body = elim (blocks_logged body) [
  | none ↦ none
  | some (id, bs) ↦
      some (count_blocks bs (record { id = id; content = ""; reasoning = ""; tool_calls = 0 }))
]

-- `logNonStreamResponse`.
unfoldable pub log_non_stream_response : ApiFormat → Body → Option RespondOutput
log_non_stream_response openai body = log_openai_non_stream_response body
log_non_stream_response anthropic body = log_anthropic_non_stream_response body
