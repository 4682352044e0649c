-- ===== src/Agent/Logging/Stream.antt =====
-- agent/internal/agent/executor.go: `streamLogger`, which logs a streamed response while it is read.
-- `Seen` is what the lines change, and `debug` are the lines that are given to slog.Debug.
use lazy_vllm.Prelude.{
  ℕ, String, Bool, not, ◌&&◌, ◌||◌, Option, none, some, List, [], ◌∷◌, ◌++◌, length, str_eq,
  if◌then◌else◌, ◌==◌,
}
use lazy_vllm.Json.{Json, field_string}
use lazy_vllm.Json.Codec.{Codec}
use lazy_vllm.Json.Structs.{◌>>=◌, as_struct, struct_at, list_at, each}
use lazy_vllm.Text.{strip_prefix, nat_eq}
use lazy_vllm.Text.Same.{same}
use lazy_vllm.Text.Bytes.{trim_bytes}
use lazy_vllm.Obs.{Bytes}
use lazy_vllm.Obs.Stream.{data_prefix}
use lazy_vllm.Logger.Outputs.{call_of}
use lazy_vllm.Logger.Tools.{sorted_tool_calls}
use lazy_vllm.Logger.Streams.{Gathered, done_mark, openai_chunk, anthropic_chunk}
use lazy_vllm.Agent.{ChatMessage, ApiFormat, openai, anthropic}
use lazy_vllm.Agent.Model.{ModelResponse}
use lazy_vllm.Agent.Logging.{RequestLog, add_call}

pub data DebugLine : Type 0 where
  stream_finish : String → String → DebugLine
  stream_chunk : String → String → String → ℕ → DebugLine
  tool_chunk : String → String → DebugLine
  text_chunk : String → String → DebugLine
  thinking_chunk : String → String → DebugLine

pub record Seen : Type 0 where
  pub format : ApiFormat
  pub response_id : String
  pub req_log : Option RequestLog
  pub node_id : String
  pub input_msgs : List ChatMessage
  pub accum : Gathered
  pub debug : List DebugLine

pub record StreamLogger : Type 0 where
  pub line_buf : Bytes
  pub seen : Seen

-- The fields of a choice that are logged.
pub record Choice : Type 0 where
  pub content : String
  pub reasoning : String
  pub calls : ℕ
  pub finish_reason : String

-- (The `*string` of the finish reason, where nil is taken as empty.)
abbrev choice_of : Json → Option Choice
choice_of v = do
  fs ← as_struct v
  delta ← struct_at "delta" fs
  content ← field_string "content" delta
  reasoning ← field_string "reasoning" delta
  vs ← list_at "tool_calls" delta
  calls ← each call_of vs
  finish_reason ← field_string "finish_reason" fs
  some (record {
    content = content;
    reasoning = reasoning;
    calls = length calls;
    finish_reason = finish_reason;
  })

unfoldable pub openai_choices : Json → Option (String × List Choice)
openai_choices v = do
  fs ← as_struct v
  id ← field_string "id" fs
  vs ← list_at "choices" fs
  cs ← each choice_of vs
  some (id, cs)

abbrev pub unless {ℓ} : {A : Type ℓ} → Bool → A → List A
unless b x = if b then [] else x ∷ []

abbrev named : String → String → String
named old id = if str_eq old "" then id else old

abbrev choice_lines : String → Choice → List DebugLine
choice_lines id c =
    unless (str_eq c.finish_reason "") (stream_finish id c.finish_reason)
    ++ unless (str_eq c.content "" && str_eq c.reasoning "" && c.calls == 0)
        (stream_chunk id c.content c.reasoning c.calls)

-- What a chunk leaves as the response's id, and the lines it logs under that.
abbrev id_after_choices : Option (String × List Choice) → String → String
id_after_choices (some (id, c ∷ _)) old = named old id
id_after_choices _ old = old

abbrev lines_of_choices : Option (String × List Choice) → String → List DebugLine
lines_of_choices (some (_, c ∷ _)) id = choice_lines id c
lines_of_choices _ id = []

-- The fields of an event that are logged.
pub record LoggedEvent : Type 0 where
  pub type : String
  pub message_id : String
  pub block_type : String
  pub block_name : String
  pub delta_type : String
  pub text : String
  pub thinking : String
  pub stop_reason : String

unfoldable pub logged_event : Json → Option LoggedEvent
logged_event v = do
  fs ← as_struct v
  type ← field_string "type" fs
  message ← struct_at "message" fs
  message_id ← field_string "id" message
  block ← struct_at "content_block" fs
  block_type ← field_string "type" block
  block_name ← field_string "name" block
  delta ← struct_at "delta" fs
  delta_type ← field_string "type" delta
  text ← field_string "text" delta
  thinking ← field_string "thinking" delta
  stop_reason ← field_string "stop_reason" delta
  some (record {
    type = type;
    message_id = message_id;
    block_type = block_type;
    block_name = block_name;
    delta_type = delta_type;
    text = text;
    thinking = thinking;
    stop_reason = stop_reason;
  })

abbrev event_lines : String → LoggedEvent → List DebugLine
event_lines id e =
    if str_eq e.type "message_delta"
    then unless (str_eq e.stop_reason "") (stream_finish id e.stop_reason)
    else if str_eq e.type "content_block_start"
    then unless (not (str_eq e.block_type "tool_use")) (tool_chunk id e.block_name)
    else if str_eq e.type "content_block_delta"
    then (if str_eq e.delta_type "text_delta"
        then unless (str_eq e.text "") (text_chunk id e.text)
        else if str_eq e.delta_type "thinking_delta"
        then unless (str_eq e.thinking "") (thinking_chunk id e.thinking)
        else [])
    else []

abbrev starts : LoggedEvent → Bool
starts e = str_eq e.type "message_start" && not (str_eq e.message_id "")

abbrev id_after_event : Option LoggedEvent → String → String
id_after_event none old = old
id_after_event (some e) old = if starts e then e.message_id else old

-- Under the id that there was before.
abbrev lines_of_event : Option LoggedEvent → String → List DebugLine
lines_of_event none id = []
lines_of_event (some e) id = if starts e then [] else event_lines id e

abbrev accum_if : Option RequestLog → (Gathered → Gathered) → Gathered → Gathered
accum_if none add g = g
accum_if (some _) add g = add g

abbrev pub response_of : Gathered → ModelResponse
response_of g = record {
  content = g.content;
  reasoning = g.reasoning;
  tool_calls = sorted_tool_calls g.tools;
}

abbrev pub flush : ℕ → Option RequestLog → Seen → Option RequestLog
flush now none s = none
flush now (some r) s =
    some (add_call s.node_id "respond" 0 s.input_msgs (response_of s.accum) now r)

-- `flushToLog`, at the time `now`.
unfoldable pub flush_to_log : ℕ → Seen → Seen
flush_to_log now s = record s { req_log = flush now s.req_log s }

module _ (codec : Codec) where
  -- `logOpenAIChunk`.
  unfoldable pub log_openai_chunk : Bytes → Seen → Seen
  log_openai_chunk p s =
      let chunk = codec.decode p >>= openai_choices in
      let id = id_after_choices chunk s.response_id in
      record s { response_id = id; debug = s.debug ++ lines_of_choices chunk id }

  -- `logAnthropicChunk`.
  unfoldable pub log_anthropic_chunk : Bytes → Seen → Seen
  log_anthropic_chunk p s =
      let event = codec.decode p >>= logged_event in
      record s {
        response_id = id_after_event event s.response_id;
        debug = s.debug ++ lines_of_event event s.response_id;
      }

  -- `accumOpenAIChunk`, where there is a log.
  unfoldable pub accum_openai_chunk : Bytes → Seen → Seen
  accum_openai_chunk p s = record s { accum = accum_if s.req_log (openai_chunk codec p) s.accum }

  -- `accumAnthropicChunk`, where there is a log.
  unfoldable pub accum_anthropic_chunk : Bytes → Seen → Seen
  accum_anthropic_chunk p s = record s {
    accum = accum_if s.req_log (anthropic_chunk codec p) s.accum;
  }

  abbrev pub process_chunk : ApiFormat → Bytes → Seen → Seen
  process_chunk anthropic p s = accum_anthropic_chunk p (log_anthropic_chunk p s)
  process_chunk openai p s = accum_openai_chunk p (log_openai_chunk p s)

  abbrev pub process_data : Option Bytes → Seen → Seen
  process_data none s = s
  process_data (some p) s = if same p [] || same p done_mark then s else process_chunk s.format p s

  -- `processLine`, of a line that is trimmed.
  unfoldable pub process_line : Bytes → Seen → Seen
  process_line line s = process_data (strip_prefix data_prefix line) s

  -- A byte that is read.
  unfoldable pub read_byte : ℕ → StreamLogger → StreamLogger
  read_byte b s =
      if b == 10
      then record { line_buf = []; seen = process_line (trim_bytes s.line_buf) s.seen }
      else record s { line_buf = s.line_buf ++ b ∷ [] }

  unfoldable pub read_bytes : Bytes → StreamLogger → StreamLogger
  read_bytes [] s = s
  read_bytes (b ∷ bs) s = read_bytes bs (read_byte b s)

  abbrev pub last_line : Bytes → Seen → Seen
  last_line [] s = s
  last_line (b ∷ bs) s = process_line (trim_bytes (b ∷ bs)) s

  abbrev pub ended : ℕ → StreamLogger → StreamLogger
  ended now s = record { line_buf = []; seen = flush_to_log now (last_line s.line_buf s.seen) }

  -- `Read`, by the bytes that the reader gives and whether it gives an error.
  unfoldable pub read : ℕ → Bytes → Bool → StreamLogger → StreamLogger
  read now p failed s = let t = read_bytes p s in if failed then ended now t else t
