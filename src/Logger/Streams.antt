-- ===== src/Logger/Streams.antt =====
-- proxy/internal/logger/parse.go: what the log keeps of a response that is streamed.
pub mod Calls
use lazy_vllm.Prelude.{
  ℕ, suc, String, ◌<>◌, Bool, true, false, Option, none, some, List, [], ◌∷◌, ◌++◌, map, length,
  str_eq, leb, if◌then◌else◌, ◌==◌,
}
use lazy_vllm.Json.{ℤ, pos, negsuc, Json, Body, doc, malformed, get, field_string, inner_string}
use lazy_vllm.Json.Codec.{Codec}
use lazy_vllm.Json.Structs.{◌>>=◌, as_struct, struct_at, list_at, int_at, each}
use lazy_vllm.Text.{strip_prefix, nat_eq}
use lazy_vllm.Text.Same.{same}
use lazy_vllm.Text.Bytes.{trim_bytes}
use lazy_vllm.Obs.{Bytes}
use lazy_vllm.Obs.Stream.{data_prefix, split_lines}
use lazy_vllm.Logger.{ToolCall}
use lazy_vllm.Logger.Tools.{Tools, blank_call, accumulate, assign, extend_last, sorted_tool_calls}
use lazy_vllm.Logger.Outputs.{OutputLog, parse_openai_json, parse_anthropic_json}

-- What a stream has given so far.
pub record Gathered : Type 0 where
  pub content : String
  pub reasoning : String
  pub tools : Tools

abbrev pub nothing_gathered : Gathered
nothing_gathered = record { content = ""; reasoning = ""; tools = [] }

unfoldable pub output_of : Gathered → OutputLog
output_of g = record {
  reasoning = g.reasoning;
  content = g.content;
  tool_calls = sorted_tool_calls g.tools;
}

-- A piece of a tool call in a chunk.
pub record Fragment : Type 0 where
  pub index : ℤ
  pub id : String
  pub type : String
  pub name : String
  pub arguments : String

pub record Delta : Type 0 where
  pub content : String
  pub reasoning : String
  pub tool_calls : List Fragment

abbrev fragment_of : Json → Option Fragment
fragment_of v = do
  fs ← as_struct v
  index ← int_at "index" fs
  id ← field_string "id" fs
  type ← field_string "type" fs
  ff ← struct_at "function" fs
  name ← field_string "name" ff
  arguments ← field_string "arguments" ff
  some (record { index = index; id = id; type = type; name = name; arguments = arguments })

abbrev delta_of : Json → Option Delta
delta_of v = do
  fs ← as_struct v
  delta ← struct_at "delta" fs
  content ← field_string "content" delta
  reasoning ← field_string "reasoning" delta
  vs ← list_at "tool_calls" delta
  calls ← each fragment_of vs
  some (record { content = content; reasoning = reasoning; tool_calls = calls })

-- The deltas of the choices of a chunk.
unfoldable pub deltas_in : Json → Option (List Delta)
deltas_in v = do fs ← as_struct v; vs ← list_at "choices" fs; each delta_of vs

unfoldable pub add_fragments : List Fragment → Tools → Tools
add_fragments [] m = m
add_fragments (f ∷ fs) m =
    add_fragments fs (accumulate f.index (blank_call f.id f.type f.name) f.arguments m)

unfoldable pub add_delta : Delta → Gathered → Gathered
add_delta d g = record {
  content = g.content <> d.content;
  reasoning = g.reasoning <> d.reasoning;
  tools = add_fragments d.tool_calls g.tools;
}

abbrev pub first_delta_into : Option (List Delta) → Gathered → Gathered
first_delta_into (some (d ∷ _)) g = add_delta d g
first_delta_into _ g = g

-- An event of the Anthropic API.
pub record StreamEvent : Type 0 where
  pub type : String
  pub delta_type : String
  pub text : String
  pub thinking : String
  pub partial_json : String
  pub block_type : String
  pub block_id : String
  pub block_name : String

unfoldable pub stream_event : Json → Option StreamEvent
stream_event v = do
  fs ← as_struct v
  type ← field_string "type" fs
  delta ← struct_at "delta" fs
  delta_type ← field_string "type" delta
  text ← field_string "text" delta
  thinking ← field_string "thinking" delta
  partial_json ← field_string "partial_json" delta
  block ← struct_at "content_block" fs
  block_type ← field_string "type" block
  block_id ← field_string "id" block
  block_name ← field_string "name" block
  some (record {
    type = type;
    delta_type = delta_type;
    text = text;
    thinking = thinking;
    partial_json = partial_json;
    block_type = block_type;
    block_id = block_id;
    block_name = block_name;
  })

unfoldable pub add_event : StreamEvent → Gathered → Gathered
add_event e g =
    if str_eq e.type "content_block_start"
    then (if str_eq e.block_type "tool_use"
        then record g {
          tools =
              assign (pos (length g.tools)) (blank_call e.block_id "function" e.block_name) g.tools;
        }
        else g)
    else if str_eq e.type "content_block_delta"
    then (if str_eq e.delta_type "text_delta"
        then record g { content = g.content <> e.text }
        else if str_eq e.delta_type "thinking_delta"
        then record g { reasoning = g.reasoning <> e.thinking }
        else if str_eq e.delta_type "input_json_delta"
        then record g { tools = extend_last e.partial_json g.tools }
        else g)
    else g

abbrev pub event_into : Option StreamEvent → Gathered → Gathered
event_into none g = g
event_into (some e) g = add_event e g

-- The end mark of a stream, which stands in square brackets.
abbrev pub done_mark : Bytes
done_mark = b'[' ∷ b'D' ∷ b'O' ∷ b'N' ∷ b'E' ∷ b']' ∷ []

-- What stands behind `data: ` on a line.
unfoldable pub data_of : Bytes → Option Bytes
unfolding strip_prefix
data_of line = strip_prefix data_prefix (trim_bytes line)

module _ (codec : Codec) where
  unfoldable pub openai_chunk : Bytes → Gathered → Gathered
  openai_chunk p g = first_delta_into (codec.decode p >>= deltas_in) g

  unfoldable pub anthropic_chunk : Bytes → Gathered → Gathered
  anthropic_chunk p g = event_into (codec.decode p >>= stream_event) g

  abbrev pub openai_line : Option Bytes → (Gathered → Gathered) → Gathered → Gathered
  openai_line none next g = next g
  openai_line (some p) next g = if same p done_mark then g else next (openai_chunk p g)

  -- The loops over the lines.
  unfoldable pub openai_lines : List Bytes → Gathered → Gathered
  openai_lines [] g = g
  openai_lines (l ∷ ls) g = openai_line (data_of l) (openai_lines ls) g

  abbrev pub anthropic_line : Option Bytes → Gathered → Gathered
  anthropic_line none g = g
  anthropic_line (some p) g = anthropic_chunk p g

  unfoldable pub anthropic_lines : List Bytes → Gathered → Gathered
  anthropic_lines [] g = g
  anthropic_lines (l ∷ ls) g = anthropic_lines ls (anthropic_line (data_of l) g)

  -- `parseOpenAISSE`.
  unfoldable pub parse_openai_sse : Bytes → OutputLog
  parse_openai_sse body = output_of (openai_lines (split_lines body) nothing_gathered)

  -- `parseAnthropicSSE`.
  unfoldable pub parse_anthropic_sse : Bytes → OutputLog
  parse_anthropic_sse body = output_of (anthropic_lines (split_lines body) nothing_gathered)

  -- A response that is not streamed is read as a document.
  abbrev pub body_of : Option Json → Body
  body_of none = malformed ""
  body_of (some v) = doc v

  -- `ParseOpenAIOutput`.
  unfoldable pub parse_openai_output : Bytes → Bool → OutputLog
  parse_openai_output body streaming =
      if streaming then parse_openai_sse body else parse_openai_json (body_of (codec.decode body))

  -- `ParseAnthropicOutput`.
  unfoldable pub parse_anthropic_output : (Json → String) → Bytes → Bool → OutputLog
  parse_anthropic_output text_of body streaming =
      if streaming
      then parse_anthropic_sse body
      else parse_anthropic_json text_of (body_of (codec.decode body))
