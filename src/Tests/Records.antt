-- ===== src/Tests/Records.antt =====
-- Streams as the log of the proxy and that of the agent keep them, and the files of the agent's log.
use lazy_vllm.Prelude.{
  ℕ, zero, suc, length, ap, ◌∙◌, ◌+◌, ◌≡◌, refl, true, Option, none, some, [], ◌∷◌, map, ◌==◌,
  if◌then◌else◌, arith,
}
use lazy_vllm.Json.{ℤ, pos, Json, null, str, int, arr, obj, end, field, nil, cons, doc}
use lazy_vllm.Json.Codec.{Codec}
use lazy_vllm.Text.Chars.{Chars, chars, of_chars, chars-of_chars}
use lazy_vllm.Obs.{Bytes}
use lazy_vllm.Obs.Stream.{split_lines}
use lazy_vllm.Logger.Tools.{Tools}
use lazy_vllm.Logger.Tools.Sorted.{find, Increasing}
use lazy_vllm.Logger.Streams.{parse_openai_sse}
use lazy_vllm.Logger.Streams.Calls.{built, fragments, parse_openai_sse-built}
use lazy_vllm.Agent.{anthropic}
use lazy_vllm.Agent.Logging.{CallLog, RequestLog}
use lazy_vllm.Agent.Logging.Chunks.{read_stream, joined}
use lazy_vllm.Agent.Logging.Agreement.{new_seen, respond_entry, read_stream-parsed}
use lazy_vllm.Agent.Logging.Disk.{Clock}
use lazy_vllm.Agent.Logging.Files.{save, get_log, found, finished, find_file}
use lazy_vllm.Agent.Logging.Files.Saved.{get_log-save}

-- A chunk with a piece of a tool call, written "{}", and an event of text, written "<>".
abbrev chunk : Json
chunk = obj (
    field "choices"
      (arr (
        cons
          (obj (
            field "delta"
              (obj (
                field "tool_calls"
                  (arr (cons (obj (field "index" (int (pos 3)) (field "id" (str "a") end))) nil))
                  end))
              end))
          nil))
      end)

abbrev event : Json
event = obj (
    field "type" (str "content_block_delta")
      (field "delta" (obj (field "type" (str "text_delta") (field "text" (str "4") end))) end))

abbrev decode : Bytes → Option Json
decode [] = none
decode (b ∷ bs) = if b == b'{' then some chunk else if b == b'<' then some event else none

abbrev codec : Codec
codec = record { decode = decode; encode = λ v. [] }

-- "data: {}".
abbrev openai_body : Bytes
openai_body = b'd' ∷ b'a' ∷ b't' ∷ b'a' ∷ b':' ∷ b' ' ∷ b'{' ∷ b'}' ∷ []

parse_openai_sse-built_example :
    (m : Tools) × ((parse_openai_sse codec openai_body).tool_calls ≡ map (λ e. e.1) m)
    × Increasing m
    × ((i : ℤ) → find i m ≡ built i (fragments codec (split_lines openai_body)))
parse_openai_sse-built_example = parse_openai_sse-built codec openai_body

abbrev log : RequestLog
log = record {
  id = "r1";
  started_at = 5;
  finished_at = 0;
  duration_ms = 0;
  format = "anthropic";
  request_path = "/v1/messages";
  request_headers = [];
  request_body = doc null;
  calls = [];
}

-- "data: <>" in two reads.
abbrev first_read : Bytes
first_read = b'd' ∷ b'a' ∷ b't' ∷ []

abbrev last_read : Bytes
last_read = b'a' ∷ b':' ∷ b' ' ∷ b'<' ∷ b'>' ∷ 10 ∷ []

read_stream-parsed_example :
    (read_stream codec 7
      (first_read ∷ [])
      last_read
      (record { line_buf = []; seen = new_seen anthropic "answer" [] log })).seen.req_log
    ≡ some (record log {
      calls = respond_entry codec 7 anthropic "answer" [] (joined (first_read ∷ []) last_read) ∷ [];
    })
read_stream-parsed_example =
    read_stream-parsed codec (refl, refl) 7 anthropic "answer" [] log (first_read ∷ []) last_read tt

-- A time is printed as a text of its length, and is of day 20.
abbrev strokes : ℕ → Chars
strokes zero = []
strokes (suc n) = "i" ∷ strokes n

length-strokes : (n : ℕ) → length (strokes n) ≡ n
length-strokes zero = refl
length-strokes (suc n) = ap suc (length-strokes n)

abbrev clock : Clock
clock = record {
  day_of = λ t. 20;
  print = λ t. of_chars (strokes t);
  read = λ s. some (length (chars s));
}

clock_reads : (t : ℕ) → clock.read (clock.print t) ≡ some t
clock_reads t = ap (λ s. some (length s)) (chars-of_chars (strokes t)) ∙ ap some (length-strokes t)

abbrev model_call : CallLog
model_call = record {
  node_id = "answer";
  node_kind = "chain";
  iteration = 1;
  timestamp = 7;
  input = [];
  output = record { reasoning = ""; content = "4"; tool_calls = [] };
}

abbrev called_log : RequestLog
called_log = record log { calls = model_call ∷ [] }

get_log-save_example :
    get_log clock "r1" 3 (20 + 1) (save clock 9 true called_log [])
    ≡ found (record (finished 9 called_log) { calls = model_call ∷ [] })
unfolding find_file
get_log-save_example =
    get_log-save clock clock_reads called_log 9 null [] 1 3 refl (omega arith) (omega arith, tt)
      (omega arith) (refl, tt)
