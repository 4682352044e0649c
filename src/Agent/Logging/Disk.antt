-- ===== src/Agent/Logging/Disk.antt =====
-- agent/internal/agent/disk_logger.go: the log of a request as the document that is saved. The day
-- and the text of a time are given by `Clock`, and a string of bytes by `ascii`.
use lazy_vllm.Prelude.{ℕ, String, Option, none, some, List, [], ◌∷◌, map, str_eq, if◌then◌else◌}
use lazy_vllm.Json.{
  ℤ, pos, negsuc, Json, null, str, int, arr, obj, end, field, Fields, Body, doc, malformed, get,
  as_string, of_list, field_string,
}
use lazy_vllm.Json.Structs.{◌>>=◌, as_struct, struct_at, list_at, int_at, each}
use lazy_vllm.Text.Chars.{char_eq}
use lazy_vllm.Obs.{Bytes}
use lazy_vllm.Logger.Outputs.{OutputLog, call_of}
use lazy_vllm.Store.{session_id_of}
use lazy_vllm.Agent.{decoded, ChatMessage, chats_json, calls_field, unless_empty}
use lazy_vllm.Agent.Logging.{CallLog, RequestLog}

pub record Clock : Type 0 where
  pub day_of : ℕ → ℕ
  pub print : ℕ → String
  pub read : String → Option ℕ

-- `replayHeaders`, and those that a request has.
abbrev replay_headers : List String
replay_headers =
    "Authorization" ∷ "x-api-key" ∷ "Content-Type" ∷ "anthropic-version" ∷ "anthropic-beta" ∷ []

abbrev captured : (String → String) → List String → List (String × String)
captured header [] = []
captured header (h ∷ hs) =
    let rest = captured header hs in if str_eq (header h) "" then rest else (h, header h) ∷ rest

-- `newLogID`, from 16 random bytes.
unfoldable pub new_log_id : (Bytes → String) → Bytes → String
new_log_id ascii random = ascii (session_id_of random)

-- `Start`, at the time `now`.
unfoldable pub start :
    (Bytes → String) → Bytes → ℕ → String → String → (String → String) → Body → RequestLog
start ascii random now format request_path header body = record {
  id = new_log_id ascii random;
  started_at = now;
  finished_at = 0;
  duration_ms = 0;
  format = format;
  request_path = request_path;
  request_headers = captured header replay_headers;
  request_body = body;
  calls = [];
}

abbrev pub headers_json : List (String × String) → Fields
headers_json [] = end
headers_json ((k, v) ∷ hs) = field k (str v) (headers_json hs)

abbrev pub output_json : OutputLog → Json
output_json o = obj (
    unless_empty "reasoning" o.reasoning
      (unless_empty "content" o.content (calls_field o.tool_calls end)))

abbrev raw_json : Body → Option Json
raw_json (doc v) = some v
raw_json (malformed _) = none

module _ (clock : Clock) where
  abbrev pub call_json : CallLog → Json
  call_json c = obj (
      field "node_id" (str c.node_id) (
        field "node_kind" (str c.node_kind) (
          field "iteration" (int (pos c.iteration)) (
            field "timestamp" (str (clock.print c.timestamp))
              (field "input" (chats_json c.input) (field "output" (output_json c.output) end))))))

  abbrev pub calls_json : List CallLog → Json
  calls_json [] = null
  calls_json (c ∷ cs) = arr (of_list (map call_json (c ∷ cs)))

  -- `json.MarshalIndent` of a log: an error where its body is no JSON.
  unfoldable pub log_json : RequestLog → Option Json
  log_json r = do
    body ← raw_json r.request_body
    some (
        obj (
          field "id" (str r.id) (
            field "started_at" (str (clock.print r.started_at)) (
              field "finished_at" (str (clock.print r.finished_at)) (
                field "duration_ms" (int (pos r.duration_ms)) (
                  field "format" (str r.format) (
                    field "request_path" (str r.request_path) (
                      field "request_headers" (obj (headers_json r.request_headers))
                        (field "request_body" body (field "calls" (calls_json r.calls) end))))))))))

abbrev or_nil : Option Json → Json
or_nil none = null
or_nil (some v) = v

abbrev pub chat_of : Json → Option ChatMessage
chat_of v = do
  fs ← as_struct v
  role ← field_string "role" fs
  reasoning ← field_string "reasoning" fs
  vs ← list_at "tool_calls" fs
  calls ← each call_of vs
  tool_call_id ← field_string "tool_call_id" fs
  name ← field_string "name" fs
  some (record {
    role = role;
    content = decoded (or_nil (get "content" fs));
    reasoning_content = reasoning;
    tool_calls = calls;
    tool_call_id = tool_call_id;
    name = name;
  })

abbrev pub output_of : Fields → Option OutputLog
output_of fs = do
  reasoning ← field_string "reasoning" fs
  content ← field_string "content" fs
  vs ← list_at "tool_calls" fs
  calls ← each call_of vs
  some (record { reasoning = reasoning; content = content; tool_calls = calls })

-- The program writes no negative number of milliseconds or of iterations.
abbrev natural : ℤ → ℕ
natural (pos n) = n
natural (negsuc n) = 0

abbrev pub header_list : Fields → Option (List (String × String))
header_list end = some []
header_list (field k v fs) = do s ← as_string v; hs ← header_list fs; some ((k, s) ∷ hs)

module _ (clock : Clock) where
  abbrev time_of : Option Json → Option ℕ
  time_of none = some 0
  time_of (some null) = some 0
  time_of (some v) = do s ← as_string v; clock.read s

  -- An absent time and null are the zero time.
  abbrev time_at : String → Fields → Option ℕ
  time_at k fs = time_of (get k fs)

  abbrev pub call_log_of : Json → Option CallLog
  call_log_of v = do
    fs ← as_struct v
    node_id ← field_string "node_id" fs
    node_kind ← field_string "node_kind" fs
    iteration ← int_at "iteration" fs
    timestamp ← time_at "timestamp" fs
    vs ← list_at "input" fs
    input ← each chat_of vs
    out ← struct_at "output" fs
    output ← output_of out
    some (record {
      node_id = node_id;
      node_kind = node_kind;
      iteration = natural iteration;
      timestamp = timestamp;
      input = input;
      output = output;
    })

  -- `json.Unmarshal` of a log.
  unfoldable pub decode_log : Json → Option RequestLog
  decode_log v = do
    fs ← as_struct v
    id ← field_string "id" fs
    started ← time_at "started_at" fs
    finished ← time_at "finished_at" fs
    duration ← int_at "duration_ms" fs
    format ← field_string "format" fs
    path ← field_string "request_path" fs
    hs ← struct_at "request_headers" fs
    headers ← header_list hs
    vs ← list_at "calls" fs
    calls ← each call_log_of vs
    some (record {
      id = id;
      started_at = started;
      finished_at = finished;
      duration_ms = natural duration;
      format = format;
      request_path = path;
      request_headers = headers;
      request_body = doc (or_nil (get "request_body" fs));
      calls = calls;
    })
