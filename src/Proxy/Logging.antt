-- ===== src/Proxy/Logging.antt =====
-- proxy/internal/proxy/handlers.go: `forwardWithLogging` with a session logger, from the request to
-- what the client is written and what the session store keeps. The time is read once before the
-- exchange with the server and once behind it.
use lazy_vllm.Prelude.{
  ℕ, String, ◌<>◌, Bool, true, false, not, ◌&&◌, Option, none, some, List, [], ◌∷◌, ◌++◌, map, keep,
  str_eq, if◌then◌else◌,
}
use lazy_vllm.Json.{Json, null, str, obj, arr, end, field, Fields, Body, entry, as_bool, of_list}
use lazy_vllm.Json.Codec.{Codec}
use lazy_vllm.Text.Chars.{Chars, of_chars}
use lazy_vllm.Obs.{Bytes, Capture, new_obs_capture}
use lazy_vllm.Obs.Events.{write, finalize_streaming}
use lazy_vllm.Obs.Whole.{finalize_non_streaming}
use lazy_vllm.Server.{Result, ok, failed, panicked, body_map}
use lazy_vllm.Router.Classify.{Headers}
use lazy_vllm.Logger.{Message, ToolCall, unless_empty, call_json, extract_tools}
use lazy_vllm.Logger.Outputs.{OutputLog}
use lazy_vllm.Store.{
  Db, start_session, store_tools, store_raw_request, log_message, set_session_summary,
}
use lazy_vllm.Store.Compress.{Zstd}
use lazy_vllm.Proxy.{
  Server, Incoming, Call, Upstream, Reply, http_error, answered, base_url, body_to_forward,
  forward_request,
}

-- What the logger writes texts with: the hash, the compressor, encoding/json and the bytes of a
-- string.
pub record Writing : Type 0 where
  pub sha : Bytes → Bytes
  pub zstd : Zstd
  pub codec : Codec
  pub utf8 : String → Bytes

-- The times of a request, how long the exchange took, and the random bytes of its session.
pub record Moment : Type 0 where
  pub started : ℕ
  pub finished : ℕ
  pub duration_ms : ℕ
  pub random : Bytes

-- What the client is written, the store, and whether the observation is sent to the memory service.
pub record Handled : Type 0 where
  pub status : ℕ
  pub headers : Headers
  pub out : List Bytes
  pub db : Db
  pub ingested : Bool

abbrev optional : String → Option Json → Fields → Fields
optional k none fs = fs
optional k (some v) fs = field k v fs

-- `json.Marshal` of a message.
unfoldable pub message_json : Message → Json
message_json m = obj (
    field "role" (str m.role) (
      optional "content" m.content (
        unless_empty "reasoning" m.reasoning_content (
          optional "tool_calls" m.tool_calls
            (unless_empty "tool_call_id" m.tool_call_id (unless_empty "name" m.name end))))))

abbrev output_calls : List ToolCall → Json
output_calls [] = null
output_calls (c ∷ cs) = arr (of_list (map call_json (c ∷ cs)))

-- The message of the answer.
unfoldable pub output_json : OutputLog → Json
output_json o = obj (
    field "content" (str o.content) (
      field "reasoning" (str o.reasoning)
        (field "role" (str "assistant") (field "tool_calls" (output_calls o.tool_calls) end))))

abbrev bool_or_false : Option Json → Bool
bool_or_false none = false
bool_or_false (some v) = elim (as_bool v) [ none ↦ false | some b ↦ b ]

-- Whether a body asks for a stream.
unfoldable pub is_stream : Body → Bool
is_stream body = elim (body_map body) [ none ↦ false | some m ↦ bool_or_false (entry "stream" m) ]

-- `CaptureHeaders`, of compact.go.
abbrev redacted : String → String → Fields → Fields
redacted name v fs = if str_eq v "" then fs else field name (str "[redacted]") fs

unfoldable pub capture_headers : (String → String) → Json
capture_headers header = obj (
    redacted "Authorization" (header "Authorization") (
      redacted "x-api-key" (header "x-api-key") (
        unless_empty "anthropic-version" (header "anthropic-version")
          (unless_empty "anthropic-beta" (header "anthropic-beta") end))))

abbrev write_all : Codec → List Bytes → Capture → Capture
write_all codec [] c = c
write_all codec (p ∷ ps) c = write_all codec ps (write codec p c)

-- What is written through the capture, which a response that is not streamed leaves in `Finalize`.
unfoldable pub captured : Codec → Bool → String → List Bytes → Chars × Capture
captured codec stream format parts =
    let c = write_all codec parts (new_obs_capture stream format) in
    if stream then finalize_streaming c else finalize_non_streaming codec c

abbrev pub or_no_session : Option Bytes → Bytes
or_no_session none = []
or_no_session (some id) = id

abbrev pub concat : List Bytes → Bytes
concat [] = []
concat (p ∷ ps) = p ++ concat ps

-- `WriteHeader` of the capture.
abbrev pub written_headers : Bool → Headers → Headers
written_headers stream hs =
    if stream then hs else keep (λ (k : String × String). not (str_eq (k.0) "Content-Length")) hs

module _ (how : Writing) where
  abbrev pub status_of : Reply → ℕ
  status_of (http_error status text) = status
  status_of (answered a) = a.status

  abbrev pub headers_of : Reply → Headers
  headers_of (answered a) = a.headers
  headers_of (http_error status text) =
      ("Content-Type", "text/plain; charset=utf-8") ∷ ("X-Content-Type-Options", "nosniff") ∷ []

  -- What the handler writes of a reply, part by part.
  abbrev pub parts_of : Reply → List Bytes
  parts_of (http_error status text) = how.utf8 (text <> "\n") ∷ []
  parts_of (answered a) = a.parts

  -- The tools' hash, or an empty one.
  unfoldable pub keep_tools : ℕ → Json → Db → Bytes × Db
  keep_tools now null db = ([], db)
  keep_tools now v db = store_tools how.sha how.zstd now (how.codec.encode v) db

  unfoldable pub log_bodies : ℕ → Bytes → List Bytes → Db → Db
  log_bodies now id [] db = db
  log_bodies now id (b ∷ bs) db = log_bodies now id bs (log_message how.sha how.zstd now id b 0 db)

  unfoldable pub keep_raw : ℕ → Option Bytes → Incoming → Bytes → Db → Db
  keep_raw now none r body db = db
  keep_raw now (some id) r body db =
      (store_raw_request how.zstd now id (how.utf8 r.request_uri) (capture_headers r.header) body
        db).1

  abbrev pub started : Moment → Incoming → Call → Bytes × Db → Option Bytes × Db
  started at r c (tools_hash, db) =
      start_session at.random at.started tools_hash (how.utf8 c.format) (how.utf8 c.model)
        (how.utf8 r.user) (how.utf8 r.project) (how.utf8 r.provider) c.token_count db

  -- What is logged before the exchange: the session that is started, if it is, and the store.
  unfoldable pub log_request :
      (Body → List Message) → Moment → Incoming → Call → Bytes → Body → Db → Option Bytes × Db
  unfolding keep_tools keep_raw log_bodies
  log_request msg_parser at r c raw body db =
      let opened = started at r c (keep_tools at.started (extract_tools body) db) in
      (
        opened.0,
        log_bodies at.started (or_no_session (opened.0))
            (map (λ m. how.codec.encode (message_json m)) (msg_parser body))
            (keep_raw at.started (opened.0) r raw (opened.1)),
      )

  abbrev pub summarised : Bytes → Chars → Db → Db
  summarised id [] db = db
  summarised id (o ∷ os) db = set_session_summary id (how.utf8 (of_chars (o ∷ os))) db

  abbrev pub has_observation : Chars → Bool
  has_observation [] = false
  has_observation (o ∷ os) = true

  -- What is logged behind the exchange.
  unfoldable pub log_output :
      (Bytes → Bool → OutputLog) → Moment → Bool → Option Bytes → List Bytes → Chars → Db → Db
  log_output out_parser at stream none parts observation db = db
  log_output out_parser at stream (some id) parts observation db = summarised id observation (
      log_message how.sha how.zstd at.finished id
        (how.codec.encode (output_json (out_parser (concat parts) stream))) at.duration_ms db)

  abbrev pub is_started : Option Bytes → Bool
  is_started none = false
  is_started (some id) = true

  unfoldable pub exchanged :
      (Body → List Message)
      → (Bytes → Bool → OutputLog)
      → Moment
      → Server
      → Upstream
      → Incoming
      → Call
      → Bytes
      → Db
      → Result Body
      → Result Handled
  unfolding log_request captured log_output base_url forward_request is_stream
  exchanged msg_parser out_parser at s up r c raw db failed = failed
  exchanged msg_parser out_parser at s up r c raw db panicked = panicked
  exchanged msg_parser out_parser at s up r c raw db (ok body) =
      let stream = is_stream c.body in
      let opened = log_request msg_parser at r c raw body db in
      let reply = forward_request up r (base_url s r c) body in
      let seen = captured how.codec stream c.format (parts_of reply) in
      ok (record {
        status = status_of reply;
        headers = written_headers stream (headers_of reply);
        out = (seen.1).out;
        db = log_output out_parser at stream (opened.0) (parts_of reply) (seen.0) (opened.1);
        ingested =
            has_observation (seen.0)
            && (is_started (opened.0) && not (str_eq s.memory_ingest_url ""));
      })

  -- `forwardWithLogging`, with the text of the client's body for the raw request.
  unfoldable pub forward_with_logging :
      (Body → List Message)
      → (Bytes → Bool → OutputLog)
      → Moment
      → Server
      → Upstream
      → Incoming
      → Call
      → Bytes
      → Db
      → Result Handled
  unfolding exchanged body_to_forward
  forward_with_logging msg_parser out_parser at s up r c raw db =
      exchanged msg_parser out_parser at s up r c raw db (body_to_forward s true r c)
