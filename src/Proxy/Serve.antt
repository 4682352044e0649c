-- ===== src/Proxy/Serve.antt =====
-- proxy/main.go: a request on its way from the server through the attribution to its handler, for a
-- server that keeps sessions, up to the metrics.
-- Also `HandleLogLevel` of proxy/internal/proxy/handlers.go.
pub mod Attributed
pub mod Reading
pub mod Session
use lazy_vllm.Prelude.{
  ℕ, String, ◌<>◌, Bool, true, false, not, ◌&&◌, ◌||◌, Option, none, some, List, [], ◌∷◌, ◌++◌, map,
  take, str_eq, if◌then◌else◌,
}
use lazy_vllm.Json.{Json, Body, doc, malformed, Map, null_map, map_of, field_string}
use lazy_vllm.Text.{strip_prefix}
use lazy_vllm.Text.Chars.{Chars, chars, of_chars, char_beq, char_eq}
use lazy_vllm.Obs.{Bytes}
use lazy_vllm.Config.{LogLevel, debug, info, warn, error}
use lazy_vllm.Server.{Result, ok, failed, panicked, body_map}
use lazy_vllm.Server.Attribution.{
  Attribution, Passed, refused, anonymous, attributed, attribution_middleware,
}
use lazy_vllm.Logger.{parse_anthropic_messages}
use lazy_vllm.Logger.Messages.{parse_messages}
use lazy_vllm.Logger.Streams.{parse_openai_output, parse_anthropic_output, body_of}
use lazy_vllm.Store.{Db}
use lazy_vllm.Store.Ui.{
  Shown, page, handle_sessions_list, handle_session_detail, handle_raw_request, handle_tools_detail,
}
use lazy_vllm.Proxy.{
  Server, Incoming, Upstream, Call, Reply, http_error, answered, chat_call, messages_call,
  handle_generic_proxy,
}
use lazy_vllm.Proxy.Logging.{Writing, Moment, Handled, forward_with_logging}
use lazy_vllm.Proxy.Mux.{
  Endpoint, health, metrics, chat_completions, messages, models, log_level, logs_ui, sessions_list,
  session_detail, raw_request, tools_detail, generic, names, is_clean, endpoint_of,
}
use lazy_vllm.Proxy.Models.{ModelsReply, handle_models}

pub record HttpRequest : Type 0 where
  pub method : String
  pub path : Chars
  pub uri : Chars → String
  pub header : String → String
  pub raw : Bytes
  pub readable : Bool

abbrev level_of : String → Option LogLevel
level_of s =
    if str_eq s "DEBUG"
    then some debug
    else if str_eq s "INFO"
    then some info
    else if str_eq s "WARN" || str_eq s "WARNING"
    then some warn
    else if str_eq s "ERROR"
    then some error
    else none

abbrev level_field : Map → Option String
level_field null_map = some ""
level_field (map_of fs) = field_string "level" fs

abbrev set_level : LogLevel → Option LogLevel → Option (ℕ × String) × LogLevel
set_level old none = (some (400, "invalid log level"), old)
set_level old (some new) = (none, new)

abbrev read_level : LogLevel → Option String → Option (ℕ × String) × LogLevel
read_level old none = (some (400, "invalid JSON"), old)
read_level old (some s) = set_level old (level_of s)

-- `HandleLogLevel`: an error, or nothing for status 200, and the level.
unfoldable pub handle_log_level : Body → LogLevel → Option (ℕ × String) × LogLevel
handle_log_level body level = elim (body_map body) [
  | none ↦ read_level level none
  | some m ↦ read_level level (level_field m)
]

-- What becomes of a request: an error of the server, a redirection to the clean path, an answer, or
-- the metrics.
pub data Served : Type 0 where
  rejected : ℕ → String → Served
  redirected : Served
  fine : Served
  handled : Result Handled → Served
  replied : Result Reply → Served
  listed : ModelsReply → Served
  shown : Shown → Served
  measured : Served

-- What the handlers are given.
pub record World : Type 0 where
  pub server : Server
  pub upstream : Upstream
  pub how : Writing
  pub text_of : Json → String
  pub id_text : ℕ → Json → String
  pub literal : String → Option String
  pub decode : Chars → Option Chars
  pub arrive : List String → List String
  pub week_before : ℕ → ℕ

-- The bodies are cut at 32 MiB.
abbrev pub body_limit : ℕ
body_limit = 33554432

abbrev pub body_read : Writing → Bytes → Body
body_read how raw = body_of how.codec (how.codec.decode raw)

abbrev pub encoded : Writing → Bytes → Body → Bytes
encoded how raw (doc v) = how.codec.encode v
encoded how raw (malformed text) = raw

-- The text of the body that a handler passes on, which a flash name changes.
abbrev pub call_text : Writing → Bytes → Call → Bytes
call_text how raw c = if c.is_flash then encoded how raw c.body else raw

-- `HandleChatCompletions`.
unfoldable pub handle_chat_completions : World → Moment → Incoming → Bytes → Db → Result Handled
handle_chat_completions w at r raw db =
    let c = chat_call w.upstream w.server r (body_read w.how raw) in
    forward_with_logging w.how parse_messages (parse_openai_output w.how.codec) at w.server
      w.upstream r c (call_text w.how raw c) db

-- `HandleMessages`.
unfoldable pub handle_messages : World → Moment → Incoming → Bytes → Db → Result Handled
handle_messages w at r raw db =
    let c = messages_call w.upstream w.server r (body_read w.how raw) in
    forward_with_logging w.how (parse_anthropic_messages w.text_of)
      (parse_anthropic_output w.how.codec w.text_of) at w.server w.upstream r c
      (call_text w.how raw c) db

abbrev pub db_of : Db → Result Handled → Db
db_of db (ok h) = h.db
db_of db _ = db

-- The state of the server: the session store and the level of the log.
pub record State : Type 0 where
  pub db : Db
  pub level : LogLevel

abbrev pub kept : Result Handled → State → Served × State
kept h st = (handled h, record st { db = db_of st.db h })

abbrev levelled : Option (ℕ × String) × LogLevel → State → Served × State
levelled (none, level) st = (fine, record st { level = level })
levelled (some (status, text), level) st = (rejected status text, st)

abbrev unless_unreadable : Bool → State → Served × State → Served × State
unless_unreadable true st answer = answer
unless_unreadable false st answer = (rejected 400 "failed to read request body", st)

module _ (w : World) (at : Moment) where
  -- A body that cannot be read holds no document.
  abbrev level_body : HttpRequest → Body
  level_body req = if req.readable then body_read w.how req.raw else malformed ""

  -- The functions that main registers, on a body cut at the limit.
  unfoldable pub run_endpoint : Endpoint → Incoming → HttpRequest → State → Served × State
  run_endpoint health r req st = (fine, st)
  run_endpoint chat_completions r req st =
      unless_unreadable req.readable st
        (kept (handle_chat_completions w at r (take body_limit req.raw) st.db) st)
  run_endpoint messages r req st =
      unless_unreadable req.readable st
        (kept (handle_messages w at r (take body_limit req.raw) st.db) st)
  run_endpoint models r req st =
      (listed (handle_models w.id_text w.literal w.arrive w.upstream w.server r), st)
  run_endpoint log_level r req st = levelled (handle_log_level (level_body req) st.level) st
  run_endpoint generic r req st = unless_unreadable req.readable st (
    replied
        (handle_generic_proxy w.server w.upstream r (body_read w.how (take body_limit req.raw))),
    st,
  )
  run_endpoint metrics r req st = (measured, st)
  run_endpoint logs_ui r req st = (shown page, st)
  run_endpoint sessions_list r req st =
      (shown (handle_sessions_list w.how.zstd w.how.codec (w.week_before at.started) st.db), st)
  run_endpoint (session_detail id) r req st =
      (shown (handle_session_detail w.how.zstd (w.how.utf8 id) st.db), st)
  run_endpoint (raw_request id) r req st =
      (shown (handle_raw_request w.how.zstd (w.how.utf8 id) st.db), st)
  run_endpoint (tools_detail hash) r req st =
      (shown (handle_tools_detail w.how.zstd (w.how.utf8 hash) st.db), st)

  -- A request with an attribution and the path that is left.
  abbrev pub incoming : HttpRequest → Chars → String → String → String → Incoming
  incoming req path provider user project = record {
    method = req.method;
    request_uri = req.uri path;
    header = req.header;
    provider = provider;
    user = user;
    project = project;
  }

  unfoldable pub dispatch : HttpRequest → Chars → Incoming → State → Served × State
  dispatch req path r st =
      if str_eq req.method "CONNECT" || is_clean (names path)
      then run_endpoint (endpoint_of req.method path) r req st
      else (redirected, st)

  abbrev pub after_middleware : HttpRequest → Passed → State → Served × State
  after_middleware req (refused text) st = (rejected 400 text, st)
  after_middleware req anonymous st = dispatch req req.path (incoming req req.path "" "" "") st
  after_middleware req (attributed a) st =
      dispatch req a.remaining (incoming req a.remaining a.provider a.user a.project) st

  -- `AttributionMiddleware(cfg.Providers)(mux)`.
  unfoldable pub serve : HttpRequest → State → Served × State
  serve req st =
      after_middleware req (attribution_middleware w.decode w.server.providers req.path) st
