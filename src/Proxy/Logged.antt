-- ===== src/Proxy/Logged.antt =====
-- proxy/internal/proxy/handlers.go: what the session store keeps of a request.
use lazy_vllm.Prelude.{ℕ, Bool, true, Option, none, some, List, [], ◌∷◌, map}
use lazy_vllm.Json.{Json, null, Body}
use lazy_vllm.Text.Chars.{Chars, of_chars}
use lazy_vllm.Obs.{Bytes}
use lazy_vllm.Server.{Result, ok, failed, panicked}
use lazy_vllm.Logger.{Message, extract_tools}
use lazy_vllm.Logger.Outputs.{OutputLog}
use lazy_vllm.Store.{Db, log_message}
use lazy_vllm.Store.Keep.{IsValid}
use lazy_vllm.Store.Steps.{operate-IsValid, starting, storing_tools, summarising, keeping_raw}
use lazy_vllm.Store.Log.{log_message-IsValid}
use lazy_vllm.Proxy.{Server, Incoming, Call, Upstream, body_to_forward, forward_request, base_url}
use lazy_vllm.Proxy.Logging.{
  Writing, Moment, Handled, keep_tools, keep_raw, log_bodies, log_request, log_output, started,
  summarised, exchanged, forward_with_logging, message_json, capture_headers, captured, parts_of,
  or_no_session, is_stream,
}

module _ (how : Writing) where
  pub keep_tools-IsValid :
      (now : ℕ) (v : Json) (db : Db) → IsValid db → IsValid (keep_tools how now v db).1
  unfolding keep_tools
  keep_tools-IsValid now null db h = h
  keep_tools-IsValid now v db h =
      operate-IsValid how.sha how.zstd (storing_tools now (how.codec.encode v)) db h

  pub keep_raw-IsValid :
      (now : ℕ) (o : Option Bytes) (r : Incoming) (body : Bytes) (db : Db)
      → IsValid db
      → IsValid (keep_raw how now o r body db)
  unfolding keep_raw
  keep_raw-IsValid now none r body db h = h
  keep_raw-IsValid now (some id) r body db h =
      operate-IsValid how.sha how.zstd
        (keeping_raw now id (how.utf8 r.request_uri) (capture_headers r.header) body) db h

  log_bodies-IsValid :
      (now : ℕ) (id : Bytes) (bs : List Bytes) (db : Db)
      → IsValid db
      → IsValid (log_bodies how now id bs db)
  unfolding log_bodies
  log_bodies-IsValid now id [] db h = h
  log_bodies-IsValid now id (b ∷ bs) db h =
      log_bodies-IsValid now id bs (log_message how.sha how.zstd now id b 0 db)
        (log_message-IsValid how.sha how.zstd now id b 0 db h)

  summarised-IsValid :
      (id : Bytes) (o : Chars) (db : Db) → IsValid db → IsValid (summarised how id o db)
  summarised-IsValid id [] db h = h
  summarised-IsValid id (o ∷ os) db h =
      operate-IsValid how.sha how.zstd (summarising id (how.utf8 (of_chars (o ∷ os)))) db h

  log_output-IsValid :
      (out_parser : Bytes → Bool → OutputLog) (at : Moment) (stream : Bool) (o : Option Bytes)
      (parts : List Bytes) (observation : Chars) (db : Db)
      → IsValid db
      → IsValid (log_output how out_parser at stream o parts observation db)
  unfolding log_output
  log_output-IsValid out_parser at stream none parts observation db h = h
  log_output-IsValid out_parser at stream (some id) parts observation db h =
      summarised-IsValid id observation _
        (log_message-IsValid how.sha how.zstd at.finished id _ at.duration_ms db h)

  pub started-IsValid :
      (at : Moment) (r : Incoming) (c : Call) (kept : Bytes × Db)
      → IsValid (kept.1)
      → IsValid (started how at r c kept).1
  started-IsValid at r c (hash, db) h =
      operate-IsValid how.sha how.zstd
        (starting at.random at.started hash (how.utf8 c.format) (how.utf8 c.model) (how.utf8 r.user)
          (how.utf8 r.project) (how.utf8 r.provider) c.token_count)
        db h

  pub log_request-IsValid :
      (msg_parser : Body → List Message) (at : Moment) (r : Incoming) (c : Call) (raw : Bytes)
      (body : Body) (db : Db)
      → IsValid db
      → IsValid (log_request how msg_parser at r c raw body db).1
  unfolding log_request
  log_request-IsValid msg_parser at r c raw body db h =
      let kept = keep_tools how at.started (extract_tools body) db in
      let opened = started how at r c kept in
      log_bodies-IsValid at.started (or_no_session (opened.0))
        (map (λ m. how.codec.encode (message_json m)) (msg_parser body))
        (keep_raw how at.started (opened.0) r raw (opened.1))
        (keep_raw-IsValid at.started (opened.0) r raw (opened.1)
          (started-IsValid at r c kept (keep_tools-IsValid at.started (extract_tools body) db h)))

  -- The store is valid after a request that does not panic.
  abbrev pub StoreIsValid : Result Handled → Type 0
  StoreIsValid (ok h) = IsValid h.db
  StoreIsValid failed = Unit
  StoreIsValid panicked = Unit

  exchanged-IsValid :
      (msg_parser : Body → List Message) (out_parser : Bytes → Bool → OutputLog) (at : Moment)
      (s : Server) (up : Upstream) (r : Incoming) (c : Call) (raw : Bytes) (db : Db)
      (b : Result Body)
      → IsValid db
      → StoreIsValid (exchanged how msg_parser out_parser at s up r c raw db b)
  unfolding exchanged
  exchanged-IsValid msg_parser out_parser at s up r c raw db failed v = tt
  exchanged-IsValid msg_parser out_parser at s up r c raw db panicked v = tt
  exchanged-IsValid msg_parser out_parser at s up r c raw db (ok body) v =
      let opened = log_request how msg_parser at r c raw body db in
      let parts = parts_of how (forward_request up r (base_url s r c) body) in
      log_output-IsValid out_parser at (is_stream c.body) (opened.0) parts
        ((captured how.codec (is_stream c.body) c.format parts).0) (opened.1)
        (log_request-IsValid msg_parser at r c raw body db v)

  -- A request that is handled without a panic leaves a valid session store valid, whether its
  -- session can be started or not and whatever the server answers.
  pub forward_with_logging-IsValid :
      (msg_parser : Body → List Message) (out_parser : Bytes → Bool → OutputLog) (at : Moment)
      (s : Server) (up : Upstream) (r : Incoming) (c : Call) (raw : Bytes) (db : Db)
      → IsValid db
      → StoreIsValid (forward_with_logging how msg_parser out_parser at s up r c raw db)
  unfolding forward_with_logging
  forward_with_logging-IsValid msg_parser out_parser at s up r c raw db v =
      exchanged-IsValid msg_parser out_parser at s up r c raw db (body_to_forward s true r c) v
