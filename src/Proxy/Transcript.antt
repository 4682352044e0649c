-- ===== src/Proxy/Transcript.antt =====
-- proxy/internal/proxy/handlers.go: the log of a request, read back from its session.
use lazy_vllm.Prelude.{
  ◌≡◌, refl, sym, ap, ◌∙◌, Bool, true, Option, none, some, List, [], ◌∷◌, ◌++◌, map, All,
}
use mathlib.Core.Path.{subst}
use lazy_vllm.Json.{Body}
use lazy_vllm.Text.Chars.{Chars}
use lazy_vllm.Obs.{Bytes}
use lazy_vllm.Server.{ok}
use lazy_vllm.Logger.{Message, extract_tools}
use lazy_vllm.Logger.Outputs.{OutputLog}
use lazy_vllm.Store.{Db, Blob}
use lazy_vllm.Store.Compress.{decompress_data}
use lazy_vllm.Store.Keep.{IsValid}
use lazy_vllm.Store.Refines.{transcript, IsHashed, IsContentHash}
use lazy_vllm.Store.{log_message, find_session, is_some}
use lazy_vllm.Proxy.{Server, Incoming, Call, Upstream, body_to_forward, forward_request, base_url}
use lazy_vllm.Proxy.Logging.{
  Writing, Moment, Handled, keep_tools, keep_raw, log_bodies, log_request, log_output, started,
  exchanged, forward_with_logging, output_json, captured, parts_of, concat, or_no_session,
  is_stream,
}
use lazy_vllm.Proxy.Logged.{keep_tools-IsValid, keep_raw-IsValid, started-IsValid}
use lazy_vllm.Proxy.Kept.{
  bodies_of, logged-transcript, fresh-transcript, summarised-transcript, started-Agree,
  keep_raw-Agree, keep_tools-Agree,
}

module _ (how : Writing) where
  -- The text of the message that is logged for an answer.
  abbrev pub output_text : (Bytes → Bool → OutputLog) → List Bytes → Bool → Bytes
  output_text out_parser parts stream =
      how.codec.encode (output_json (out_parser (concat parts) stream))

  logs-transcript :
      IsContentHash how.sha
      → (msg_parser : Body → List Message) (out_parser : Bytes → Bool → OutputLog) (at : Moment)
        (r : Incoming) (c : Call) (raw : Bytes) (body : Body) (db : Db) (id : Bytes) (stream : Bool)
        (parts : List Bytes) (observation : Chars)
      → IsValid db
      → IsHashed how.sha how.zstd db
      → (started how at r c (keep_tools how at.started (extract_tools body) db)).0 ≡ some id
      → All (λ b. how.zstd.decode b ≡ none) (bodies_of how msg_parser body)
      → how.zstd.decode (output_text out_parser parts stream) ≡ none
      → transcript how.zstd
          (log_output how out_parser at stream
            ((log_request how msg_parser at r c raw body db).0)
            parts
            observation
            ((log_request how msg_parser at r c raw body db).1))
          id
        ≡ map (λ b. (b, 0)) (bodies_of how msg_parser body)
          ++ (output_text out_parser parts stream, at.duration_ms) ∷ []
  unfolding log_output log_request
  logs-transcript content msg_parser out_parser at r c raw body db id stream parts observation v h
        is plain plain_output =
      let kept = keep_tools how at.started (extract_tools body) db in
      let opened = started how at r c kept in
      let later : Option Bytes → Db = λ o. log_output how out_parser at stream o parts observation (
        log_bodies how at.started (or_no_session o) (bodies_of how msg_parser body)
          (keep_raw how at.started o r raw (opened.1))) in
      let (absent, same, here) = started-Agree how at r c (kept.0) (kept.1) id is in
      let tools = keep_tools-Agree how at.started (extract_tools body) db in
      let (raw_same, sessions) = keep_raw-Agree how at.started (some id) r raw (opened.1) in
      let e = keep_raw how at.started (some id) r raw (opened.1) in
      let v1 = keep_tools-IsValid how at.started (extract_tools body) db v in
      let hashed : IsHashed how.sha how.zstd e =
        subst (λ (ms : List Blob). All (λ m. how.sha (decompress_data how.zstd m.body) ≡ m.hash) ms)
          (sym (raw_same.0 ∙ same.0 ∙ tools.0)) h in
      ap (λ o. transcript how.zstd (later o) id) is
      ∙ summarised-transcript how id observation (
          log_message how.sha how.zstd at.finished id (output_text out_parser parts stream)
            at.duration_ms (log_bodies how at.started id (bodies_of how msg_parser body) e))
      ∙ logged-transcript how content at.started id (bodies_of how msg_parser body)
          (record {
            now = at.finished;
            session_id = id;
            body = output_text out_parser parts stream;
            duration_ms = at.duration_ms;
          })
          e
          (keep_raw-IsValid how at.started (some id) r raw (opened.1)
            (started-IsValid how at r c kept v1))
          hashed (subst (λ rows. is_some (find_session id rows) ≡ true) (sym sessions) here)
          (fresh-transcript how id (kept.1) e v1 absent (raw_same.1 ∙ same.1)) plain plain_output
          refl

  -- If the hash has no collisions, the store is valid, the body to forward is made without a panic,
  -- the session can be started, and no message to log is compressed data, then the request is
  -- handled, and its session reads back as the request's messages, in order and of no duration, and
  -- behind them the message of the answer with the duration of the exchange.
  pub forward_with_logging-transcript :
      IsContentHash how.sha
      → (msg_parser : Body → List Message) (out_parser : Bytes → Bool → OutputLog) (at : Moment)
        (s : Server) (up : Upstream) (r : Incoming) (c : Call) (raw : Bytes) (body : Body) (db : Db)
        (id : Bytes)
      → IsValid db
      → IsHashed how.sha how.zstd db
      → body_to_forward s true r c ≡ ok body
      → (started how at r c (keep_tools how at.started (extract_tools body) db)).0 ≡ some id
      → All (λ b. how.zstd.decode b ≡ none) (bodies_of how msg_parser body)
      → how.zstd.decode (
          output_text out_parser
            (parts_of how (forward_request up r (base_url s r c) body))
            (is_stream c.body))
        ≡ none
      → (h : Handled) × (forward_with_logging how msg_parser out_parser at s up r c raw db ≡ ok h)
        × (transcript how.zstd h.db id
            ≡ map (λ b. (b, 0)) (bodies_of how msg_parser body)
              ++ (
                output_text out_parser
                    (parts_of how (forward_request up r (base_url s r c) body))
                    (is_stream c.body),
                at.duration_ms,
              )
                ∷ [])
  unfolding forward_with_logging exchanged
  forward_with_logging-transcript content msg_parser out_parser at s up r c raw body db id v h
        forwards is plain plain_output =
      let parts = parts_of how (forward_request up r (base_url s r c) body) in
      (
        _,
        ap (exchanged how msg_parser out_parser at s up r c raw db) forwards,
        logs-transcript content msg_parser out_parser at r c raw body db id (is_stream c.body) parts
            ((captured how.codec (is_stream c.body) c.format parts).0) v h is plain plain_output,
      )
