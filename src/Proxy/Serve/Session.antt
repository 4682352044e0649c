-- ===== src/Proxy/Serve/Session.antt =====
-- proxy/main.go: a conversation that the proxy has served is shown by the interface of its log.
use lazy_vllm.Prelude.{ℕ, ◌≡◌, true, none, some, List, [], ◌∷◌, ◌++◌, map, All}
use mathlib.Core.Path.{subst}
use lazy_vllm.Obs.{Bytes}
use lazy_vllm.Json.{Body}
use lazy_vllm.Server.{ok}
use lazy_vllm.Logger.{parse_anthropic_messages, extract_tools}
use lazy_vllm.Logger.Streams.{parse_anthropic_output}
use lazy_vllm.Store.{Db}
use lazy_vllm.Store.Keep.{IsValid}
use lazy_vllm.Store.Reads.{CompactSession, CompactSessionMessage}
use lazy_vllm.Store.Refines.{IsHashed, IsContentHash, entry_of}
use lazy_vllm.Store.Shown.{handle_session_detail-transcript}
use lazy_vllm.Store.Ui.{detail, handle_session_detail}
use lazy_vllm.Proxy.{Incoming, Call, messages_call, body_to_forward, forward_request, base_url}
use lazy_vllm.Proxy.Kept.{bodies_of}
use lazy_vllm.Proxy.Logged.{StoreIsValid, forward_with_logging-IsValid}
use lazy_vllm.Proxy.Logging.{Moment, Handled, started, keep_tools, parts_of, is_stream}
use lazy_vllm.Proxy.Transcript.{output_text, forward_with_logging-transcript}
use lazy_vllm.Proxy.Serve.{World, body_read, call_text, handle_messages}

module _ (w : World) (at : Moment) (r : Incoming) (raw : Bytes) where
  -- The call of the handler of messages, and the parts of the answer to a body.
  abbrev pub call : Call
  call = messages_call w.upstream w.server r (body_read w.how raw)

  abbrev pub answer_parts : Body → List Bytes
  answer_parts body = parts_of w.how (forward_request w.upstream r (base_url w.server r call) body)

  -- The text of the answer's message.
  abbrev pub answer_text : Body → Bytes
  answer_text body =
      output_text w.how (parse_anthropic_output w.how.codec w.text_of) (answer_parts body)
        (is_stream call.body)

  -- What the session holds: the messages of the request, and the answer with its duration.
  abbrev pub conversation : Body → List (Bytes × ℕ)
  conversation body =
      map (λ b. (b, 0)) (bodies_of w.how (parse_anthropic_messages w.text_of) body)
      ++ (answer_text body, at.duration_ms) ∷ []

  -- If the hash has no collisions, the store is valid, the body to forward is made without a panic,
  -- the session can be started, and no message to log is compressed data, then a request of
  -- messages is handled, and afterwards the interface of the log shows its session with the
  -- messages of the request in order and the answer behind them.
  pub handle_messages-handle_session_detail :
      IsContentHash w.how.sha
      → (body : Body) (db : Db) (b : ℕ) (id : Bytes) → IsValid db
      → IsHashed w.how.sha w.how.zstd db
      → body_to_forward w.server true r call ≡ ok body
      → (started w.how at r call (keep_tools w.how at.started (extract_tools body) db)).0
        ≡ some (b ∷ id)
      → All
          (λ t. w.how.zstd.decode t ≡ none)
          (bodies_of w.how (parse_anthropic_messages w.text_of) body)
      → w.how.zstd.decode (answer_text body) ≡ none
      → (h : Handled) × (handle_messages w at r raw db ≡ ok h)
        × (s : CompactSession) × (ms : List CompactSessionMessage) × (handle_session_detail
              w.how.zstd
              (b ∷ id)
              h.db
            ≡ detail s ms)
        × (map (entry_of w.how.zstd) ms ≡ conversation body)
  unfolding handle_messages
  handle_messages-handle_session_detail content body db b id v hashed forwards is plain
        plain_output =
      let msg_parser = parse_anthropic_messages w.text_of in
      let out_parser = parse_anthropic_output w.how.codec w.text_of in
      let text = call_text w.how raw call in
      let (h, e, read) =
        forward_with_logging-transcript w.how content msg_parser out_parser at w.server w.upstream r
          call text body db (b ∷ id) v hashed forwards is plain plain_output in
      let valid : IsValid h.db = subst (StoreIsValid w.how) e (
        forward_with_logging-IsValid w.how msg_parser out_parser at w.server w.upstream r call text
          db v) in
      let (s, ms, shown, same) =
        handle_session_detail-transcript w.how.zstd h.db b id (answer_text body, at.duration_ms) _
          valid read in
      (h, e, s, ms, shown, same)
