-- ===== src/Store/Ui.antt =====
-- proxy/internal/logger/ui.go: what the user interface of the log is shown. An answer is the value
-- that is written as JSON.
use lazy_vllm.Prelude.{ℕ, String, Option, none, some, List, [], ◌∷◌}
use lazy_vllm.Json.Codec.{Codec}
use lazy_vllm.Store.{Db}
use lazy_vllm.Store.Compress.{Zstd}
use lazy_vllm.Store.Reads.{
  CompactSession, CompactSessionMessage, RawRequest, get_session, get_tools, get_raw_request,
  list_sessions,
}
use lazy_vllm.Obs.{Bytes}

pub data Shown : Type 0 where
  page : Shown
  sessions : List CompactSession → Shown
  detail : CompactSession → List CompactSessionMessage → Shown
  tools_text : Bytes → Shown
  raw : RawRequest → Shown
  ui_error : ℕ → String → Shown

abbrev pub detail_of : Option (CompactSession × List CompactSessionMessage) → Shown
detail_of none = ui_error 404 "session not found"
detail_of (some (s, ms)) = detail s ms

abbrev tools_of : Option Bytes → Shown
tools_of none = ui_error 404 "tools not found"
tools_of (some b) = tools_text b

abbrev raw_of : Option RawRequest → Shown
raw_of none = ui_error 404 "raw request not found"
raw_of (some r) = raw r

module _ (z : Zstd) where
  -- `HandleSessionsList`, with the time that the list begins at.
  unfoldable pub handle_sessions_list : Codec → ℕ → Db → Shown
  handle_sessions_list codec cutoff db = sessions (list_sessions z codec cutoff db)

  -- `HandleSessionDetail`.
  unfoldable pub handle_session_detail : Bytes → Db → Shown
  handle_session_detail [] db = ui_error 400 "missing id"
  handle_session_detail (b ∷ id) db = detail_of (get_session z (b ∷ id) db)

  -- `HandleToolsDetail`.
  unfoldable pub handle_tools_detail : Bytes → Db → Shown
  handle_tools_detail [] db = ui_error 400 "missing hash"
  handle_tools_detail (b ∷ hash) db = tools_of (get_tools z (b ∷ hash) db)

  -- `HandleRawRequest`.
  unfoldable pub handle_raw_request : Bytes → Db → Shown
  handle_raw_request [] db = ui_error 400 "missing id"
  handle_raw_request (b ∷ id) db = raw_of (get_raw_request z (b ∷ id) db)
