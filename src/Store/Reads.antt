-- ===== src/Store/Reads.antt =====
-- proxy/internal/logger/compact.go: the queries of the session store. Rows of equal key keep the
-- order of insertion, which the database leaves open.
use mathlib.Core.Option
use lazy_vllm.Prelude.{
  ℕ, Bool, true, false, ◌&&◌, Option, none, some, List, [], ◌∷◌, length, leb, str_eq, if◌then◌else◌,
}
use lazy_vllm.Json.{Json, obj, Fields, get, as_array, field_string}
use lazy_vllm.Json.Codec.{Codec}
use lazy_vllm.Text.Same.{same}
use lazy_vllm.Store.Hex.{hash_hex, hex_hash}
use lazy_vllm.Store.Compress.{Zstd, decompress_data}
use lazy_vllm.Store.{Bytes, Blob, SessionRow, Link, RawRow, Db, find_blob, find_session, links_of}

pub record CompactSession : Type 0 where
  pub id : Bytes
  pub format : Bytes
  pub model : Bytes
  pub token_count : ℕ
  pub created_at : ℕ
  pub message_ct : ℕ
  pub last_duration_ms : Option ℕ
  pub tools_hash : Option Bytes
  pub summary : Option Bytes
  pub user : Option Bytes
  pub project : Option Bytes
  pub provider : Option Bytes
  pub is_terminal : Bool

pub record CompactSessionMessage : Type 0 where
  pub sequence : ℕ
  pub message_hash : Bytes
  pub body : Bytes
  pub created_at : ℕ
  pub duration_ms : ℕ

pub record RawRequest : Type 0 where
  pub session_id : Bytes
  pub path : Bytes
  pub headers : Json
  pub body : Bytes
  pub created_at : ℕ

-- `ORDER BY sm.sequence ASC`.
unfoldable pub insert_link : Link → List Link → List Link
insert_link l [] = l ∷ []
insert_link l (k ∷ ks) =
    let rest = insert_link l ks in if leb l.sequence k.sequence then l ∷ k ∷ ks else k ∷ rest

unfoldable pub by_sequence : List Link → List Link
by_sequence [] = []
by_sequence (l ∷ ls) = insert_link l (by_sequence ls)

-- A session's row as it is read, with what `GetSession` leaves at its zero value.
abbrev pub session_of : SessionRow → CompactSession
session_of r = record {
  id = r.id;
  format = r.format;
  model = r.model;
  token_count = r.token_count;
  created_at = r.created_at;
  message_ct = 0;
  last_duration_ms = none;
  tools_hash = Option.map hash_hex r.tools_hash;
  summary = r.summary;
  user = r.user;
  project = r.project;
  provider = r.provider;
  is_terminal = false;
}

module _ (z : Zstd) where
  abbrev message_of : Link → Blob → CompactSessionMessage
  message_of l m = record {
    sequence = l.sequence;
    message_hash = hash_hex m.hash;
    body = decompress_data z m.body;
    created_at = m.created_at;
    duration_ms = l.duration_ms;
  }

  -- `JOIN messages m ON m.hash = sm.message_hash`, where the hash is the primary key.
  abbrev pub join : List Blob → List Link → List CompactSessionMessage
  join rows [] = []
  join rows (l ∷ ls) =
      let rest = join rows ls in
      elim (find_blob l.message_hash rows) [ none ↦ rest | some m ↦ message_of l m ∷ rest ]

  -- `GetSession`: the session and its messages, or an error.
  unfoldable pub get_session : Bytes → Db → Option (CompactSession × List CompactSessionMessage)
  get_session id db = elim (find_session id db.sessions) [
    | none ↦ none
    | some r ↦ some (session_of r, join db.messages (by_sequence (links_of id db.session_messages)))
  ]

  -- `GetTools`.
  unfoldable pub get_tools : Bytes → Db → Option Bytes
  get_tools hash db =
      Option.map (λ r. decompress_data z r.body) (find_blob (hex_hash hash) db.tools)

  abbrev find_raw : Bytes → List RawRow → Option RawRow
  find_raw id [] = none
  find_raw id (r ∷ rs) = if same r.session_id id then some r else find_raw id rs

  abbrev raw_of : RawRow → RawRequest
  raw_of r = record {
    session_id = r.session_id;
    path = r.path;
    headers = r.headers;
    body = decompress_data z r.body;
    created_at = r.created_at;
  }

  -- `GetRawRequest`: the first row of the session.
  unfoldable pub get_raw_request : Bytes → Db → Option RawRequest
  get_raw_request id db = Option.map raw_of (find_raw id db.raw_requests)

  -- `ORDER BY sequence DESC LIMIT 1`.
  abbrev last_link : List Link → Option Link
  last_link [] = none
  last_link (l ∷ []) = some l
  last_link (l ∷ k ∷ ks) = last_link (k ∷ ks)

  abbrev calls_in : Fields → Option (List Json)
  calls_in fs = elim (get "tool_calls" fs) [ none ↦ some [] | some v ↦ as_array v ]

  abbrev no_calls : Option (List Json) → Bool
  no_calls (some []) = true
  no_calls _ = false

  -- `IsTerminal` of a last message: an assistant's without tool calls.
  unfoldable pub is_terminal_message : Option Json → Bool
  is_terminal_message (some (obj fs)) = elim (field_string "role" fs) [
    | none ↦ false
    | some role ↦ str_eq role "assistant" && no_calls (calls_in fs)
  ]
  is_terminal_message _ = false

  module _ (codec : Codec) where
    abbrev last_body : List Blob → Option Link → Option Json
    last_body rows none = none
    last_body rows (some l) = elim (find_blob l.message_hash rows) [
      | none ↦ none
      | some m ↦ codec.decode (decompress_data z m.body)
    ]

    abbrev listed : Db → SessionRow → CompactSession
    listed db r =
        let links = links_of r.id db.session_messages in
        let last = last_link (by_sequence links) in
        record (session_of r) {
          message_ct = length links;
          last_duration_ms = Option.map (λ l. l.duration_ms) last;
          is_terminal = is_terminal_message (last_body db.messages last);
        }

    -- `ORDER BY s.created_at DESC`.
    abbrev insert_session : CompactSession → List CompactSession → List CompactSession
    insert_session s [] = s ∷ []
    insert_session s (t ∷ ts) =
        let rest = insert_session s ts in
        if leb t.created_at s.created_at then s ∷ t ∷ ts else t ∷ rest

    abbrev listed_from : ℕ → Db → List SessionRow → List CompactSession
    listed_from cutoff db [] = []
    listed_from cutoff db (r ∷ rs) =
        let rest = listed_from cutoff db rs in
        if leb cutoff r.created_at then insert_session (listed db r) rest else rest

    -- `ListSessions`, with the time of the cutoff.
    unfoldable pub list_sessions : ℕ → Db → List CompactSession
    list_sessions cutoff db = listed_from cutoff db db.sessions
