-- ===== src/Store.antt =====
-- proxy/internal/logger/compact.go: the session store. The tables of the database are lists of
-- rows in the order of insertion, and each operation is its SQL statement with the constraints of
-- the schema: primary keys, the unique pair of session and sequence, and foreign keys. Texts and
-- hashes are bytes, as Go's strings are. The hash function and the compressor are parameters, the
-- time is an argument, and the database itself does not fail.
pub mod Hex
pub mod Compress
pub mod Keep
pub mod Steps
pub mod Refines
pub mod Log
pub mod Ui
pub mod Shown
pub mod Reads
pub mod Schema
use lazy_vllm.Prelude.{
  ℕ, ◌+◌, ◌*◌, ◌/◌, ◌%◌, Bool, true, false, not, ◌&&◌, ◌||◌, Option, none, some, List, [], ◌∷◌,
  ◌++◌, any, map, take, drop, ltb, leb, ◌==◌, if◌then◌else◌,
}
use mathlib.Core.Option
use lazy_vllm.Json.{Json}
use lazy_vllm.Text.Same.{same}
use lazy_vllm.Store.Hex.{hash_hex, hex_hash}
use lazy_vllm.Store.Compress.{Zstd, compress_data, decompress_data}

abbrev pub Bytes : Type 0
Bytes = List ℕ

-- A row of the tables `tools` and `messages`.
pub record Blob : Type 0 where
  pub hash : Bytes
  pub body : Bytes
  pub created_at : ℕ

pub record SessionRow : Type 0 where
  pub id : Bytes
  pub format : Bytes
  pub model : Bytes
  pub token_count : ℕ
  pub tools_hash : Option Bytes
  pub summary : Option Bytes
  pub user : Option Bytes
  pub project : Option Bytes
  pub provider : Option Bytes
  pub created_at : ℕ

-- A row of `session_messages`.
pub record Link : Type 0 where
  pub session_id : Bytes
  pub message_hash : Bytes
  pub sequence : ℕ
  pub duration_ms : ℕ

pub record RawRow : Type 0 where
  pub session_id : Bytes
  pub path : Bytes
  pub headers : Json
  pub body : Bytes
  pub created_at : ℕ

pub record Db : Type 0 where
  pub tools : List Blob
  pub messages : List Blob
  pub sessions : List SessionRow
  pub session_messages : List Link
  pub raw_requests : List RawRow

abbrev pub empty_db : Db
empty_db = record {
  tools = [];
  messages = [];
  sessions = [];
  session_messages = [];
  raw_requests = [];
}

-- `nullableStr`.
abbrev pub nullable_str : Bytes → Option Bytes
nullable_str [] = none
nullable_str (b ∷ bs) = some (b ∷ bs)

-- The row with a hash, which is the primary key.
unfoldable pub find_blob : Bytes → List Blob → Option Blob
find_blob h [] = none
find_blob h (r ∷ rs) = if same r.hash h then some r else find_blob h rs

unfoldable pub find_session : Bytes → List SessionRow → Option SessionRow
find_session id [] = none
find_session id (r ∷ rs) = if same r.id id then some r else find_session id rs

abbrev pub is_some {ℓ} : {A : Type ℓ} → Option A → Bool
is_some none = false
is_some (some _) = true

-- `INSERT OR IGNORE`.
unfoldable pub insert_or_ignore : Blob → List Blob → List Blob
insert_or_ignore r rows = if is_some (find_blob r.hash rows) then rows else rows ++ (r ∷ [])

-- A reference that may be null.
abbrev pub refers : Option Bytes → List Blob → Bool
refers none rows = true
refers (some h) rows = is_some (find_blob h rows)

-- The version and the variant bits of a random identifier, and its text.
abbrev set_at : ℕ → (ℕ → ℕ) → Bytes → Bytes
set_at i f b = take i b ++ (map f (take 1 (drop i b)) ++ drop (i + 1) b)

unfoldable pub session_id_of : Bytes → Bytes
session_id_of random =
    let b = set_at 8 (λ x. x % 64 + 128) (set_at 6 (λ x. x % 16 + 64) random) in
    hash_hex (take 4 b)
    ++ (b'-'
        ∷ (hash_hex (take 2 (drop 4 b))
            ++ (b'-'
                ∷ (hash_hex (take 2 (drop 6 b))
                    ++ (b'-'
                        ∷ (hash_hex (take 2 (drop 8 b))
                            ++ (b'-' ∷ hash_hex (take 6 (drop 10 b)))))))))

-- `StartSession`, with 16 random bytes: the identifier, or nothing after an error.
unfoldable pub start_session :
    Bytes → ℕ → Bytes → Bytes → Bytes → Bytes → Bytes → Bytes → ℕ → Db → Option Bytes × Db
start_session random now tools_hash format model user project provider token_count db =
    let id = session_id_of random in
    let blob = Option.map hex_hash (nullable_str tools_hash) in
    if is_some (find_session id db.sessions) || not (refers blob db.tools) then (none, db) else (
      some id,
      record db {
        sessions =
            db.sessions
            ++ (record {
              id = id;
              format = format;
              model = model;
              token_count = token_count;
              tools_hash = blob;
              summary = none;
              user = nullable_str user;
              project = nullable_str project;
              provider = nullable_str provider;
              created_at = now;
            }
                ∷ []);
      },
    )

-- The links of a session, in the order of insertion.
unfoldable pub links_of : Bytes → List Link → List Link
links_of id [] = []
links_of id (l ∷ ls) = let rest = links_of id ls in if same l.session_id id then l ∷ rest else rest

-- `COALESCE(MAX(sequence), 0)`.
unfoldable pub max_sequence : List Link → ℕ
max_sequence [] = 0
max_sequence (l ∷ ls) =
    let rest = max_sequence ls in if ltb rest l.sequence then l.sequence else rest

abbrev pub has_sequence : ℕ → List Link → Bool
has_sequence n ls = any (λ l. l.sequence == n) ls

-- `AddMessageToSession`: whether it succeeds.
unfoldable pub add_message_to_session : Bytes → Bytes → ℕ → Db → Bool × Db
add_message_to_session session_id message_hash duration_ms db =
    let bh = hex_hash message_hash in
    let links = links_of session_id db.session_messages in
    let sequence = max_sequence links + 1 in
    if is_some (find_session session_id db.sessions)
      && is_some (find_blob bh db.messages)
      && not (has_sequence sequence links)
    then (
      true,
      record db {
        session_messages =
            db.session_messages
            ++ (record {
              session_id = session_id;
              message_hash = bh;
              sequence = sequence;
              duration_ms = duration_ms;
            }
                ∷ []);
      },
    )
    else (false, db)

-- `SetSessionSummary`.
unfoldable pub set_session_summary : Bytes → Bytes → Db → Db
set_session_summary session_id summary db = record db {
  sessions =
      map (λ r. if same r.id session_id then record r { summary = some summary } else r)
        db.sessions;
}

module _ (sha : Bytes → Bytes) (z : Zstd) where
  abbrev pub blob_of : ℕ → Bytes → Blob
  blob_of now body = record { hash = sha body; body = compress_data z body; created_at = now }

  -- `StoreTools` and `StoreMessage`.
  unfoldable pub store_tools : ℕ → Bytes → Db → Bytes × Db
  store_tools now body db =
      (hash_hex (sha body), record db { tools = insert_or_ignore (blob_of now body) db.tools })

  unfoldable pub store_message : ℕ → Bytes → Db → Bytes × Db
  store_message now body db = (
    hash_hex (sha body),
    record db { messages = insert_or_ignore (blob_of now body) db.messages },
  )

  abbrev pub add_stored : Bytes → Bytes → ℕ → Db → Db
  add_stored [] session_id duration_ms db = db
  add_stored (b ∷ bs) session_id duration_ms db =
      (add_message_to_session session_id (b ∷ bs) duration_ms db).1

  -- `if mh := StoreMessage(body); mh != "" { _ = AddMessageToSession(sessionID, mh, durationMS) }`,
  -- as `forwardWithLogging` has it for every message.
  unfoldable pub log_message : ℕ → Bytes → Bytes → ℕ → Db → Db
  unfolding store_message
  log_message now session_id body duration_ms db =
      let (mh, db') = store_message now body db in add_stored mh session_id duration_ms db'

-- `StoreRawRequest`: whether it succeeds.
unfoldable pub store_raw_request : Zstd → ℕ → Bytes → Bytes → Json → Bytes → Db → Bool × Db
store_raw_request z now session_id path headers body db =
    if is_some (find_session session_id db.sessions)
    then (
      true,
      record db {
        raw_requests =
            db.raw_requests
            ++ (record {
              session_id = session_id;
              path = path;
              headers = headers;
              body = compress_data z body;
              created_at = now;
            }
                ∷ []);
      },
    )
    else (false, db)
