-- ===== src/Tests/Stores.antt =====
-- The session store with a hash that writes its text out in unary, and a compressor that puts a mark
-- in front.
use mathlib.Core.Path.{ap₂}
use lazy_vllm.Prelude.{
  false, ℕ, zero, suc, ◌<◌, ◌≡◌, ◌≢◌, refl, ap, sym, Option, none, some, List, [], ◌∷◌, map, All,
  arith, ◌==◌, if◌then◌else◌, str_eq,
}
use lazy_vllm.Store.Compress.{Zstd}
use lazy_vllm.Store.{Bytes, Db, SessionRow, empty_db, find_session, links_of}
use lazy_vllm.Store.Keep.{IsValid}
use lazy_vllm.Store.Steps.{Operation, starting, storing, adding}
use lazy_vllm.Store.Reads.{CompactSession, CompactSessionMessage, get_session}
use lazy_vllm.Store.Refines.{IsContentHash, transcript, entry_of}
use lazy_vllm.Store.Log.{Entry, append_all, log_all, log_all-refines}
use lazy_vllm.Store.Schema.{
  Schema, migrate_compact, open_schema, base_columns, blob_columns, link_columns,
}
use lazy_vllm.Store.Schema.Upgrade.{IsAt, migrate_compact_sound, open_schema_stuck}

abbrev ones : ℕ → Bytes → Bytes
ones zero rest = 0 ∷ rest
ones (suc n) rest = 1 ∷ ones n rest

abbrev pub unary : Bytes → Bytes
unary [] = 2 ∷ []
unary (n ∷ ns) = ones n (unary ns)

ones-bytes : (n : ℕ) (rest : Bytes) → All (λ b. b < 256) rest → All (λ b. b < 256) (ones n rest)
ones-bytes zero rest h = (omega arith, h)
ones-bytes (suc n) rest h = (omega arith, ones-bytes n rest h)

unary-bytes : (b : Bytes) → All (λ n. n < 256) (unary b)
unary-bytes [] = (omega arith, tt)
unary-bytes (n ∷ ns) = ones-bytes n (unary ns) (unary-bytes ns)

ones-nonempty : (n : ℕ) (rest : Bytes) → ones n rest ≢ []
ones-nonempty zero rest h = cc
ones-nonempty (suc n) rest h = cc

unary-nonempty : (b : Bytes) → unary b ≢ []
unary-nonempty [] h = cc
unary-nonempty (n ∷ ns) h = ones-nonempty n (unary ns) h

ones-injective : (n m : ℕ) (r s : Bytes) → ones n r ≡ ones m s → (n ≡ m) × (r ≡ s)
ones-injective zero zero r s h = (refl, cc)
ones-injective zero (suc m) r s h = absurd (ground arith)
ones-injective (suc n) zero r s h = absurd (ground arith)
ones-injective (suc n) (suc m) r s h = let (e, f) = ones-injective n m r s (cc) in (ap suc e, f)

ones-ne-end : (n : ℕ) (r : Bytes) → ones n r ≢ 2 ∷ []
ones-ne-end zero r h = ground arith
ones-ne-end (suc n) r h = ground arith

unary-injective : (b c : Bytes) → unary b ≡ unary c → b ≡ c
unary-injective [] [] h = refl
unary-injective [] (m ∷ ms) h = absurd (ones-ne-end m (unary ms) (sym h))
unary-injective (n ∷ ns) [] h = absurd (ones-ne-end n (unary ns) h)
unary-injective (n ∷ ns) (m ∷ ms) h =
    let (e, f) = ones-injective n m (unary ns) (unary ms) h in
    ap₂ (λ a b. a ∷ b) e (unary-injective ns ms f)

pub unary-IsContentHash : IsContentHash unary
unary-IsContentHash = record {
  bytes = unary-bytes;
  nonempty = unary-nonempty;
  injective = unary-injective;
}

abbrev unmark : Bytes → Option Bytes
unmark [] = none
unmark (b ∷ d) = if b == 253 then some d else none

abbrev pub marked : Zstd
marked = record { encode = λ d. 253 ∷ d; decode = unmark; decode-encode = λ d. refl }

-- A body that is compressed data comes back uncompressed.

abbrev pub random : Bytes
random = 1 ∷ 2 ∷ 3 ∷ 4 ∷ 5 ∷ 6 ∷ 7 ∷ 8 ∷ 9 ∷ 10 ∷ 11 ∷ 12 ∷ 13 ∷ 14 ∷ 15 ∷ 16 ∷ []

abbrev operations : List Operation
operations =
    starting random 5 [] (b'a' ∷ []) (b'm' ∷ []) [] [] [] 7
    ∷ storing 6 (b'h' ∷ b'i' ∷ [])
    ∷ adding (b'x' ∷ []) (b'0' ∷ b'1' ∷ []) 0
    ∷ []

abbrev row : Bytes → SessionRow
row id = record {
  id = id;
  format = b'a' ∷ [];
  model = b'm' ∷ [];
  token_count = 7;
  tools_hash = none;
  summary = none;
  user = none;
  project = none;
  provider = none;
  created_at = 5;
}

-- A store with two sessions, and messages for both, one of them twice.
abbrev two_sessions : Db
two_sessions = record empty_db { sessions = row (b'x' ∷ []) ∷ row (b'y' ∷ []) ∷ [] }

abbrev entry : Bytes → Bytes → Entry
entry id body = record { now = 9; session_id = id; body = body; duration_ms = 3 }

abbrev entries : List Entry
entries =
    entry (b'x' ∷ []) (b'h' ∷ [])
    ∷ entry (b'y' ∷ []) (b'h' ∷ [])
    ∷ entry (b'x' ∷ []) (b'k' ∷ [])
    ∷ []

two_sessions-IsValid : IsValid two_sessions
unfolding links_of
two_sessions-IsValid = record { numbered = λ id. tt; linked = tt; with_tools = (refl, (refl, tt)) }

log_all-refines_example :
    (s : CompactSession) × (msgs : List CompactSessionMessage) × (get_session marked
        (b'x' ∷ [])
        (log_all unary marked entries two_sessions)
      ≡ some (s, msgs))
    × (map (entry_of marked) msgs ≡ append_all entries (transcript marked two_sessions) (b'x' ∷ []))
unfolding find_session
log_all-refines_example =
    log_all-refines unary marked unary-IsContentHash entries two_sessions (b'x' ∷ [])
      two_sessions-IsValid tt ((refl, refl), ((refl, refl), ((refl, refl), tt))) refl

-- A database of version 3.
abbrev third : Schema
third = record {
  version = 3;
  refuses = λ t. str_eq t "sessions";
  tables = λ t.
      if str_eq t "sessions"
      then some base_columns
      else if str_eq t "messages"
      then some blob_columns
      else if str_eq t "tools"
      then some blob_columns
      else if str_eq t "session_messages"
      then some link_columns
      else none;
}

migrate_compact_sound_example : (s' : Schema) × (migrate_compact 3 third ≡ some s') × IsAt 6 s'
migrate_compact_sound_example =
    migrate_compact_sound 3 third (omega arith) (λ h. absurd (omega (arith, h)))
      (λ h. (refl, refl, refl, refl, refl, refl))

-- A database of version 4 after one of the two new columns.
abbrev halfway : Schema
halfway = record { version = 4; tables = λ t. some ("id" ∷ "user" ∷ []); refuses = λ t. false }

open_schema_stuck_example : open_schema halfway ≡ none
open_schema_stuck_example = open_schema_stuck halfway ("id" ∷ "user" ∷ []) refl refl refl
