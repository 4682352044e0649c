-- ===== src/Proxy/Kept.antt =====
-- proxy/internal/proxy/handlers.go: the session of a request, as it is read back.
use lazy_vllm.Prelude.{
  ℕ, ◌≡◌, refl, sym, ap, ◌∙◌, true, false, Option, none, some, List, [], ◌∷◌, ◌++◌, map, All, arith,
}
use mathlib.Core.Path.{subst}
use mathlib.Core.Option
use lazy_vllm.Store.Hex.{hex_hash}
use mathlib.Core.List.{append_assoc, append-nil}
use lazy_vllm.Json.{Json, null, Body}
use lazy_vllm.Text.Chars.{Chars}
use lazy_vllm.Obs.{Bytes}
use lazy_vllm.Logger.{Message}
use lazy_vllm.Text.Same.{same_iff}
use lazy_vllm.Store.{
  Db, Link, SessionRow, find_session, is_some, links_of, start_session, session_id_of, nullable_str,
  store_tools, store_raw_request, log_message, set_session_summary,
}
use lazy_vllm.Store.Keep.{find_session-append, IsValid, IsLinked}
use lazy_vllm.Store.Reads.{by_sequence, join}
use lazy_vllm.Store.Refines.{transcript, entry_of, IsHashed, IsContentHash}
use lazy_vllm.Store.Log.{Entry, Log, append_all, append_to, log_all, Loggable, transcript-log_all}
use lazy_vllm.Proxy.{Incoming, Call}
use lazy_vllm.Proxy.Logging.{
  Writing, Moment, keep_tools, keep_raw, log_bodies, started, summarised, message_json,
}

-- Two stores with the same messages and the same links.
abbrev pub Agree : Db → Db → Type 0
Agree db e = (e.messages ≡ db.messages) × (e.session_messages ≡ db.session_messages)

no_links :
    (id : Bytes) (db : Db) (ls : List Link)
    → All (IsLinked db) ls
    → is_some (find_session id db.sessions) ≡ false
    → links_of id ls ≡ []
unfolding links_of
no_links id db [] h absent = refl
no_links id db (l ∷ ls) (k, h) absent =
    ground (arith, no_links id db ls h absent, same_iff l.session_id id)

entry_at : ℕ → Bytes → Bytes → Entry
entry_at now id b = record { now = now; session_id = id; body = b; duration_ms = 0 }

pair_of : Entry → Bytes × ℕ
pair_of e = (e.body, e.duration_ms)

append-own :
    (id : Bytes) (es : List Entry) (log : Log)
    → All (λ e. e.session_id ≡ id) es
    → append_all es log id ≡ log id ++ map pair_of es
unfolding pair_of
append-own id [] log h = sym (append-nil (log id))
append-own id (e ∷ es) log (own, h) =
    append-own id es (append_to e.session_id (pair_of e) log) h
    ∙ rw ((same_iff e.session_id id).1 own)
        (append_assoc (log id) (pair_of e ∷ []) (map pair_of es))

module _ (how : Writing) where
  log_all-append :
      (es : List Entry) (e : Entry) (db : Db)
      → log_all how.sha how.zstd (es ++ e ∷ []) db
        ≡ log_message how.sha how.zstd e.now e.session_id e.body e.duration_ms
            (log_all how.sha how.zstd es db)
  log_all-append [] e db = refl
  log_all-append (f ∷ es) e db =
      log_all-append es e (log_message how.sha how.zstd f.now f.session_id f.body f.duration_ms db)

  log_bodies-entries :
      (now : ℕ) (id : Bytes) (bs : List Bytes) (db : Db)
      → log_bodies how now id bs db ≡ log_all how.sha how.zstd (map (entry_at now id) bs) db
  unfolding log_bodies entry_at
  log_bodies-entries now id [] db = refl
  log_bodies-entries now id (b ∷ bs) db =
      log_bodies-entries now id bs (log_message how.sha how.zstd now id b 0 db)

  pub keep_tools-Agree : (now : ℕ) (v : Json) (db : Db) → Agree db (keep_tools how now v db).1
  unfolding keep_tools store_tools
  keep_tools-Agree now null db = (refl, refl)
  keep_tools-Agree now v db = (refl, refl)

  pub keep_raw-Agree :
      (now : ℕ) (o : Option Bytes) (r : Incoming) (body : Bytes) (db : Db)
      → Agree db (keep_raw how now o r body db)
        × ((keep_raw how now o r body db).sessions ≡ db.sessions)
  unfolding keep_raw store_raw_request
  keep_raw-Agree now none r body db = ((refl, refl), refl)
  keep_raw-Agree now (some id) r body db = ((ground arith, ground arith), ground arith)

  abbrev row_of : Moment → Incoming → Call → Bytes → SessionRow
  row_of at r c hash = record {
    id = session_id_of at.random;
    format = how.utf8 c.format;
    model = how.utf8 c.model;
    token_count = c.token_count;
    tools_hash = Option.map hex_hash (nullable_str hash);
    summary = none;
    user = nullable_str (how.utf8 r.user);
    project = nullable_str (how.utf8 r.project);
    provider = nullable_str (how.utf8 r.provider);
    created_at = at.started;
  }

  -- A session that starts was not there, and is there behind it.
  pub started-Agree :
      (at : Moment) (r : Incoming) (c : Call) (hash : Bytes) (db : Db) (id : Bytes)
      → (started how at r c (hash, db)).0 ≡ some id
      → (is_some (find_session id db.sessions) ≡ false)
        × Agree db (started how at r c (hash, db)).1
        × (is_some (find_session id (started how at r c (hash, db)).1.sessions) ≡ true)
  unfolding start_session
  started-Agree at r c hash db id is = (
    ground arith,
    (ground arith, ground arith),
    ground (arith, find_session-append id db.sessions (row_of at r c hash), same_iff id id),
  )

  abbrev pub bodies_of : (Body → List Message) → Body → List Bytes
  bodies_of msg_parser body = map (λ m. how.codec.encode (message_json m)) (msg_parser body)

  pairs-entries :
      (now : ℕ) (id : Bytes) (bs : List Bytes) (e : Entry)
      → map pair_of (map (entry_at now id) bs ++ e ∷ [])
        ≡ map (λ b. (b, 0)) bs ++ (e.body, e.duration_ms) ∷ []
  unfolding pair_of entry_at
  pairs-entries now id [] e = refl
  pairs-entries now id (b ∷ bs) e = ap (λ r. (b, 0) ∷ r) (pairs-entries now id bs e)

  entries-own :
      (now : ℕ) (id : Bytes) (bs : List Bytes) (e : Entry)
      → e.session_id ≡ id
      → All (λ f. f.session_id ≡ id) (map (entry_at now id) bs ++ e ∷ [])
  unfolding entry_at
  entries-own now id [] e own = (own, tt)
  entries-own now id (b ∷ bs) e own = (refl, entries-own now id bs e own)

  entries-Loggable :
      (rows : List SessionRow) (now : ℕ) (id : Bytes) (bs : List Bytes) (e : Entry)
      → is_some (find_session id rows) ≡ true
      → All (λ b. how.zstd.decode b ≡ none) bs
      → Loggable how.sha how.zstd rows e
      → All (Loggable how.sha how.zstd rows) (map (entry_at now id) bs ++ e ∷ [])
  unfolding entry_at
  entries-Loggable rows now id [] e here plain l = (l, tt)
  entries-Loggable rows now id (b ∷ bs) e here (p, plain) l =
      ((p, here), entries-Loggable rows now id bs e here plain l)

  pub fresh-transcript :
      (id : Bytes) (db e : Db)
      → IsValid db
      → is_some (find_session id db.sessions) ≡ false
      → e.session_messages ≡ db.session_messages
      → transcript how.zstd e id ≡ []
  unfolding by_sequence
  fresh-transcript id db e v absent is =
      let read =
        λ (ls : List Link). map (entry_of how.zstd) (join how.zstd e.messages (by_sequence ls)) in
      ap (λ ls. read (links_of id ls)) is
      ∙ ap read (no_links id db db.session_messages v.linked absent)

  pub summarised-transcript :
      (id : Bytes) (o : Chars) (db : Db)
      → transcript how.zstd (summarised how id o db) id ≡ transcript how.zstd db id
  unfolding set_session_summary
  summarised-transcript id [] db = refl
  summarised-transcript id (o ∷ os) db = refl

  -- All that a session logs in a store where it has no messages.
  pub logged-transcript :
      IsContentHash how.sha
      → (now : ℕ) (id : Bytes) (bs : List Bytes) (e : Entry) (db : Db) → IsValid db
      → IsHashed how.sha how.zstd db
      → is_some (find_session id db.sessions) ≡ true
      → transcript how.zstd db id ≡ []
      → All (λ b. how.zstd.decode b ≡ none) bs
      → how.zstd.decode e.body ≡ none
      → e.session_id ≡ id
      → transcript how.zstd
          (log_message how.sha how.zstd e.now e.session_id e.body e.duration_ms
            (log_bodies how now id bs db))
          id
        ≡ map (λ b. (b, 0)) bs ++ (e.body, e.duration_ms) ∷ []
  logged-transcript content now id bs e db v h here empty plain plain_output own =
      let es = map (entry_at now id) bs ++ e ∷ [] in
      let session : is_some (find_session e.session_id db.sessions) ≡ true =
        subst (λ i. is_some (find_session i db.sessions) ≡ true) (sym own) here in
      ap
        (λ d.
          transcript how.zstd
            (log_message how.sha how.zstd e.now e.session_id e.body e.duration_ms d) id)
        (log_bodies-entries now id bs db)
      ∙ ap (λ d. transcript how.zstd d id) (sym (log_all-append (map (entry_at now id) bs) e db))
      ∙ (transcript-log_all how.sha how.zstd content es db id v h
          (entries-Loggable db.sessions now id bs e here plain (plain_output, session))).0
      ∙ append-own id es (transcript how.zstd db) (entries-own now id bs e own)
      ∙ ap (λ l. l ++ map pair_of es) empty
      ∙ pairs-entries now id bs e
