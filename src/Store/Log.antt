-- ===== src/Store/Log.antt =====
-- The refinement: logging messages in the store is appending to the log of each session.
use mathlib.Core.Path.{subst, fun_ext}
use mathlib.Core.List.{append-nil, map-append}
use lazy_vllm.Prelude.{
  ℕ, ◌≡◌, refl, ap, sym, ◌∙◌, true, none, some, List, [], ◌∷◌, ◌++◌, map, All, inl, inr, arith,
  Option-cases, Bool-cases, if◌then◌else◌,
}
use lazy_vllm.Text.Same.{same}
use lazy_vllm.Store.Hex.{hash_hex}
use lazy_vllm.Store.Compress.{Zstd, decompress_data}
use lazy_vllm.Store.{
  Bytes, Blob, SessionRow, Link, Db, find_blob, find_session, is_some, links_of, log_message,
  add_stored, blob_of,
}
use lazy_vllm.Store.Reads.{
  by_sequence, join, CompactSession, CompactSessionMessage, get_session, session_of,
}
use lazy_vllm.Store.Keep.{IsLinked, IsValid, links_of-append}
use lazy_vllm.Store.Steps.{
  links_of_one, links_of_other, messages-IsValid, add_message_to_session-IsValid,
}
use lazy_vllm.Store.Refines.{
  IsContentHash, IsHashed, stored, stored-found, stored-IsHashed, new_link, logged, transcript,
  entry_of, join-append, join-insert, by_sequence-IsNumbered, All-links_of,
}

-- What the store promises: a list of bodies and durations for each session.
abbrev pub Log : Type 0
Log = Bytes → List (Bytes × ℕ)

abbrev pub append_to : Bytes → Bytes × ℕ → Log → Log
append_to id entry log id' = if same id id' then log id' ++ (entry ∷ []) else log id'

module _ (sha : Bytes → Bytes) (z : Zstd) where
  add_stored-IsValid :
      (mh id : Bytes) (d : ℕ) (db : Db) → IsValid db → IsValid (add_stored sha z mh id d db)
  add_stored-IsValid [] id d db v = v
  add_stored-IsValid (b ∷ bs) id d db v = add_message_to_session-IsValid id (b ∷ bs) d db v

  pub log_message-IsValid :
      (now : ℕ) (id body : Bytes) (d : ℕ) (db : Db)
      → IsValid db
      → IsValid (log_message sha z now id body d db)
  unfolding log_message
  log_message-IsValid now id body d db v =
      add_stored-IsValid (hash_hex (sha body)) id d (stored sha z now body db)
        (messages-IsValid db (blob_of sha z now body) v)

module _ (sha : Bytes → Bytes) (z : Zstd) (content : IsContentHash sha) where
  -- The messages of a session that were there, read after another body was stored.
  kept :
      (now : ℕ) (id body : Bytes) (db : Db)
      → IsValid db
      → map
          (entry_of z)
          (join z (stored sha z now body db).messages (links_of id db.session_messages))
        ≡ transcript z db id
  kept now id body db v =
      let links = links_of id db.session_messages in
      ap (map (entry_of z)) (
        join-insert z db.messages (blob_of sha z now body) links (
          All-links_of (λ l. is_some (find_blob l.message_hash db.messages) ≡ true) id
            db.session_messages (linked_blobs db.session_messages v.linked)))
      ∙ ap (λ ls. map (entry_of z) (join z db.messages ls))
          (sym (by_sequence-IsNumbered 1 links (v.numbered id)))
    where
      linked_blobs :
          (ls : List Link)
          → All (IsLinked db) ls
          → All (λ l. is_some (find_blob l.message_hash db.messages) ≡ true) ls
      linked_blobs [] h = tt
      linked_blobs (l ∷ ls) (k, h) = (k.1, linked_blobs ls h)

  joined_one :
      (rows : List Blob) (l : Link) (m : Blob) (body : Bytes)
      → find_blob l.message_hash rows ≡ some m
      → decompress_data z m.body ≡ body
      → map (entry_of z) (join z rows (l ∷ [])) ≡ (body, l.duration_ms) ∷ []
  joined_one rows l m body e same_body = rw (e, join) (ap (λ b. (b, l.duration_ms) ∷ []) same_body)

  -- A transcript of a valid store, by its links in the order of insertion.
  transcript_in_order :
      (db : Db) (id : Bytes)
      → IsValid db
      → transcript z db id ≡ map (entry_of z) (join z db.messages (links_of id db.session_messages))
  transcript_in_order db id v =
      ap (λ ls. map (entry_of z) (join z db.messages ls))
        (by_sequence-IsNumbered 1 (links_of id db.session_messages) (v.numbered id))

  pub transcript-log_message :
      (now : ℕ) (id body : Bytes) (d : ℕ) (db : Db) (id' : Bytes)
      → IsValid db
      → IsHashed sha z db
      → z.decode body ≡ none
      → is_some (find_session id db.sessions) ≡ true
      → transcript z (log_message sha z now id body d db) id'
        ≡ append_to id (body, d) (transcript z db) id'
  transcript-log_message now id body d db id' v h plain s =
      let l = new_link sha z content id body d db in
      let rows = (stored sha z now body db).messages in
      let links = links_of id' db.session_messages in
      let is = logged sha z content now id body d db v h plain s in
      let split =
        transcript_in_order (log_message sha z now id body d db) id'
          (log_message-IsValid sha z now id body d db v)
        ∙ ap (λ e. map (entry_of z) (join z e.messages (links_of id' e.session_messages))) is
        ∙ ap (λ ls. map (entry_of z) (join z rows ls))
            (links_of-append id' db.session_messages (l ∷ [])) in
      let parts = λ (ks : List Link).
        ap (map (entry_of z)) (join-append z rows links ks)
        ∙ map-append (entry_of z) (join z rows links) (join z rows ks)
        ∙ ap (λ r. r ++ map (entry_of z) (join z rows ks)) (kept now id' body db v) in
      elim (Bool-cases (same id id')) [
        | inl e ↦
            let (m, there, reads) = stored-found sha z content now body db plain h in
            split
            ∙ ap (λ ks. map (entry_of z) (join z rows (links ++ ks))) (links_of_one id' l e)
            ∙ parts (l ∷ [])
            ∙ ap (λ r. transcript z db id' ++ r) (joined_one rows l m body there reads)
            ∙ rw e refl
        | inr e ↦
            split
            ∙ ap (λ ks. map (entry_of z) (join z rows (links ++ ks))) (links_of_other id' l e)
            ∙ parts []
            ∙ append-nil (transcript z db id')
            ∙ rw e refl
      ]

  sessions-log_message :
      (now : ℕ) (id body : Bytes) (d : ℕ) (db : Db)
      → IsValid db
      → IsHashed sha z db
      → z.decode body ≡ none
      → is_some (find_session id db.sessions) ≡ true
      → ((log_message sha z now id body d db).sessions ≡ db.sessions)
        × IsHashed sha z (log_message sha z now id body d db)
  sessions-log_message now id body d db v h plain s =
      let is = logged sha z content now id body d db v h plain s in
      (
        ap (λ e. e.sessions) is,
        subst (λ rows. All (λ m. sha (decompress_data z m.body) ≡ m.hash) rows)
            (sym (ap (λ e. e.messages) is)) (stored-IsHashed sha z content now body db plain h),
      )

  read_back :
      (db : Db) (id : Bytes)
      → is_some (find_session id db.sessions) ≡ true
      → (s : CompactSession) × (msgs : List CompactSessionMessage) × (get_session z id db
          ≡ some (s, msgs))
        × (map (entry_of z) msgs ≡ transcript z db id)
  unfolding get_session
  read_back db id h = elim (Option-cases (find_session id db.sessions)) [
    | inl e ↦ absurd (ground arith)
    | inr (r, e) ↦ (
      session_of r,
      join z db.messages (by_sequence (links_of id db.session_messages)),
      rw (e, get_session) refl,
      refl,
    )
  ]

-- A body logged in a session.
pub record Entry : Type 0 where
  pub now : ℕ
  pub session_id : Bytes
  pub body : Bytes
  pub duration_ms : ℕ

abbrev pub append_all : List Entry → Log → Log
append_all [] log = log
append_all (e ∷ es) log = append_all es (append_to e.session_id (e.body, e.duration_ms) log)

module _ (sha : Bytes → Bytes) (z : Zstd) where
  abbrev pub log_all : List Entry → Db → Db
  log_all [] db = db
  log_all (e ∷ es) db = log_all es (log_message sha z e.now e.session_id e.body e.duration_ms db)

  abbrev pub Loggable : List SessionRow → Entry → Type 0
  Loggable rows e = (z.decode e.body ≡ none) × (is_some (find_session e.session_id rows) ≡ true)

  pub transcript-log_all :
      (content : IsContentHash sha) (es : List Entry) (db : Db) (id : Bytes)
      → IsValid db
      → IsHashed sha z db
      → All (Loggable db.sessions) es
      → (transcript z (log_all es db) id ≡ append_all es (transcript z db) id)
        × ((log_all es db).sessions ≡ db.sessions)
  transcript-log_all content [] db id v h l = (refl, refl)
  transcript-log_all content (e ∷ es) db id v h ((plain, s), ls) =
      let db' = log_message sha z e.now e.session_id e.body e.duration_ms db in
      let (same_sessions, h') =
        sessions-log_message sha z content e.now e.session_id e.body e.duration_ms db v h plain s in
      let v' = log_message-IsValid sha z e.now e.session_id e.body e.duration_ms db v in
      let (rest, rest_sessions) =
        transcript-log_all content es db' id v' h'
          (subst (λ rows. All (Loggable rows) es) (sym same_sessions) ls) in
      (
        rest
            ∙ ap (λ log. append_all es log id)
                (fun_ext λ i.
                  transcript-log_message sha z content e.now e.session_id e.body e.duration_ms db i
                    v h plain s),
        rest_sessions ∙ same_sessions,
      )

  -- If the hash has no collisions, the store is valid, and each body logged is no compressed data
  -- and its session is there, then `GetSession` gives each session the bodies and durations that
  -- were logged in it, in order, behind those that it had.
  pub log_all-refines :
      (content : IsContentHash sha) (es : List Entry) (db : Db) (id : Bytes)
      → IsValid db
      → IsHashed sha z db
      → All (Loggable db.sessions) es
      → is_some (find_session id db.sessions) ≡ true
      → (s : CompactSession) × (msgs : List CompactSessionMessage) × (get_session z id
            (log_all es db)
          ≡ some (s, msgs))
        × (map (entry_of z) msgs ≡ append_all es (transcript z db) id)
  log_all-refines content es db id v h ls here =
      let (t, sessions) = transcript-log_all content es db id v h ls in
      let (s, msgs, e, is) =
        read_back sha z content (log_all es db) id
          (subst (λ rows. is_some (find_session id rows) ≡ true) (sym sessions) here) in
      (s, msgs, e, is ∙ t)
