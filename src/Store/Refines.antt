-- ===== src/Store/Refines.antt =====
-- The session store against what it promises: a log of messages for each session. Messages are
-- stored once each, under their hash, and a session reads back what was logged in it.
use mathlib.Core.Path.{subst}
use lazy_vllm.Prelude.{
  ℕ, suc, ◌+◌, ◌<◌, ◌≡◌, refl, ap, sym, ◌∙◌, ◌≢◌, true, none, some, List, [], ◌∷◌, ◌++◌, map, All,
  inl, inr, arith, Option-cases, Bool-cases,
}
use lazy_vllm.Text.Same.{same, same_iff}
use lazy_vllm.Store.Hex.{hash_hex, hex_hash, hex_hash-hash_hex}
use lazy_vllm.Store.Compress.{Zstd, decompress_data, decompress-compress}
use lazy_vllm.Store.{
  Bytes, Blob, Link, Db, find_blob, find_session, is_some, insert_or_ignore, links_of, max_sequence,
  add_message_to_session, log_message, blob_of, add_stored,
}
use lazy_vllm.Store.Reads.{CompactSessionMessage, insert_link, by_sequence, join}
use lazy_vllm.Store.Keep.{
  IsNumbered, IsValid, max_sequence-IsNumbered, has_sequence-IsNumbered, find_blob-append,
  find_blob-insert, All-append_one,
}
use lazy_vllm.Store.Steps.{messages-IsValid}

insert_link-IsNumbered :
    (l : Link) (ls : List Link) → IsNumbered (suc l.sequence) ls → insert_link l ls ≡ l ∷ ls
unfolding insert_link
insert_link-IsNumbered l [] h = refl
insert_link-IsNumbered l (k ∷ ls) (e, h) = ground arith

pub by_sequence-IsNumbered : (n : ℕ) (ls : List Link) → IsNumbered n ls → by_sequence ls ≡ ls
unfolding by_sequence
by_sequence-IsNumbered n [] h = refl
by_sequence-IsNumbered n (l ∷ ls) (e, h) =
    ap (insert_link l) (by_sequence-IsNumbered (suc n) ls h)
    ∙ insert_link-IsNumbered l ls (subst (λ m. IsNumbered (suc m) ls) (sym e) h)

pub All-links_of {κ} :
    (P : Link → Type κ) (id : Bytes) (ls : List Link) → All P ls → All P (links_of id ls)
unfolding links_of
All-links_of P id [] h = tt
All-links_of P id (l ∷ ls) (p, h) = elim (Bool-cases (same l.session_id id)) [
  | inl e ↦ rw e (p, All-links_of P id ls h)
  | inr e ↦ rw e (All-links_of P id ls h)
]

found {κ} :
    (P : Blob → Type κ) (h : Bytes) (rows : List Blob) (m : Blob)
    → All P rows
    → find_blob h rows ≡ some m
    → P m × (m.hash ≡ h)
unfolding find_blob
found P h [] m all e = cc
found P h (r ∷ rows) m (p, all) e = elim (Bool-cases (same r.hash h)) [
  | inl here ↦
      let it : r ≡ m = ground arith in
      subst (λ b. P b × (b.hash ≡ h)) it (p, (same_iff r.hash h).0 here)
  | inr other ↦ found P h rows m all (ground arith)
]

module _ (z : Zstd) where
  pub join-append :
      (rows : List Blob) (ls ks : List Link)
      → join z rows (ls ++ ks) ≡ join z rows ls ++ join z rows ks
  join-append rows [] ks = refl
  join-append rows (l ∷ ls) ks = ground (arith, join-append rows ls ks)

  pub join-insert :
      (rows : List Blob) (r : Blob) (ls : List Link)
      → All (λ l. is_some (find_blob l.message_hash rows) ≡ true) ls
      → join z (insert_or_ignore r rows) ls ≡ join z rows ls
  join-insert rows r [] h = refl
  join-insert rows r (l ∷ ls) (e, h) = elim (Option-cases (find_blob l.message_hash rows)) [
    | inl absent ↦ absurd (ground arith)
    | inr (m, there) ↦
        ground (arith, find_blob-insert l.message_hash rows r m, join-insert rows r ls)
  ]

  -- The bodies and durations of a session's messages, as `GetSession` reads them.
  abbrev pub entry_of : CompactSessionMessage → Bytes × ℕ
  entry_of m = (m.body, m.duration_ms)

  abbrev pub transcript : Db → Bytes → List (Bytes × ℕ)
  transcript db id =
      map entry_of (join z db.messages (by_sequence (links_of id db.session_messages)))

-- A hash for which no collision is known: no two texts have one hash.
pub record IsContentHash (sha : Bytes → Bytes) : Type 0 where
  pub bytes : (b : Bytes) → All (λ n. n < 256) (sha b)
  pub nonempty : (b : Bytes) → sha b ≢ []
  pub injective : (b c : Bytes) → sha b ≡ sha c → b ≡ c

hash_hex-nonempty : (bs : Bytes) → bs ≢ [] → hash_hex bs ≢ []
unfolding hash_hex
hash_hex-nonempty [] h e = h refl
hash_hex-nonempty (b ∷ bs) h e = cc

module _ (sha : Bytes → Bytes) (z : Zstd) where
  -- Each stored message is kept under the hash of the text that it is read back as.
  abbrev pub IsHashed : Db → Type 0
  IsHashed db = All (λ m. sha (decompress_data z m.body) ≡ m.hash) db.messages

  abbrev pub stored : ℕ → Bytes → Db → Db
  stored now body db = record db {
    messages = insert_or_ignore (blob_of sha z now body) db.messages;
  }

  add_stored-ne :
      (mh id : Bytes) (d : ℕ) (db : Db)
      → mh ≢ []
      → add_stored sha z mh id d db ≡ (add_message_to_session id mh d db).1
  add_stored-ne [] id d db h = absurd (h refl)
  add_stored-ne (b ∷ bs) id d db h = refl

  module _ (content : IsContentHash sha) where
    pub stored-IsHashed :
        (now : ℕ) (body : Bytes) (db : Db)
        → z.decode body ≡ none
        → IsHashed db
        → IsHashed (stored now body db)
    unfolding insert_or_ignore
    stored-IsHashed now body db plain h =
        elim (Bool-cases (is_some (find_blob (sha body) db.messages))) [
          | inl e ↦ rw e h
          | inr e ↦ rw e (
              All-append_one (λ m. sha (decompress_data z m.body) ≡ m.hash) db.messages
                (blob_of sha z now body) h (ap sha (decompress-compress z body plain)))
        ]

    insert-found :
        (rows : List Blob) (r : Blob)
        → (m : Blob) × (find_blob r.hash (insert_or_ignore r rows) ≡ some m)
    unfolding insert_or_ignore
    insert-found rows r = elim (Option-cases (find_blob r.hash rows)) [
      | inr (m, e) ↦ (m, ground (arith, e))
      | inl e ↦ (r, ground (arith, find_blob-append r.hash rows r, same_iff r.hash r.hash))
    ]

    -- A body that was stored is found under its hash, and reads back as it was.
    pub stored-found :
        (now : ℕ) (body : Bytes) (db : Db)
        → z.decode body ≡ none
        → IsHashed db
        → (m : Blob) × (find_blob (sha body) (stored now body db).messages ≡ some m)
          × (decompress_data z m.body ≡ body)
    stored-found now body db plain h =
        let (m, e) = insert-found db.messages (blob_of sha z now body) in
        let (ok, is) =
          found (λ b. sha (decompress_data z b.body) ≡ b.hash) (sha body)
            (stored now body db).messages m (stored-IsHashed now body db plain h) e in
        (m, e, content.injective (decompress_data z m.body) body (ok ∙ is))

    abbrev pub new_link : Bytes → Bytes → ℕ → Db → Link
    new_link id body d db = record {
      session_id = id;
      message_hash = sha body;
      sequence = max_sequence (links_of id db.session_messages) + 1;
      duration_ms = d;
    }

    add_lem :
        (id bh : Bytes) (d : ℕ) (db : Db)
        → IsValid db
        → is_some (find_session id db.sessions) ≡ true
        → is_some (find_blob (hex_hash bh) db.messages) ≡ true
        → (add_message_to_session id bh d db).1 ≡ record db {
          session_messages =
              db.session_messages
              ++ (record {
                session_id = id;
                message_hash = hex_hash bh;
                sequence = max_sequence (links_of id db.session_messages) + 1;
                duration_ms = d;
              }
                  ∷ []);
        }
    unfolding add_message_to_session
    add_lem id bh d db v s m =
        let links = links_of id db.session_messages in
        ground (
          arith,
          max_sequence-IsNumbered links (v.numbered id),
          has_sequence-IsNumbered (max_sequence links + 1) 1 links (v.numbered id),
        )

    pub logged :
        (now : ℕ) (id body : Bytes) (d : ℕ) (db : Db)
        → IsValid db
        → IsHashed db
        → z.decode body ≡ none
        → is_some (find_session id db.sessions) ≡ true
        → log_message sha z now id body d db ≡ record (stored now body db) {
          session_messages = db.session_messages ++ (new_link id body d db ∷ []);
        }
    unfolding log_message
    logged now id body d db v h plain s =
        let mh = hash_hex (sha body) in
        let back : hex_hash mh ≡ sha body = hex_hash-hash_hex (sha body) (content.bytes body) in
        let (m, there, _) = stored-found now body db plain h in
        add_stored-ne mh id d (stored now body db)
          (hash_hex-nonempty (sha body) (content.nonempty body))
        ∙ add_lem id mh d (stored now body db) (messages-IsValid db (blob_of sha z now body) v) s
            (ap (λ k. is_some (find_blob k (stored now body db).messages)) back ∙ ap is_some there)
        ∙ ap
            (λ k. record (stored now body db) {
              session_messages =
                  db.session_messages
                  ++ (record {
                    session_id = id;
                    message_hash = k;
                    sequence = max_sequence (links_of id db.session_messages) + 1;
                    duration_ms = d;
                  }
                      ∷ []);
            })
            back
