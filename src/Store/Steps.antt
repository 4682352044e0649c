-- ===== src/Store/Steps.antt =====
-- Every operation of the session store keeps its invariant.
use mathlib.Core.Path.{subst}
use mathlib.Core.List.{append-nil}
use lazy_vllm.Prelude.{
  ℕ, ◌+◌, ◌≡◌, refl, ap, sym, ◌∙◌, true, false, Option, none, some, List, [], ◌∷◌, ◌++◌, length,
  map, All, inl, inr, arith, Bool-cases, if◌then◌else◌,
}
use lazy_vllm.Json.{Json}
use lazy_vllm.Text.Same.{same, same_iff}
use lazy_vllm.Store.Compress.{Zstd}
use lazy_vllm.Store.{
  Bytes, Blob, SessionRow, Link, Db, empty_db, find_session, is_some, insert_or_ignore, refers,
  links_of, max_sequence, add_message_to_session, set_session_summary, start_session, store_message,
  store_tools, store_raw_request, blob_of,
}
use lazy_vllm.Store.Keep.{
  IsNumbered, IsLinked, IsValid, links_of-append, IsNumbered-append, max_sequence-IsNumbered,
  find_session-append, is_some-find_blob-insert, All-append_one, All-map_to,
}

pub links_of_one :
    (id : Bytes) (l : Link) → same l.session_id id ≡ true → links_of id (l ∷ []) ≡ l ∷ []
unfolding links_of
links_of_one id l h = ground arith

pub links_of_other :
    (id : Bytes) (l : Link) → same l.session_id id ≡ false → links_of id (l ∷ []) ≡ []
unfolding links_of
links_of_other id l h = ground arith

link-IsNumbered :
    (id : Bytes) (ls : List Link) (l : Link)
    → IsNumbered 1 (links_of id ls)
    → l.sequence ≡ max_sequence (links_of l.session_id ls) + 1
    → IsNumbered 1 (links_of id (ls ++ (l ∷ [])))
link-IsNumbered id ls l h e = elim (Bool-cases (same l.session_id id)) [
  | inl here ↦
      let is : l.session_id ≡ id = (same_iff l.session_id id).0 here in
      let next : l.sequence ≡ 1 + length (links_of id ls) =
        e
        ∙ ap (λ i. max_sequence (links_of i ls) + 1) is
        ∙ omega (arith, max_sequence-IsNumbered (links_of id ls) h) in
      subst (IsNumbered 1)
        (sym
          (links_of-append id ls (l ∷ []) ∙ ap (λ r. links_of id ls ++ r) (links_of_one id l here)))
        (IsNumbered-append 1 (links_of id ls) l h next)
  | inr other ↦
      subst (IsNumbered 1)
        (sym (
          links_of-append id ls (l ∷ [])
          ∙ ap (λ r. links_of id ls ++ r) (links_of_other id l other)
          ∙ append-nil (links_of id ls)))
        h
]

link-IsValid :
    (db : Db) (l : Link)
    → IsValid db
    → l.sequence ≡ max_sequence (links_of l.session_id db.session_messages) + 1
    → IsLinked db l
    → IsValid (record db { session_messages = db.session_messages ++ (l ∷ []) })
link-IsValid db l v e k = record {
  numbered = λ id. link-IsNumbered id db.session_messages l (v.numbered id) e;
  linked = All-append_one (IsLinked db) db.session_messages l v.linked k;
  with_tools = v.with_tools;
}

pub add_message_to_session-IsValid :
    (id hash : Bytes) (d : ℕ) (db : Db)
    → IsValid db
    → IsValid (add_message_to_session id hash d db).1
unfolding add_message_to_session
add_message_to_session-IsValid id hash d db v = grind (arith, link-IsValid)

pub messages-IsValid :
    (db : Db) (r : Blob)
    → IsValid db
    → IsValid (record db { messages = insert_or_ignore r db.messages })
messages-IsValid db r v = record {
  numbered = v.numbered;
  linked =
      All-map_to (IsLinked db) (IsLinked (record db { messages = insert_or_ignore r db.messages }))
        db.session_messages
        (λ l k. (k.0, is_some-find_blob-insert l.message_hash db.messages r k.1)) v.linked;
  with_tools = v.with_tools;
}

refers-insert :
    (h : Option Bytes) (rows : List Blob) (r : Blob)
    → refers h rows ≡ true
    → refers h (insert_or_ignore r rows) ≡ true
refers-insert none rows r e = refl
refers-insert (some h) rows r e = is_some-find_blob-insert h rows r e

tools-IsValid :
    (db : Db) (r : Blob) → IsValid db → IsValid (record db { tools = insert_or_ignore r db.tools })
tools-IsValid db r v = record {
  numbered = v.numbered;
  linked = v.linked;
  with_tools =
      All-map_to (λ s. refers s.tools_hash db.tools ≡ true)
        (λ s. refers s.tools_hash (insert_or_ignore r db.tools) ≡ true) db.sessions
        (λ s e. refers-insert s.tools_hash db.tools r e) v.with_tools;
}

sessions-IsValid :
    (db : Db) (s : SessionRow)
    → IsValid db
    → refers s.tools_hash db.tools ≡ true
    → IsValid (record db { sessions = db.sessions ++ (s ∷ []) })
sessions-IsValid db s v e = record {
  numbered = v.numbered;
  linked =
      All-map_to (IsLinked db) (IsLinked (record db { sessions = db.sessions ++ (s ∷ []) }))
        db.session_messages
        (λ l k. (ground (arith, find_session-append l.session_id db.sessions s), k.1)) v.linked;
  with_tools =
      All-append_one (λ r. refers r.tools_hash db.tools ≡ true) db.sessions s v.with_tools e;
}

start_session-IsValid :
    (random : Bytes) (now : ℕ) (th f m u p q : Bytes) (n : ℕ) (db : Db)
    → IsValid db
    → IsValid (start_session random now th f m u p q n db).1
unfolding start_session
start_session-IsValid random now th f m u p q n db v = grind (arith, sessions-IsValid)

summed : Bytes → Bytes → SessionRow → SessionRow
summed id summary r = if same r.id id then record r { summary = some summary } else r

summed-id : (id summary : Bytes) (r : SessionRow) → (summed id summary r).id ≡ r.id
unfolding summed
summed-id id summary r = ground arith

summed-tools_hash :
    (id summary : Bytes) (r : SessionRow) → (summed id summary r).tools_hash ≡ r.tools_hash
unfolding summed
summed-tools_hash id summary r = ground arith

find_session-map :
    (i id summary : Bytes) (rows : List SessionRow)
    → is_some (find_session i (map (summed id summary) rows)) ≡ is_some (find_session i rows)
unfolding find_session
find_session-map i id summary [] = refl
find_session-map i id summary (r ∷ rows) =
    ground (arith, summed-id id summary r, find_session-map i id summary rows)

All-summed :
    (id summary : Bytes) (tools : List Blob) (rows : List SessionRow)
    → All (λ r. refers r.tools_hash tools ≡ true) rows
    → All (λ r. refers r.tools_hash tools ≡ true) (map (summed id summary) rows)
All-summed id summary tools [] h = tt
All-summed id summary tools (r ∷ rows) (e, h) = (
  ap (λ t. refers t tools) (summed-tools_hash id summary r) ∙ e,
  All-summed id summary tools rows h,
)

set_session_summary-IsValid :
    (id summary : Bytes) (db : Db) → IsValid db → IsValid (set_session_summary id summary db)
unfolding set_session_summary summed
set_session_summary-IsValid id summary db v = record {
  numbered = v.numbered;
  linked =
      All-map_to (IsLinked db)
        (IsLinked (record db { sessions = map (summed id summary) db.sessions }))
        db.session_messages
        (λ l k. (find_session-map l.session_id id summary db.sessions ∙ k.0, k.1)) v.linked;
  with_tools = All-summed id summary db.tools db.sessions v.with_tools;
}

raw-IsValid :
    (z : Zstd) (now : ℕ) (id path : Bytes) (headers : Json) (body : Bytes) (db : Db)
    → IsValid db
    → IsValid (store_raw_request z now id path headers body db).1
unfolding store_raw_request
raw-IsValid z now id path headers body db v =
    elim (Bool-cases (is_some (find_session id db.sessions))) [
      | inl e ↦
          rw e (record { numbered = v.numbered; linked = v.linked; with_tools = v.with_tools })
      | inr e ↦ rw e v
    ]

-- The operations that change the store, with their arguments.
pub data Operation : Type 0 where
  starting : Bytes → ℕ → Bytes → Bytes → Bytes → Bytes → Bytes → Bytes → ℕ → Operation
  storing_tools : ℕ → Bytes → Operation
  storing : ℕ → Bytes → Operation
  adding : Bytes → Bytes → ℕ → Operation
  summarising : Bytes → Bytes → Operation
  keeping_raw : ℕ → Bytes → Bytes → Json → Bytes → Operation

module _ (sha : Bytes → Bytes) (z : Zstd) where
  abbrev pub operate : Operation → Db → Db
  operate (starting r now th f m u p q n) db = (start_session r now th f m u p q n db).1
  operate (storing_tools now body) db = (store_tools sha z now body db).1
  operate (storing now body) db = (store_message sha z now body db).1
  operate (adding id hash d) db = (add_message_to_session id hash d db).1
  operate (summarising id summary) db = set_session_summary id summary db
  operate (keeping_raw now id path headers body) db =
      (store_raw_request z now id path headers body db).1

  abbrev pub operate_all : List Operation → Db → Db
  operate_all [] db = db
  operate_all (o ∷ os) db = operate_all os (operate o db)

  pub operate-IsValid : (o : Operation) (db : Db) → IsValid db → IsValid (operate o db)
  unfolding store_tools store_message
  operate-IsValid (starting r now th f m u p q n) db v =
      start_session-IsValid r now th f m u p q n db v
  operate-IsValid (storing_tools now body) db v = tools-IsValid db (blob_of sha z now body) v
  operate-IsValid (storing now body) db v = messages-IsValid db (blob_of sha z now body) v
  operate-IsValid (adding id hash d) db v = add_message_to_session-IsValid id hash d db v
  operate-IsValid (summarising id summary) db v = set_session_summary-IsValid id summary db v
  operate-IsValid (keeping_raw now id path headers body) db v =
      raw-IsValid z now id path headers body db v

  operate_all_from : (os : List Operation) (db : Db) → IsValid db → IsValid (operate_all os db)
  operate_all_from [] db v = v
  operate_all_from (o ∷ os) db v = operate_all_from os (operate o db) (operate-IsValid o db v)

  -- After any operations on an empty store, each session's messages are numbered from 1 without
  -- gaps, its messages and its session are there, and so are the tools of each session.
  pub operate_all-IsValid : (os : List Operation) → IsValid (operate_all os empty_db)
  unfolding links_of
  operate_all-IsValid os =
      operate_all_from os empty_db (record { numbered = λ id. tt; linked = tt; with_tools = tt })
