-- ===== src/Store/Shown.antt =====
-- proxy/internal/logger/compact.go and ui.go: a session that has messages is shown with them.
use lazy_vllm.Prelude.{
  ℕ, ◌≡◌, ◌≢◌, ◌++◌, refl, ap, sym, ◌∙◌, none, some, List, [], ◌∷◌, map, All, inl, inr, Bool-cases,
  Option-cases, arith,
}
use lazy_vllm.Text.Same.{same, same_iff}
use lazy_vllm.Store.{Bytes, Link, SessionRow, Db, find_session, links_of}
use lazy_vllm.Store.Compress.{Zstd}
use lazy_vllm.Store.Keep.{IsValid, IsLinked}
use lazy_vllm.Store.Reads.{
  CompactSession, CompactSessionMessage, get_session, by_sequence, session_of, join,
}
use lazy_vllm.Store.Refines.{entry_of, transcript}
use lazy_vllm.Store.Ui.{detail, detail_of, handle_session_detail}

links_of-absent :
    (db : Db) (id : Bytes) (ls : List Link)
    → find_session id db.sessions ≡ none
    → All (IsLinked db) ls
    → links_of id ls ≡ []
unfolding links_of
links_of-absent db id [] h a = refl
links_of-absent db id (l ∷ ls) h (a, rest) = elim (Bool-cases (same l.session_id id)) [
  | inl t ↦
      (let e = (same_iff l.session_id id).0 t in
        let o = ap (λ i. find_session i db.sessions) e ∙ h in absurd (ground (arith, o, a.0)))
  | inr t ↦ rw t (links_of-absent db id ls h rest)
]

append-ne-nil {ℓ} : {A : Type ℓ} (xs : List A) (x : A) → xs ++ x ∷ [] ≢ []
append-ne-nil [] x h = cc
append-ne-nil (y ∷ xs) x h = cc

module _ (z : Zstd) where
  transcript-absent :
      (db : Db) (id : Bytes)
      → IsValid db
      → find_session id db.sessions ≡ none
      → transcript z db id ≡ []
  unfolding by_sequence
  transcript-absent db id v h =
      ap (λ ls. map (entry_of z) (join z db.messages (by_sequence ls)))
        (links_of-absent db id db.session_messages h v.linked)

  get_session_found :
      (db : Db) (id : Bytes) (r : SessionRow)
      → find_session id db.sessions ≡ some r
      → get_session z id db
        ≡ some (session_of r, join z db.messages (by_sequence (links_of id db.session_messages)))
  unfolding get_session
  get_session_found db id r h = rw (get_session, h) refl

  -- A session of a valid store that has messages is shown with them.
  pub handle_session_detail-transcript :
      (db : Db) (b : ℕ) (id : Bytes) (e : Bytes × ℕ) (es : List (Bytes × ℕ))
      → IsValid db
      → transcript z db (b ∷ id) ≡ es ++ e ∷ []
      → (s : CompactSession) × (ms : List CompactSessionMessage) × (handle_session_detail z
            (b ∷ id)
            db
          ≡ detail s ms)
        × (map (entry_of z) ms ≡ es ++ e ∷ [])
  unfolding handle_session_detail
  handle_session_detail-transcript db b id e es v h =
      elim (Option-cases (find_session (b ∷ id) db.sessions)) [
        | inl t ↦ absurd (append-ne-nil es e (sym h ∙ transcript-absent db (b ∷ id) v t))
        | inr (r, t) ↦ (
          session_of r,
          join z db.messages (by_sequence (links_of (b ∷ id) db.session_messages)),
          ap detail_of (get_session_found db (b ∷ id) r t),
          h,
        )
      ]
