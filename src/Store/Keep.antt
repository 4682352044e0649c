-- ===== src/Store/Keep.antt =====
-- The invariant of the session store: each session's messages are numbered from 1 in the order of
-- insertion, and every reference leads to a row.
use lazy_vllm.Prelude.{
  ℕ, suc, ◌+◌, ◌≤◌, ◌≡◌, refl, true, false, none, some, List, [], ◌∷◌, ◌++◌, length, All, arith,
  if◌then◌else◌,
}
use lazy_vllm.Text.Same.{same}
use lazy_vllm.Store.{
  Bytes, Blob, SessionRow, Link, Db, find_blob, find_session, is_some, insert_or_ignore, refers,
  links_of, max_sequence, has_sequence,
}

-- The sequences of a list of links count up from a number.
abbrev pub IsNumbered : ℕ → List Link → Type 0
IsNumbered n [] = Unit
IsNumbered n (l ∷ ls) = (l.sequence ≡ n) × IsNumbered (suc n) ls

pub links_of-append :
    (id : Bytes) (ls ks : List Link) → links_of id (ls ++ ks) ≡ links_of id ls ++ links_of id ks
unfolding links_of
links_of-append id [] ks = refl
links_of-append id (l ∷ ls) ks = ground (arith, links_of-append id ls ks)

pub IsNumbered-append :
    (n : ℕ) (ls : List Link) (l : Link)
    → IsNumbered n ls
    → l.sequence ≡ n + length ls
    → IsNumbered n (ls ++ (l ∷ []))
IsNumbered-append n [] l h e = (omega arith, tt)
IsNumbered-append n (k ∷ ls) l (h, hs) e = (h, IsNumbered-append (suc n) ls l hs (omega arith))

max_sequence-cons :
    (n : ℕ) (l : Link) (ls : List Link)
    → IsNumbered (suc n) (l ∷ ls)
    → max_sequence (l ∷ ls) ≡ n + length (l ∷ ls)
unfolding max_sequence
max_sequence-cons n l [] (e, h) = ground arith
max_sequence-cons n l (k ∷ ls) (e, h) = ground (arith, max_sequence-cons (suc n) k ls h)

-- The next sequence of a numbered session is one more than its length.
pub max_sequence-IsNumbered : (ls : List Link) → IsNumbered 1 ls → max_sequence ls ≡ length ls
unfolding max_sequence
max_sequence-IsNumbered [] h = refl
max_sequence-IsNumbered (l ∷ ls) h = omega (arith, max_sequence-cons 0 l ls h)

pub has_sequence-IsNumbered :
    (n m : ℕ) (ls : List Link) → IsNumbered m ls → m + length ls ≤ n → has_sequence n ls ≡ false
has_sequence-IsNumbered n m [] h le = refl
has_sequence-IsNumbered n m (l ∷ ls) (e, h) le =
    ground (arith, has_sequence-IsNumbered n (suc m) ls h)

pub find_blob-append :
    (h : Bytes) (rows : List Blob) (r : Blob)
    → find_blob h (rows ++ (r ∷ [])) ≡ (
        if is_some (find_blob h rows)
        then find_blob h rows
        else if same r.hash h
        then some r
        else none)
unfolding find_blob
find_blob-append h [] r = ground arith
find_blob-append h (k ∷ rows) r = ground (arith, find_blob-append h rows r)

pub find_session-append :
    (id : Bytes) (rows : List SessionRow) (r : SessionRow)
    → find_session id (rows ++ (r ∷ [])) ≡ (
        if is_some (find_session id rows)
        then find_session id rows
        else if same r.id id
        then some r
        else none)
unfolding find_session
find_session-append id [] r = ground arith
find_session-append id (k ∷ rows) r = ground (arith, find_session-append id rows r)

-- A row that is there stays what it is when another is inserted.
pub find_blob-insert :
    (h : Bytes) (rows : List Blob) (r m : Blob)
    → find_blob h rows ≡ some m
    → find_blob h (insert_or_ignore r rows) ≡ some m
unfolding insert_or_ignore
find_blob-insert h rows r m e = ground (arith, find_blob-append h rows r)

pub is_some-find_blob-insert :
    (h : Bytes) (rows : List Blob) (r : Blob)
    → is_some (find_blob h rows) ≡ true
    → is_some (find_blob h (insert_or_ignore r rows)) ≡ true
unfolding insert_or_ignore
is_some-find_blob-insert h rows r e = ground (arith, find_blob-append h rows r)

abbrev pub IsLinked : Db → Link → Type 0
IsLinked db l =
    (is_some (find_session l.session_id db.sessions) ≡ true)
    × (is_some (find_blob l.message_hash db.messages) ≡ true)

pub record IsValid (db : Db) : Type 0 where
  pub numbered : (id : Bytes) → IsNumbered 1 (links_of id db.session_messages)
  pub linked : All (IsLinked db) db.session_messages
  pub with_tools : All (λ r. refers r.tools_hash db.tools ≡ true) db.sessions

pub All-append_one {ℓ κ} :
    {A : Type ℓ} (P : A → Type κ) (xs : List A) (x : A) → All P xs → P x → All P (xs ++ (x ∷ []))
All-append_one P [] x h p = (p, tt)
All-append_one P (y ∷ xs) x (q, h) p = (q, All-append_one P xs x h p)

pub All-map_to {ℓ κ μ} :
    {A : Type ℓ} (P : A → Type κ) (Q : A → Type μ) (xs : List A)
    → ((x : A) → P x → Q x)
    → All P xs
    → All Q xs
All-map_to P Q [] f h = tt
All-map_to P Q (x ∷ xs) f (p, h) = (f x p, All-map_to P Q xs f h)
