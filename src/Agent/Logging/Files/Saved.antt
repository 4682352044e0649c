-- ===== src/Agent/Logging/Files/Saved.antt =====
-- agent/internal/agent/disk_logger.go: a log that was saved is found again.
use lazy_vllm.Prelude.{
  ℕ, zero, suc, ◌+◌, ◌-◌, ◌≤◌, ◌<◌, ◌≡◌, refl, sym, ap, ◌∙◌, map, Option-cases, String, true, false,
  ◌&&◌, none, some, List, [], ◌∷◌, inl, inr, Bool-cases, if◌then◌else◌, ◌==◌, str_eq, eq_iff, arith,
  ltb,
}
use lazy_vllm.Json.{Json, doc}
use lazy_vllm.Json.Structs.{◌>>=◌}
use lazy_vllm.Agent.Logging.Reread.{IsInt, AreInts, reread_call, decode_log-log_json}
use lazy_vllm.Agent.Logging.{RequestLog}
use lazy_vllm.Agent.Logging.Disk.{Clock, log_json, decode_log}
use lazy_vllm.Agent.Logging.Files.{
  Entry, document, File, find_file, write_file, file_name, finished, LogSummary, insert,
  sort_summaries, listed_days, list_logs, save, log_in, get_log, found,
}

find_file-write_file :
    (d k : ℕ) (n m : String) (e : Entry) (fs : List File)
    → find_file d n (write_file k m e fs)
      ≡ (if k == d && str_eq m n then some e else find_file d n fs)
unfolding find_file write_file
find_file-write_file d k n m e [] = refl
find_file-write_file d k n m e (f ∷ fs) =
    ground (arith, eq_iff f.name m, eq_iff f.name n, eq_iff m n, find_file-write_file d k n m e fs)

abbrev pub Absent : ℕ → ℕ → String → List File → Type 0
Absent zero today name disk = Unit
Absent (suc i) today name disk = (find_file today name disk ≡ none) × Absent i (today - 1) name disk

module _ (clock : Clock) where
  get_log-written :
      (id : String) (v : Json) (disk : List File) (day i n today : ℕ)
      → day + i ≡ today
      → i < n
      → Absent i today (file_name id) disk
      → get_log clock id n today (write_file day (file_name id) (document v) disk)
        ≡ log_in (decode_log clock v)
  unfolding get_log
  get_log-written id v disk day i zero today e h a = absurd (omega arith)
  get_log-written id v disk day zero (suc n) today e h a =
      let same : (day == today) ≡ true = ground arith in
      let self : str_eq (file_name id) (file_name id) ≡ true =
        (eq_iff (file_name id) (file_name id)).1 refl in
      rw
        (find_file-write_file today day (file_name id) (file_name id) (document v) disk, same, self)
        refl
  get_log-written id v disk day (suc i) (suc n) today e h (a, rest) =
      let other : (day == today) ≡ false = ground arith in
      let before : day + i ≡ today - 1 = omega arith in
      let less : i < n = omega arith in
      rw (find_file-write_file today day (file_name id) (file_name id) (document v) disk, other, a)
        (get_log-written id v disk day i n (today - 1) before less rest)

  get_log-saved :
      (r : RequestLog) (now : ℕ) (v : Json) (disk : List File) (i n : ℕ)
      → log_json clock (finished now r) ≡ some v
      → i < n
      → Absent i (clock.day_of r.started_at + i) (file_name r.id) disk
      → get_log clock r.id n (clock.day_of r.started_at + i) (save clock now true r disk)
        ≡ log_in (decode_log clock v)
  unfolding save
  get_log-saved r now v disk i n h l a = rw h (
      get_log-written r.id v disk (clock.day_of r.started_at) i n (clock.day_of r.started_at + i)
        refl l a)

  -- A log whose body is JSON and whose numbers are in the range of an int is found again by its
  -- identifier `i` days after it is saved to a directory that can be made, if times are read as they
  -- are printed, more than `i` days are searched, and no other file has its name on a later day. It
  -- is the log that was finished, with the contents of its messages as decoded JSON.
  pub get_log-save :
      (prints : (t : ℕ) → clock.read (clock.print t) ≡ some t) (r : RequestLog) (now : ℕ)
      (body : Json) (disk : List File) (i n : ℕ)
      → r.request_body ≡ doc body
      → IsInt (finished now r).duration_ms
      → AreInts r.calls
      → i < n
      → Absent i (clock.day_of r.started_at + i) (file_name r.id) disk
      → get_log clock r.id n (clock.day_of r.started_at + i) (save clock now true r disk)
        ≡ found (record (finished now r) { calls = map reread_call r.calls })
  get_log-save prints r now body disk i n is d cs l a =
      let decoded = decode_log-log_json clock prints (finished now r) body is d cs in
      elim (Option-cases (log_json clock (finished now r))) [
        | inl h ↦ absurd (ground (arith, ap (λ o. o >>= decode_log clock) h, decoded))
        | inr (v, h) ↦
            get_log-saved r now v disk i n h l a
            ∙ ap log_in (ap (λ o. o >>= decode_log clock) (sym h) ∙ decoded)
      ]

-- Each summary starts no earlier than those behind it.
abbrev NoLater : ℕ → List LogSummary → Type 0
NoLater t [] = Unit
NoLater t (s ∷ ss) = (s.started_at ≤ t) × NoLater t ss

abbrev pub LatestFirst : List LogSummary → Type 0
LatestFirst [] = Unit
LatestFirst (s ∷ ss) = NoLater s.started_at ss × LatestFirst ss

NoLater-trans : (t u : ℕ) (ss : List LogSummary) → u ≤ t → NoLater u ss → NoLater t ss
NoLater-trans t u [] h a = tt
NoLater-trans t u (s ∷ ss) h (a, rest) = (omega arith, NoLater-trans t u ss h rest)

insert-NoLater :
    (t : ℕ) (s : LogSummary) (ss : List LogSummary)
    → s.started_at ≤ t
    → NoLater t ss
    → NoLater t (insert s ss)
insert-NoLater t s [] h a = (h, tt)
insert-NoLater t s (u ∷ us) h (a, rest) = elim (Bool-cases (ltb s.started_at u.started_at)) [
  | inl b ↦ rw b (a, insert-NoLater t s us h rest)
  | inr b ↦ rw b (h, (a, rest))
]

insert-LatestFirst :
    (s : LogSummary) (ss : List LogSummary) → LatestFirst ss → LatestFirst (insert s ss)
insert-LatestFirst s [] h = (tt, tt)
insert-LatestFirst s (u ∷ us) (a, rest) = elim (Bool-cases (ltb s.started_at u.started_at)) [
  | inl b ↦
      (let l : s.started_at ≤ u.started_at = ground arith in
        rw b (insert-NoLater u.started_at s us l a, insert-LatestFirst s us rest))
  | inr b ↦
      (let l : u.started_at ≤ s.started_at = ground arith in
        rw b ((l, NoLater-trans s.started_at u.started_at us l a), (a, rest)))
]

sort_summaries-LatestFirst : (ss : List LogSummary) → LatestFirst (sort_summaries ss)
unfolding sort_summaries
sort_summaries-LatestFirst [] = tt
sort_summaries-LatestFirst (s ∷ ss) =
    insert-LatestFirst s (sort_summaries ss) (sort_summaries-LatestFirst ss)

-- The logs of any days are listed the latest first.
pub list_logs-LatestFirst :
    (clock : Clock) (days today : ℕ) (disk : List File)
    → LatestFirst (list_logs clock days today disk)
unfolding list_logs
list_logs-LatestFirst clock days today disk =
    sort_summaries-LatestFirst (listed_days clock days today disk)
