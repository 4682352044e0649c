-- ===== src/Agent/Logging/Files.antt =====
-- agent/internal/agent/disk_logger.go: the files of logs, a directory for each day. A day is its
-- number, and a directory is read in the order in which its files stand in the list.
pub mod Saved
use lazy_vllm.Prelude.{
  ℕ, zero, suc, ◌+◌, ◌-◌, ◌/◌, String, ◌<>◌, Bool, true, false, not, ◌&&◌, Option, none, some, List,
  [], ◌∷◌, ◌++◌, length, str_eq, ltb, if◌then◌else◌, ◌==◌,
}
use lazy_vllm.Json.{Json}
use lazy_vllm.Json.Structs.{◌>>=◌}
use lazy_vllm.Text.{has_suffix}
use lazy_vllm.Text.Chars.{chars, char_eq}
use lazy_vllm.Agent.Logging.{RequestLog}
use lazy_vllm.Agent.Logging.Disk.{Clock, log_json, decode_log}

-- What a name of a directory stands for: a document, a text that is no JSON, a file that cannot be
-- read, or a directory.
pub data Entry : Type 0 where
  document : Json → Entry
  no_json unreadable directory : Entry

pub record File : Type 0 where
  pub day : ℕ
  pub name : String
  pub entry : Entry

abbrev pub is_named : ℕ → String → File → Bool
is_named day name f = f.day == day && str_eq f.name name

-- `os.ReadFile`: nothing where there is no such file.
unfoldable pub find_file : ℕ → String → List File → Option Entry
find_file day name [] = none
find_file day name (f ∷ fs) = if is_named day name f then some f.entry else find_file day name fs

-- `os.WriteFile`.
unfoldable pub write_file : ℕ → String → Entry → List File → List File
write_file day name e [] = (record { day = day; name = name; entry = e }) ∷ []
write_file day name e (f ∷ fs) =
    if is_named day name f
    then (record { day = f.day; name = f.name; entry = e }) ∷ fs
    else f ∷ write_file day name e fs

abbrev pub file_name : String → String
file_name id = id <> ".json"

-- A log that ends at the time `now`, in milliseconds.
abbrev pub finished : ℕ → RequestLog → RequestLog
finished now r = record r { finished_at = now; duration_ms = (now - r.started_at) / 1000000 }

abbrev pub written : ℕ → String → Option Json → List File → List File
written day name none disk = disk
written day name (some v) disk = write_file day name (document v) disk

-- What reading a log gives.
pub data Found : Type 0 where
  found : RequestLog → Found
  read_error : Found
  not_found : Found

pub record LogSummary : Type 0 where
  pub id : String
  pub started_at : ℕ
  pub finished_at : ℕ
  pub duration_ms : ℕ
  pub format : String
  pub request_path : String
  pub call_count : ℕ

abbrev summary_of : RequestLog → LogSummary
summary_of r = record {
  id = r.id;
  started_at = r.started_at;
  finished_at = r.finished_at;
  duration_ms = r.duration_ms;
  format = r.format;
  request_path = r.request_path;
  call_count = length r.calls;
}

abbrev pub insert : LogSummary → List LogSummary → List LogSummary
insert s [] = s ∷ []
insert s (t ∷ ts) = if ltb s.started_at t.started_at then t ∷ insert s ts else s ∷ t ∷ ts

-- `sort.Slice` by the time of the start, the latest first.
unfoldable pub sort_summaries : List LogSummary → List LogSummary
sort_summaries [] = []
sort_summaries (s ∷ ss) = insert s (sort_summaries ss)

abbrev pub log_in : Option RequestLog → Found
log_in none = read_error
log_in (some r) = found r

module _ (clock : Clock) where
  -- `Save`, at the time `now`; `can_make` says that the directory of the day can be made.
  unfoldable pub save : ℕ → Bool → RequestLog → List File → List File
  save now can_make r disk =
      if can_make
      then written (clock.day_of r.started_at) (file_name r.id) (log_json clock (finished now r))
          disk
      else disk

  abbrev pub answer_of : Entry → Found
  answer_of (document v) = log_in (decode_log clock v)
  answer_of _ = read_error

  abbrev pub or_earlier : Option Entry → Found → Found
  or_earlier none next = next
  or_earlier (some e) next = answer_of e

  -- `GetLog`, over the days up to `today`.
  unfoldable pub get_log : String → ℕ → ℕ → List File → Found
  get_log id zero today disk = not_found
  get_log id (suc n) today disk =
      or_earlier (find_file today (file_name id) disk) (get_log id n (today - 1) disk)

  abbrev listed_in : Entry → List LogSummary
  listed_in (document v) = elim (decode_log clock v) [ none ↦ [] | some r ↦ summary_of r ∷ [] ]
  listed_in _ = []

  abbrev listed_file : ℕ → File → List LogSummary
  listed_file day f =
      if f.day == day && has_suffix (chars ".json") (chars f.name) then listed_in f.entry else []

  abbrev listed_day : ℕ → List File → List LogSummary
  listed_day day [] = []
  listed_day day (f ∷ fs) = listed_file day f ++ listed_day day fs

  abbrev pub listed_days : ℕ → ℕ → List File → List LogSummary
  listed_days zero today disk = []
  listed_days (suc n) today disk = listed_day today disk ++ listed_days n (today - 1) disk

  -- `ListLogs`.
  unfoldable pub list_logs : ℕ → ℕ → List File → List LogSummary
  list_logs days today disk = sort_summaries (listed_days days today disk)
