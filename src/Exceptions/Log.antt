-- ===== src/Exceptions/Log.antt =====
-- backend/app/core/exceptions.py: the in-memory ring buffer behind the admin panel.
use text.Mathlib.Text.{◌==◌ as str_eq}
use pandahub.Prelude.{
  ℕ, ◌+◌, Option, none, some, Bool, true, false, String, List, [], ◌∷◌, take, drop, ltb, ◌==◌,
  if◌then◌else◌,
}
use pandahub.Exceptions.{Severity}

pub record ErrorRecord : Type 0 where
  pub id : ℕ
  pub code : String
  pub path : String
  pub severity : Severity
  pub status_code : ℕ
  pub timestamp : ℕ

-- Newest first, as the deque that `appendleft` fills.
abbrev pub ErrorLog : Type 0
ErrorLog = List ErrorRecord

abbrev pub max_error_records : ℕ
max_error_records = 500

-- `appendleft` on a deque with a `maxlen` drops from the right end.
unfoldable pub record_error : ErrorRecord → ErrorLog → ErrorLog
record_error r log = take max_error_records (r ∷ log)

-- items[offset : offset + limit]
unfoldable pub get_error_log : (limit offset : ℕ) → ErrorLog → List ErrorRecord
get_error_log limit offset log = take limit (drop offset log)

unfoldable pub clear_error_log : ErrorLog → ErrorLog
clear_error_log log = []

-- The first record with the id is deleted.
unfoldable pub remove_error_record : ℕ → ErrorLog → ErrorLog × Bool
remove_error_record i [] = ([], false)
remove_error_record i (r ∷ log) =
    let (rest, found) = remove_error_record i log in
    if r.id == i then (log, true) else (r ∷ rest, found)

pub record Count : Type 0 where
  pub key : String
  pub count : ℕ
  pub last_seen : Option ℕ
  pub severity : Severity

-- The latest of two timestamps, the first of which may be missing.
abbrev pub later : Option ℕ → ℕ → Option ℕ
later none t = some t
later (some s) t = if ltb s t then some t else some s

-- One round of the loop: `counts[code]`, a `defaultdict` entry, takes the record in.
unfoldable pub count_record : ErrorRecord → List Count → List Count
count_record r [] =
    record { key = r.code; count = 1; last_seen = some r.timestamp; severity = r.severity } ∷ []
count_record r (c ∷ counts) =
    if str_eq c.key r.code
    then record c {
      count = c.count + 1;
      severity = r.severity;
      last_seen = later c.last_seen r.timestamp;
    }
      ∷ counts
    else c ∷ count_record r counts

unfoldable pub count_records : ErrorLog → List Count → List Count
count_records [] counts = counts
count_records (r ∷ log) counts = count_records log (count_record r counts)

-- Stable insertion by descending count: `sorted(…, key=lambda x: -x["count"])`.
unfoldable pub insert_count : Count → List Count → List Count
insert_count c [] = c ∷ []
insert_count c (d ∷ counts) =
    if ltb c.count d.count then d ∷ insert_count c counts else c ∷ d ∷ counts

unfoldable pub sort_counts : List Count → List Count
sort_counts [] = []
sort_counts (c ∷ counts) = insert_count c (sort_counts counts)

unfoldable pub get_error_stats : ErrorLog → List Count
get_error_stats log = sort_counts (count_records log [])
