-- ===== src/State/Rows.antt =====
-- internal/state: the queries that read rows. Scan's conversions are database/sql's: a row has
-- what they stored, and a destination keeps its zero value where the row has another shape.
use teslausb_neo.Base.{String, ◌<>◌, Option, none, some, List, [], ◌∷◌}
use teslausb_neo.Base.Int.{ℤ, pos, negsuc}
use teslausb_neo.Host.{Call, sql, Value, text, int, null, Row, Answer, Host}
use teslausb_neo.Host.Fallible.{Result, ok, err, E, Done, return, ◌>>=◌, ◌>>◌, wrap, try}

pub record ArchiveSession : Type 0 where
  pub id : ℤ
  pub started_at : ℤ
  pub completed_at : Option ℤ  -- sql.NullTime
  pub files_archived : ℤ
  pub bytes_archived : ℤ
  pub status : String
  pub error_message : String

pub record HealthMetric : Type 0 where
  pub id : ℤ
  pub timestamp : ℤ
  pub cpu_temp_mc : ℤ
  pub storage_used_bytes : ℤ
  pub storage_free_bytes : ℤ

-- The destination of a column: the first value that is left, and the others.
abbrev column : List Value → Value
column [] = null
column (v ∷ vs) = v

abbrev others : List Value → List Value
others [] = []
others (v ∷ vs) = vs

abbrev number : Value → ℤ
number (int n) = n
number _ = pos 0

abbrev string : Value → String
string (text s) = s
string _ = ""

-- *string, nil for NULL
abbrev string_or_nil : Value → Option String
string_or_nil (text s) = some s
string_or_nil _ = none

-- The zero time.Time, in seconds from 1970 on.
abbrev pub zero_time : ℤ
zero_time = negsuc 62135596799

abbrev pub recent_sessions_query : ℤ → Call
recent_sessions_query limit =
    sql
      "SELECT id, started_at, completed_at, files_archived, bytes_archived, status, error_message FROM archive_sessions ORDER BY started_at DESC LIMIT ?"
      (int limit ∷ [])

abbrev pub recent_health_query : ℤ → Call
recent_health_query limit =
    sql
      "SELECT id, timestamp, cpu_temp_mc, storage_used_bytes, storage_free_bytes FROM health_metrics ORDER BY timestamp DESC LIMIT ?"
      (int limit ∷ [])

abbrev pub insert_health : ℤ → ℤ → ℤ → Call
insert_health temp used free =
    sql
      "INSERT INTO health_metrics (timestamp, cpu_temp_mc, storage_used_bytes, storage_free_bytes) VALUES (datetime('now'), ?, ?, ?)"
      (int temp ∷ int used ∷ int free ∷ [])

-- `for rows.Next() { … }`: the rows in order, up to the first whose Scan fails.
unfoldable pub each_row : {A : Type 0} → String → (List Value → A) → List Row → Result (List A)
each_row prefix read [] = ok []
each_row prefix read (r ∷ rs) = elim r.scan_fault [
  | some f ↦ err (prefix <> ": " <> f.message)
  | none ↦ elim (each_row prefix read rs) [ err m ↦ err m | ok found ↦ ok (read r.columns ∷ found) ]
]

-- What rows.Err() adds once the rows are read.
abbrev checked : {A : Type 0} → String → Answer → A → Result A
checked prefix a found = elim a.rows_fault [
  | none ↦ ok found
  | some f ↦ err (prefix <> ": " <> f.message)
]

module _ (H : Host) where
  -- `t, _ := time.Parse(…)`
  unfoldable pub time_of : String → ℤ
  time_of s = elim (H.parse_time s) [ none ↦ zero_time | some n ↦ n ]

  unfoldable pub session_of : List Value → ArchiveSession
  unfolding time_of
  session_of c0 =
      let c1 = others c0 in
      let c2 = others c1 in
      let c3 = others c2 in
      let c4 = others c3 in
      let c5 = others c4 in
      let c6 = others c5 in
      record {
        id = number (column c0);
        started_at = time_of (string (column c1));
        completed_at = elim (string_or_nil (column c2)) [ none ↦ none | some s ↦ some (time_of s) ];
        files_archived = number (column c3);
        bytes_archived = number (column c4);
        status = string (column c5);
        error_message = string (column c6);
      }

  unfoldable pub metric_of : List Value → HealthMetric
  unfolding time_of
  metric_of c0 =
      let c1 = others c0 in
      let c2 = others c1 in
      let c3 = others c2 in
      let c4 = others c3 in
      record {
        id = number (column c0);
        timestamp = time_of (string (column c1));
        cpu_temp_mc = number (column c2);
        storage_used_bytes = number (column c3);
        storage_free_bytes = number (column c4);
      }

  -- The loop over the rows of an answer, and rows.Err() behind it.
  unfoldable pub collect : {A : Type 0} → String → String → (List Value → A) → Answer → E (List A)
  unfolding each_row
  collect scan iterate read a t = elim (each_row scan read a.rows) [
    | err m ↦ (err m, t)
    | ok found ↦ (checked iterate a found, t)
  ]

  unfoldable pub recent_sessions : ℤ → E (List ArchiveSession)
  unfolding collect session_of
  recent_sessions limit = do
    a ← wrap "query recent sessions" (try H (recent_sessions_query limit))
    collect "scan session row" "iterate sessions" session_of a

  unfoldable pub recent_health : ℤ → E (List HealthMetric)
  unfolding collect metric_of
  recent_health limit = do
    a ← wrap "query recent health" (try H (recent_health_query limit))
    collect "scan health row" "iterate health metrics" metric_of a

  unfoldable pub record_health : ℤ → ℤ → ℤ → Done
  record_health temp used free = do
    wrap "record health" (try H (insert_health temp used free))
    return tt
