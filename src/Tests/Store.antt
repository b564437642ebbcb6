-- ===== src/Tests/Store.antt =====
-- The theorems on the store at concrete inputs.
use teslausb_neo.Base.{String, ◌≡◌, ◌≢◌, ◌⊎◌, true, false, none, List, [], ◌∷◌, refl}
use teslausb_neo.Base.Int.{pos}
use teslausb_neo.Host.{sql, text, int, null, Row, Host}
use teslausb_neo.Host.Fallible.{ok, err, is_ok}
use teslausb_neo.State.Open.{
  open_store, holds_open, Prepared, open_store-Prepared, open_store-holds_open,
}
use teslausb_neo.State.Rows.{session_of, recent_sessions, recent_sessions_query}
use teslausb_neo.State.Queries.{all_scanned, values, recent_sessions-cases}
use teslausb_neo.State.Refinement.{
  Operation, marks, asks, lists, other, creates_session, Allows, session, session-Allows, done,
  known, files, perform,
}
use teslausb_neo.State.{mark_archived, is_archived, list_unarchived}
use teslausb_neo.State.Laws.{stored}
use teslausb_neo.Tests.Hosts.{
  calm, faulty, host_of, quiet_host, database_host, database_host-IsDatabase,
}

abbrev db_file : String
db_file = "/data/teslausb.db"

opened_fine : (open_store quiet_host db_file []).0 ≡ ok tt
unfolding open_store
opened_fine = refl

open_store-Prepared_example : Prepared quiet_host db_file [] (open_store quiet_host db_file []).1
open_store-Prepared_example = open_store-Prepared quiet_host db_file [] opened_fine

-- A host on which no statement works.
abbrev locked_host : Host
locked_host = host_of (λ t c. elim c [ sql s vs ↦ faulty | _ ↦ calm ])

locked_fails : (open_store locked_host db_file []).0 ≡ err "enable WAL mode: exit status 1"
unfolding open_store
locked_fails = refl

none_open : holds_open locked_host [] ≡ false
unfolding holds_open
none_open = refl

open_store-holds_open_example :
    holds_open locked_host (open_store locked_host db_file []).1
    ≡ is_ok (open_store locked_host db_file []).0
open_store-holds_open_example = open_store-holds_open locked_host db_file [] none_open

abbrev session_row : Row
session_row = record {
  scan_fault = none;
  columns =
      int (pos 7)
      ∷ text "2026-01-01 10:00:00"
      ∷ null
      ∷ int (pos 3)
      ∷ int (pos 4096)
      ∷ text "running"
      ∷ text ""
      ∷ [];
}

abbrev history_host : Host
history_host = host_of (λ t c. record calm { rows = session_row ∷ [] })

one_session :
    (recent_sessions history_host (pos 10) []).0
    ≡ ok (
        record {
          id = pos 7;
          started_at = pos 0;
          completed_at = none;
          files_archived = pos 3;
          bytes_archived = pos 4096;
          status = "running";
          error_message = "";
        }
        ∷ [])
unfolding recent_sessions
one_session = refl

recent_sessions-cases_example :
    let a = history_host.answer [] (recent_sessions_query (pos 10)) in
    let r = (recent_sessions history_host (pos 10) []).0 in
    (a.fault ≡ none)
      × (all_scanned a.rows ≡ true)
      × (a.rows_fault ≡ none)
      × (r ≡ ok (values (session_of history_host) a.rows))
    ⊎ ((a.fault ≢ none) ⊎ (all_scanned a.rows ≡ false) ⊎ (a.rows_fault ≢ none))
      × ((m : String) × (r ≡ err m))
recent_sessions-cases_example = recent_sessions-cases history_host (pos 10) []

abbrev client : List Operation
client =
    other creates_session
    ∷ marks "a.mp4" (pos 0) (pos 1)
    ∷ asks "a.mp4"
    ∷ asks "b.mp4"
    ∷ lists ("a.mp4" ∷ "b.mp4" ∷ [])
    ∷ []

session-Allows_example : Allows [] (session database_host client [])
unfolding stored
session-Allows_example =
    session-Allows database_host database_host-IsDatabase client [] [] (λ f. refl)

-- The replies of that run: the second file is not archived, and the first is not listed.
client_replies :
    session database_host client []
    ≡ (other creates_session, done true)
      ∷ (marks "a.mp4" (pos 0) (pos 1), done true)
      ∷ (asks "a.mp4", known true)
      ∷ (asks "b.mp4", known false)
      ∷ (lists ("a.mp4" ∷ "b.mp4" ∷ []), files ("b.mp4" ∷ []))
      ∷ []
unfolding session perform mark_archived is_archived list_unarchived
client_replies = refl
