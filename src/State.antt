-- ===== src/State.antt =====
-- internal/state/archive.go: the SQLite store of archived files and archive sessions. The engine
-- answers the statements; their texts are the source's, with line breaks as blanks.
pub mod Open
pub mod Rows
pub mod Laws
pub mod Queries
pub mod Refinement
use teslausb_neo.Base.{String, ◌<>◌, Bool, false, none, some, List, [], ◌∷◌, if◌then◌else◌}
use teslausb_neo.Base.Int.{ℤ, pos, ltb_ℤ}
use teslausb_neo.Host.{Call, sql, last_insert_id, text, int, Host}
use teslausb_neo.Host.Io.{M}
use teslausb_neo.Host.Fallible.{E, Done, return, ◌>>=◌, ◌>>◌, wrap, try}

abbrev pub insert_text : String
insert_text =
    "INSERT OR REPLACE INTO archived_files (path, size, archived_at, session_id) VALUES (?, ?, datetime('now'), ?)"

abbrev pub insert_file : String → ℤ → ℤ → Call
insert_file path size session = sql insert_text (text path ∷ int size ∷ int session ∷ [])

abbrev pub count_file : String → Call
count_file path = sql "SELECT COUNT(*) FROM archived_files WHERE path = ?" (text path ∷ [])

abbrev pub insert_session : Call
insert_session =
    sql "INSERT INTO archive_sessions (started_at, status) VALUES (datetime('now'), 'running')" []

abbrev pub complete_text : String
complete_text =
    "UPDATE archive_sessions SET completed_at = datetime('now'), files_archived = ?, bytes_archived = ?, status = 'completed' WHERE id = ?"

abbrev pub fail_text : String
fail_text =
    "UPDATE archive_sessions SET completed_at = datetime('now'), status = 'failed', error_message = ? WHERE id = ?"

abbrev pub complete : ℤ → ℤ → ℤ → Call
complete id files bytes = sql complete_text (int files ∷ int bytes ∷ int id ∷ [])

abbrev pub fail_statement : ℤ → String → Call
fail_statement id message = sql fail_text (text message ∷ int id ∷ [])

module _ (H : Host) where
  unfoldable pub mark_archived : String → ℤ → ℤ → Done
  mark_archived path size session = do
    wrap ("mark archived " <> path) (try H (insert_file path size session))
    return tt

  unfoldable pub is_archived : String → M Bool
  is_archived path t =
      let a = H.answer t (count_file path) in
      (elim a.fault [ none ↦ ltb_ℤ (pos 0) a.amount | some _ ↦ false ], count_file path ∷ t)

  unfoldable pub list_unarchived : List String → M (List String)
  unfolding is_archived
  list_unarchived [] t = ([], t)
  list_unarchived (f ∷ fs) t =
      let (archived, t') = is_archived f t in
      let (rest, t'') = list_unarchived fs t' in (if archived then rest else f ∷ rest, t'')

  unfoldable pub create_session : E ℤ
  create_session = do
    wrap "create session" (try H insert_session)
    a ← wrap "get session id" (try H last_insert_id)
    return a.amount

  unfoldable pub complete_session : ℤ → ℤ → ℤ → Done
  complete_session id files bytes = do
    wrap ("complete session " <> H.itoa id) (try H (complete id files bytes))
    return tt

  unfoldable pub fail_session : ℤ → String → Done
  fail_session id message = do
    wrap ("fail session " <> H.itoa id) (try H (fail_statement id message))
    return tt
