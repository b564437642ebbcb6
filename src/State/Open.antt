-- ===== src/State/Open.antt =====
-- internal/state/db.go: opening the database, its tables, and closing it.
use teslausb_neo.Base.{String, ◌<>◌, ◌≡◌, Bool, true, false, none, some, [], ◌∷◌, arith}
use teslausb_neo.Host.{Call, sql, open_database, close_database, History, Host}
use teslausb_neo.Host.Fallible.{ok, err, Done, return, ◌>>◌, wrap, try, is_ok}

abbrev pub schema : String
schema =
    "CREATE TABLE IF NOT EXISTS archive_sessions ( id INTEGER PRIMARY KEY AUTOINCREMENT, started_at DATETIME NOT NULL DEFAULT (datetime('now')), completed_at DATETIME, files_archived INTEGER NOT NULL DEFAULT 0, bytes_archived INTEGER NOT NULL DEFAULT 0, status TEXT NOT NULL DEFAULT 'running', error_message TEXT NOT NULL DEFAULT '' ); CREATE TABLE IF NOT EXISTS archived_files ( id INTEGER PRIMARY KEY AUTOINCREMENT, path TEXT NOT NULL UNIQUE, size INTEGER NOT NULL, archived_at DATETIME NOT NULL DEFAULT (datetime('now')), session_id INTEGER NOT NULL REFERENCES archive_sessions(id) ); CREATE TABLE IF NOT EXISTS health_metrics ( id INTEGER PRIMARY KEY AUTOINCREMENT, timestamp DATETIME NOT NULL DEFAULT (datetime('now')), cpu_temp_mc INTEGER NOT NULL, storage_used_bytes INTEGER NOT NULL, storage_free_bytes INTEGER NOT NULL ); CREATE INDEX IF NOT EXISTS idx_archived_files_path ON archived_files(path); CREATE INDEX IF NOT EXISTS idx_health_metrics_timestamp ON health_metrics(timestamp);"

abbrev pub use_wal : Call
use_wal = sql "PRAGMA journal_mode=WAL" []

abbrev pub set_busy_timeout : Call
set_busy_timeout = sql "PRAGMA busy_timeout=5000" []

module _ (H : Host) where
  unfoldable pub migrate : Done
  migrate = do wrap "execute schema" (try H (sql schema [])); return tt

  unfoldable pub close : Done
  close = do try H close_database; return tt

  -- `if err != nil { sqlDB.Close(); return … }`
  abbrev or_close : Done → Done
  or_close m t = elim (m t).0 [ ok _ ↦ m t | err e ↦ (err e, close_database ∷ (m t).1) ]

  exec : String → Call → Done
  exec prefix c = do wrap prefix (try H c); return tt

  -- Open; the handle that it returns has no state of its own.
  unfoldable pub open_store : String → Done
  unfolding migrate exec
  open_store path = do
    wrap ("open database " <> path) (try H (open_database path))
    or_close (exec "enable WAL mode" use_wal)
    or_close (exec "set busy timeout" set_busy_timeout)
    or_close (wrap "migrate" migrate)

  -- The process holds the database open after the history.
  unfoldable pub holds_open : History → Bool
  holds_open [] = false
  holds_open (open_database path ∷ t) = elim (H.answer t (open_database path)).fault [
    | none ↦ true
    | some _ ↦ holds_open t
  ]
  holds_open (close_database ∷ t) = false
  holds_open (_ ∷ t) = holds_open t

  -- The calls of an Open that succeeds, each without a fault.
  pub record Prepared (path : String) (t u : History) : Type 0 where
    pub calls : u ≡ sql schema [] ∷ set_busy_timeout ∷ use_wal ∷ open_database path ∷ t
    pub opened : (H.answer t (open_database path)).fault ≡ none
    pub logged : (H.answer (open_database path ∷ t) use_wal).fault ≡ none
    pub patient : (H.answer (use_wal ∷ open_database path ∷ t) set_busy_timeout).fault ≡ none
    pub migrated :
        (H.answer (set_busy_timeout ∷ use_wal ∷ open_database path ∷ t) (sql schema [])).fault
        ≡ none

  -- An Open that succeeds opened the database, turned on the log and the busy timeout and made
  -- the tables, in this order and without a fault.
  pub open_store-Prepared :
      (path : String) (t : History)
      → (open_store path t).0 ≡ ok tt
      → Prepared path t (open_store path t).1
  unfolding open_store
  open_store-Prepared path t h = record {
    calls = ground arith;
    opened = ground arith;
    logged = ground arith;
    patient = ground arith;
    migrated = ground arith;
  }

  -- Where no database was open, one is open after Open just if it succeeded.
  pub open_store-holds_open :
      (path : String) (t : History)
      → holds_open t ≡ false
      → holds_open (open_store path t).1 ≡ is_ok (open_store path t).0
  unfolding open_store holds_open
  open_store-holds_open path t h = ground arith
