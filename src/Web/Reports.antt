-- ===== src/Web/Reports.antt =====
-- The handlers that report: status, files, sessions, health, and the answer to a request to sync.
use teslausb_neo.Base.{
  String, Bool, true, false, Option, none, some, List, [], ◌∷◌, ◌==◌, if◌then◌else◌,
}
use teslausb_neo.Base.Int.{ℤ, ◌-ℤ◌}
use teslausb_neo.Host.{now, read_dir, entry_info, Answer, Host}
use teslausb_neo.Host.Io.{M, pure, ask, ◌>>=◌}
use teslausb_neo.Host.Fallible.{Result, ok, err, E}
use teslausb_neo.Web.{
  WebConfig, StatusInfo, FileInfo, SessionInfo, Response, json, status_json, files_json,
  sessions_json,
}

-- The interface StateDB.
pub record StateDb : Type 0 where
  pub get_current_state : M String
  pub list_sessions : E (List SessionInfo)

-- Server, less its channel, its lock and its mux.
pub record Server : Type 0 where
  pub config : WebConfig
  pub state_db : Option StateDb
  pub last_status : StatusInfo
  pub start_time : ℤ

module _ (H : Host) where
  -- NewServer
  unfoldable pub new_server : WebConfig → Option StateDb → M Server
  new_server config db = do
    a ← ask H now
    b ← ask H now
    pure (record {
      config = config;
      state_db = db;
      last_status = record { state = "booting"; uptime = ""; timestamp = b.amount };
      start_time = a.amount;
    })

  -- time.Since(s.startTime).Truncate(time.Second).String()
  unfoldable pub uptime : Server → M String
  uptime s = do a ← ask H now; pure (H.duration_text (a.amount -ℤ s.start_time))

  unfoldable pub handle_status : Server → M Response
  unfolding uptime
  handle_status s = do up ← uptime s; pure (status_json 200 (record s.last_status { uptime = up }))

  -- An entry with its information, unless it is a directory or has none.
  unfoldable pub describe : String → String × Bool → M (Option FileInfo)
  describe dir (name, true) = pure none
  describe dir (name, false) = do
    a ← ask H (entry_info dir name)
    pure (elim a.fault [
      | some _ ↦ none
      | none ↦ some (record { name = name; size = a.amount; mod_time = a.modified })
    ])

  unfoldable pub describe_all : String → List (String × Bool) → M (List FileInfo)
  unfolding describe
  describe_all dir [] = pure []
  describe_all dir (e ∷ es) = do
    found ← describe dir e
    rest ← describe_all dir es
    pure (elim found [ none ↦ rest | some f ↦ f ∷ rest ])

  listing_of : String → Answer → M Response
  unfolding describe_all
  listing_of dir a = elim a.fault [
    | some _ ↦ pure (json 500 (("error", "failed to read archive directory") ∷ []))
    | none ↦ do files ← describe_all dir a.entries; pure (files_json 200 files)
  ]

  unfoldable pub handle_files : Server → M Response
  unfolding listing_of
  handle_files s =
      let dir = s.config.archive_dir in
      if dir == ""
      then pure (json 500 (("error", "archive directory not configured") ∷ []))
      else (do a ← ask H (read_dir dir); listing_of dir a)

  unfoldable pub handle_health : Server → M Response
  unfolding uptime
  handle_health s = do
    state ← current
    up ← uptime s
    pure (json 200 (("status", "ok") ∷ ("state", state) ∷ ("uptime", up) ∷ []))
    where
      current : M String
      current = elim s.state_db [ none ↦ pure "unknown" | some db ↦ db.get_current_state ]

unfoldable pub handle_sync : M Response
handle_sync = pure (json 202 (("status", "sync requested") ∷ []))

listed : Result (List SessionInfo) → Response
listed (err _) = json 500 (("error", "failed to query sessions") ∷ [])
listed (ok sessions) = sessions_json 200 sessions

unfoldable pub handle_sessions : Server → M Response
unfolding listed
handle_sessions s = elim s.state_db [
  | none ↦ pure (json 500 (("error", "state database not available") ∷ []))
  | some db ↦ do r ← db.list_sessions; pure (listed r)
]

-- consumeStatus, once these statuses have come through the channel.
unfoldable pub consume_status : Server → List StatusInfo → Server
consume_status s [] = s
consume_status s (status ∷ rest) = consume_status (record s { last_status = status }) rest
