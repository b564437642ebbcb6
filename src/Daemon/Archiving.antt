-- ===== src/Daemon/Archiving.antt =====
-- `runArchive`. Each deferred call of the source is the second half of the function that makes
-- the call it undoes: unmount, the wake keeper, the CPU governor, the connection.
pub mod Marking
pub mod Sessions
use teslausb_neo.Base.{
  ℕ, ◌/◌, ◌*◌, String, ◌<>◌, Option, none, some, List, [], ◌∷◌, length, ltb, if◌then◌else◌,
}
use teslausb_neo.Base.Int.{ℤ, pos, ltb_ℤ, pos_part}
use teslausb_neo.Host.{now, Host}
use teslausb_neo.Host.Io.{M, pure, ask, ◌>>=◌, ◌>>◌}
use teslausb_neo.Host.Fallible.{Result, ok, err}
use teslausb_neo.Fsutil
use teslausb_neo.Fsutil.{uint64}
use teslausb_neo.Snapshot
use teslausb_neo.Snapshot.{Snapshot}
use teslausb_neo.State as Db
use teslausb_neo.Archive.Backend
use teslausb_neo.Archive.Transfer.{Progress}
use teslausb_neo.Notify.{event_start, event_finish, event_error}
use teslausb_neo.Tesla
use teslausb_neo.Daemon.Machine.{StateMachine, snapshot_mountpoint, set_cpu_governor}
use teslausb_neo.Daemon.Scan.{scan_files_for_archive}

module _ (H : Host) (version : String) where
  -- `_ = sm.notifier.Send(ctx, "TeslaUSB", message, event)`
  abbrev pub tell : StateMachine → String → String → M (Unit {0})
  tell m message event t = (tt, (m.notifier.send "TeslaUSB" message event t).1)

  -- The progress function of one session: its variable is `archived`.
  unfoldable pub progress_fn : ℤ → Progress
  progress_fn session current total filename archived = do
    Db.mark_archived H filename (pos 0) session
    pure (pos current)

  log_content : ℤ → ℤ → ℕ → ℤ → String
  log_content at session scanned archived =
      "TeslaUSB Neo "
      <> version
      <> " - Archive Summary\n"
      <> "Timestamp: "
      <> H.rfc3339 at
      <> "\nSession ID: "
      <> H.itoa session
      <> "\nFiles scanned: "
      <> H.itoa (pos scanned)
      <> "\nFiles archived: "
      <> H.itoa archived
      <> "\nStatus: success\n"

  unfoldable pub write_log : StateMachine → ℤ → ℕ → ℤ → M (Unit {0})
  unfolding log_content
  write_log m session scanned archived = elim (Backend.log_archiver H m.archiver) [
    | none ↦ pure tt
    | some archive_log ↦ do
      clock ← ask H now
      archive_log (log_content clock.amount session scanned archived)
      pure tt
  ]

  -- From the return of ArchiveFiles on.
  unfoldable pub finish_transfer :
      StateMachine → ℤ → ℕ → ℤ × Result (Unit {0}) → M (Result (Unit {0}))
  unfolding write_log
  finish_transfer m session scanned (archived, err e) = do
    Db.fail_session H session e
    tell m ("Archive failed: " <> e) event_error
    pure (err e)
  finish_transfer m session scanned (archived, ok _) = do
    Db.complete_session H session archived (pos 0)
    tell m ("Archived " <> H.itoa archived <> " files") event_finish
    if m.cfg.archive.archive_logs then write_log m session scanned archived else pure tt
    pure (ok tt)

  -- The files that the database does not list.
  unfoldable pub archive_new : StateMachine → ℤ → ℕ → List String → M (Result (Unit {0}))
  archive_new m session scanned [] = do
    Db.complete_session H session (pos 0) (pos 0)
    tell m "No new files to archive" event_finish
    pure (ok tt)
  archive_new m session scanned (f ∷ fs) = do
    r ←
        Backend.archive_files H m.archiver snapshot_mountpoint (f ∷ fs) (some (progress_fn session))
          (pos 0)
    finish_transfer m session scanned r

  unfoldable pub in_session : StateMachine → ℤ → M (Result (Unit {0}))
  unfolding archive_new
  in_session m session = do
    files ← scan_files_for_archive H snapshot_mountpoint m.cfg.archive
    new ← Db.list_unarchived H files
    archive_new m session (length files) new

  unfoldable pub archive_session : StateMachine → M (Result (Unit {0}))
  unfolding in_session
  archive_session m = do
    tell m "Archiving started" event_start
    created ← Db.create_session H
    elim created [
      | err e ↦ pure (err ("create session: " <> e))
      | ok session ↦ in_session m session
    ]

  -- uint64(FreeSpaceReserveMB) * 1024 * 1024, where the setting is positive
  abbrev pub reserve_bytes : ℤ → ℕ
  reserve_bytes mb = uint64 (pos_part mb * 1048576)

  unfoldable pub skip_message : ℕ → ℤ → String
  skip_message free mb =
      "Archive skipped: only "
      <> H.itoa (pos (free / 1048576))
      <> " MB free (reserve: "
      <> H.itoa mb
      <> " MB)"

  unfoldable pub reserve_checked : StateMachine → ℕ → M (Result (Unit {0}))
  unfolding skip_message archive_session
  reserve_checked m free =
      if ltb free (reserve_bytes m.cfg.archive.free_space_reserve_mb)
      then (do
        tell m (skip_message free m.cfg.archive.free_space_reserve_mb) event_error
        pure (ok tt))
      else archive_session m

  -- The connected backend: the reserve first, then a session.
  unfoldable pub archive_connected : StateMachine → M (Result (Unit {0}))
  unfolding reserve_checked
  archive_connected m =
      if ltb_ℤ (pos 0) m.cfg.archive.free_space_reserve_mb
      then (do
        usage ← Fsutil.get_disk_usage H snapshot_mountpoint
        elim usage [ err _ ↦ archive_session m | ok (used, free) ↦ reserve_checked m free ])
      else archive_session m

  unfoldable pub connect_and_archive : StateMachine → M (StateMachine × Result (Unit {0}))
  unfolding archive_connected
  connect_and_archive m = do
    c ← Backend.connect H m.archiver
    let m1 = record m { archiver = c.0 }
    elim c.1 [
      | err e ↦ pure (m1, err ("connect to archive: " <> e))
      | ok _ ↦ do
        r ← archive_connected m1
        d ← Backend.disconnect H m1.archiver
        pure (record m1 { archiver = d.0 }, r)
    ]

  unfoldable pub reach_and_archive : StateMachine → M (StateMachine × Result (Unit {0}))
  unfolding connect_and_archive
  reach_and_archive m = do
    reachable ← Backend.is_reachable H m.archiver
    if reachable
        then connect_and_archive m
        else pure (m, err ("archive backend " <> Backend.name m.archiver <> " is not reachable"))

  -- With the car kept awake and the CPU at its governor for archiving.
  unfoldable pub archive_awake : StateMachine → M (StateMachine × Result (Unit {0}))
  unfolding reach_and_archive
  archive_awake m = do
    w ← Tesla.start H m.wake
    set_cpu_governor H m.cfg.tuning.cpu_governor_archiving
    r ← reach_and_archive (record m { wake = w.0 })
    set_cpu_governor H m.cfg.tuning.cpu_governor
    w' ← Tesla.stop H r.0.wake
    pure (record (r.0) { wake = w'.0 }, r.1)

  unfoldable pub archive_mounted :
      StateMachine → Option String → M (StateMachine × Result (Unit {0}))
  unfolding archive_awake
  archive_mounted m (some e) = pure (m, err ("mount snapshot: " <> e))
  archive_mounted m none = do r ← archive_awake m; Fsutil.unmount H snapshot_mountpoint; pure r

  unfoldable pub run_archive : StateMachine → M (StateMachine × Result (Unit {0}))
  unfolding archive_mounted
  run_archive m = elim m.snap [
    | none ↦ pure (m, err "no snapshot available")
    | some s ↦ do
      mounted ← Snapshot.mount H snapshot_mountpoint s
      archive_mounted (record m { snap = some mounted.0 }) mounted.1
  ]
