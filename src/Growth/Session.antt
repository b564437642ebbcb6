-- ===== src/Growth/Session.antt =====
-- Growth of the history under a session of runArchive.
use teslausb_neo.Base.{ℕ, String, ◌<>◌, ◌≤◌, ◌≡◌, refl, Bool, some, List, [], ◌∷◌, length, arith}
use teslausb_neo.Base.Int.{ℤ, pos}
use teslausb_neo.Host.{statfs, History, Host}
use teslausb_neo.Host.Io.{M, pure}
use teslausb_neo.Host.Fallible.{Result, ok, err}
use teslausb_neo.Growth.Adds.{Adds, then-Adds}
use teslausb_neo.Growth.Network.{
  Speaks, mark_archived-Adds, create_session-Adds, complete_session-Adds, fail_session-Adds,
  list_unarchived-Adds, archive_files-Adds,
}
use teslausb_neo.Config.Types.{ArchiveConfig}
use teslausb_neo.State
use teslausb_neo.Notify.{event_start, event_finish, event_error}
use teslausb_neo.Fsutil
use teslausb_neo.Archive.Cifs
use teslausb_neo.Archive.Nfs
use teslausb_neo.Archive.Rsync
use teslausb_neo.Archive.Rclone
use teslausb_neo.Archive.Backend
use teslausb_neo.Archive.Backend.{Archiver, cifs, nfs, rsync, rclone, noop}
use teslausb_neo.Daemon.Machine.{StateMachine, snapshot_mountpoint}
use teslausb_neo.Daemon.Scan.{scan_files_for_archive, scan_dirs, clips_in, clip_dirs}
use teslausb_neo.Daemon.Archiving.{
  skip_message, tell, progress_fn, write_log, finish_transfer, archive_new, in_session,
  archive_session, reserve_checked, archive_connected,
}

module _ (H : Host) where
  scan_dirs-Adds : (root : String) (ds : List (String × Bool)) → Adds (scan_dirs H root ds)
  unfolding scan_dirs clips_in
  scan_dirs-Adds root [] = record { less = λ t. omega arith }
  scan_dirs-Adds root ((path, enabled) ∷ rest) = record {
    less = λ t. ground (arith, (scan_dirs-Adds root rest).less (clips_in H root path enabled t).1);
  }

  scan-Adds : (root : String) (c : ArchiveConfig) → Adds (scan_files_for_archive H root c)
  unfolding scan_files_for_archive
  scan-Adds root c = scan_dirs-Adds root (clip_dirs c)

  progress_fn-Adds :
      (version : String) (session : ℤ) (i total : ℕ) (f : String) (v : ℤ)
      → Adds (progress_fn H version session i total f v)
  unfolding progress_fn
  progress_fn-Adds version session i total f v = record {
    less = λ t. (mark_archived-Adds H f (pos 0) session).less t;
  }

  module _ (version : String) (m : StateMachine) (speaks : Speaks m.notifier) where
    silent :
        {A : Type 0} (a : A) (message event : String)
        → Adds (λ t. (a, (tell H version m message event t).1))
    silent a message event = record { less = λ t. (speaks "TeslaUSB" message event).less t }

    write_log-Adds :
        (session : ℤ) (scanned : ℕ) (archived : ℤ)
        → Adds (write_log H version m session scanned archived)
    unfolding write_log Backend.log_archiver Cifs.archive_log Cifs.log_to Nfs.archive_log
        Rsync.archive_log Rclone.archive_log
    write_log-Adds session scanned archived = record { less = λ t. go m.archiver refl t }
      where
        go :
            (a : Archiver)
            → m.archiver ≡ a
            → (t : History) → length t ≤ length (write_log H version m session scanned archived t).1
        go (cifs b) e t = ground (arith, e)
        go (nfs b) e t = ground (arith, e)
        go (rsync b) e t = ground (arith, e)
        go (rclone b) e t = ground (arith, e)
        go noop e t = ground (arith, e)

    finish_transfer-Adds :
        (session : ℤ) (scanned : ℕ) (r : ℤ × Result (Unit {0}))
        → Adds (finish_transfer H version m session scanned r)
    unfolding finish_transfer
    finish_transfer-Adds session scanned (archived, err e) =
        then-Adds (fail_session-Adds H session e)
          (λ _. silent (err e) ("Archive failed: " <> e) event_error)
    finish_transfer-Adds session scanned (archived, ok u) = record {
      less = λ t.
          let done = State.complete_session H session archived (pos 0) t in
          let told =
            tell H version m ("Archived " <> H.itoa archived <> " files") event_finish done.1 in
          ground (
            arith,
            (complete_session-Adds H session archived (pos 0)).less t,
            (speaks "TeslaUSB" ("Archived " <> H.itoa archived <> " files") event_finish).less
                done.1,
            (write_log-Adds session scanned archived).less told.1,
          );
    }

    archive_new-Adds :
        (session : ℤ) (scanned : ℕ) (fs : List String)
        → Adds (archive_new H version m session scanned fs)
    unfolding archive_new
    archive_new-Adds session scanned [] =
        then-Adds (complete_session-Adds H session (pos 0) (pos 0))
          (λ _. silent (ok tt) "No new files to archive" event_finish)
    archive_new-Adds session scanned (f ∷ fs) =
        then-Adds
          (archive_files-Adds H m.archiver snapshot_mountpoint (f ∷ fs)
            (some (progress_fn H version session)) (pos 0) (progress_fn-Adds version session))
          (finish_transfer-Adds session scanned)

    in_session-Adds : (session : ℤ) → Adds (in_session H version m session)
    unfolding in_session
    in_session-Adds session = then-Adds (scan-Adds snapshot_mountpoint m.cfg.archive) (λ files.
        then-Adds (list_unarchived-Adds H files)
          (λ new. archive_new-Adds session (length files) new))

    archive_session-Adds : Adds (archive_session H version m)
    unfolding archive_session
    archive_session-Adds = record {
      less = λ t.
          let told = tell H version m "Archiving started" event_start t in
          let made = State.create_session H told.1 in
          ground (
            arith,
            (speaks "TeslaUSB" "Archiving started" event_start).less t,
            (create_session-Adds H).less told.1,
            in_session_at made.0 made.1,
          );
    }
      where
        in_session_at :
            (r : Result ℤ) (t : History)
            → length t
              ≤ length
                  (elim r as (λ x. M (Result (Unit {0}))) [
                    | err e ↦ pure (err ("create session: " <> e))
                    | ok session ↦ in_session H version m session
                  ]
                    t).1
        in_session_at (err e) t = omega arith
        in_session_at (ok session) t = (in_session-Adds session).less t

    pub archive_connected-Adds : Adds (archive_connected H version m)
    unfolding archive_connected reserve_checked Fsutil.get_disk_usage
    archive_connected-Adds = record {
      less = λ t.
          let free = (Fsutil.usage_of (H.answer t (statfs snapshot_mountpoint)).space).1 in
          let u : History = statfs snapshot_mountpoint ∷ t in
          ground (
            arith,
            archive_session-Adds.less t,
            archive_session-Adds.less u,
            (speaks "TeslaUSB" (skip_message H version free m.cfg.archive.free_space_reserve_mb)
                  event_error).less
                u,
          );
    }
