-- ===== src/Daemon/Archiving/Sessions.antt =====
-- What becomes of a session that runArchive has created.
use teslausb_neo.Base.{
  ℕ, String, ◌<>◌, ◌≡◌, refl, Bool, true, false, ◌||◌, ◌&&◌, some, List, [], ◌∷◌, ◌++◌, ◌==◌,
  length, arith, ◌∙◌, ap,
}
use teslausb_neo.Base.Int.{ℤ, pos, leb_ℤ}
use teslausb_neo.Host.{Call, sql, int, Value, History, Host}
use teslausb_neo.Host.Fallible.{Result, ok, err}
use teslausb_neo.Notify.{Notifier, event_start, event_finish, event_error}
use teslausb_neo.State
use teslausb_neo.State.{complete_text, fail_text}
use teslausb_neo.Archive.Cifs
use teslausb_neo.Archive.Nfs
use teslausb_neo.Archive.Rsync
use teslausb_neo.Archive.Rclone
use teslausb_neo.Archive.Backend
use teslausb_neo.Archive.Backend.{Archiver, cifs, nfs, rsync, rclone, noop}
use teslausb_neo.Daemon.Machine.{StateMachine, snapshot_mountpoint}
use teslausb_neo.Daemon.Scan.{scan_files_for_archive}
use teslausb_neo.Daemon.Archiving.{
  tell, progress_fn, write_log, finish_transfer, archive_new, in_session, archive_session,
}

-- A statement that completes or fails the session: its last parameter is the session.
abbrev pub names_last : List Value → ℤ → Bool
names_last (int a ∷ []) id = leb_ℤ a id && leb_ℤ id a
names_last (v ∷ vs) id = names_last vs id
names_last [] id = false

abbrev pub closes : Call → ℤ → Bool
closes (sql s vs) id = (s == complete_text || s == fail_text) && names_last vs id
closes _ id = false

-- Some call of the history completes or fails the session.
unfoldable pub closed : History → ℤ → Bool
closed [] id = false
closed (c ∷ t) id = closes c id || closed t id

-- The notifier only puts calls before the others.
abbrev pub Extends : Notifier → Type 0
Extends k =
    (title message event : String) (t : History)
    → (u : History) × ((k.send title message event t).1 ≡ u ++ t)

closed-append : (u t : History) (id : ℤ) → closed t id ≡ true → closed (u ++ t) id ≡ true
unfolding closed
closed-append [] t id h = h
closed-append (c ∷ u) t id h = ground (arith, closed-append u t id h)

module _ (H : Host) (v : String) (m : StateMachine) (extends : Extends m.notifier) (id : ℤ) where
  complete-closed :
      (n bytes : ℤ) (t : History) → closed (State.complete_session H id n bytes t).1 id ≡ true
  unfolding State.complete_session closed
  complete-closed n bytes t = ground arith

  fail-closed : (e : String) (t : History) → closed (State.fail_session H id e t).1 id ≡ true
  unfolding State.fail_session closed
  fail-closed e t = ground arith

  tell-closed :
      (message event : String) (t : History)
      → closed t id ≡ true
      → closed (tell H v m message event t).1 id ≡ true
  tell-closed message event t h =
      let (u, e) = extends "TeslaUSB" message event t in
      ap (λ s. closed s id) e ∙ closed-append u t id h

  write_log-closed :
      (scanned : ℕ) (archived : ℤ) (t : History)
      → closed t id ≡ true
      → closed (write_log H v m id scanned archived t).1 id ≡ true
  unfolding write_log closed Backend.log_archiver Cifs.archive_log Cifs.log_to Nfs.archive_log
      Rsync.archive_log Rclone.archive_log
  write_log-closed scanned archived t h = go m.archiver refl
    where
      go :
          (a : Archiver)
          → m.archiver ≡ a
          → closed (write_log H v m id scanned archived t).1 id ≡ true
      go (cifs b) e = ground (arith, e)
      go (nfs b) e = ground (arith, e)
      go (rsync b) e = ground (arith, e)
      go (rclone b) e = ground (arith, e)
      go noop e = ground (arith, e)

  finish_transfer-closed :
      (scanned : ℕ) (r : ℤ × Result (Unit {0})) (t : History)
      → closed (finish_transfer H v m id scanned r t).1 id ≡ true
  unfolding finish_transfer
  finish_transfer-closed scanned (archived, err e) t =
      tell-closed ("Archive failed: " <> e) event_error (State.fail_session H id e t).1
        (fail-closed e t)
  finish_transfer-closed scanned (archived, ok x) t =
      let message = "Archived " <> H.itoa archived <> " files" in
      let u = (State.complete_session H id archived (pos 0) t).1 in
      let told = tell-closed message event_finish u (complete-closed archived (pos 0) t) in
      ground
        (arith, told, write_log-closed scanned archived (tell H v m message event_finish u).1 told)

  archive_new-closed :
      (scanned : ℕ) (fs : List String) (t : History)
      → closed (archive_new H v m id scanned fs t).1 id ≡ true
  unfolding archive_new
  archive_new-closed scanned [] t =
      tell-closed "No new files to archive" event_finish
        (State.complete_session H id (pos 0) (pos 0) t).1 (complete-closed (pos 0) (pos 0) t)
  archive_new-closed scanned (f ∷ fs) t =
      let r =
        Backend.archive_files H m.archiver snapshot_mountpoint (f ∷ fs) (some (progress_fn H v id))
          (pos 0) t in
      finish_transfer-closed scanned r.0 r.1

  in_session-closed : (t : History) → closed (in_session H v m id t).1 id ≡ true
  unfolding in_session
  in_session-closed t =
      let files = scan_files_for_archive H snapshot_mountpoint m.cfg.archive t in
      let new = State.list_unarchived H files.0 files.1 in
      archive_new-closed (length files.0) new.0 new.1

  -- Where the notifier only puts calls before the others: the database is asked to complete or to
  -- fail the session that runArchive has created, whatever fails in between.
  pub archive_session-closed :
      (t : History)
      → (State.create_session H (tell H v m "Archiving started" event_start t).1).0 ≡ ok id
      → closed (archive_session H v m t).1 id ≡ true
  unfolding archive_session
  archive_session-closed t e =
      let u = (State.create_session H (tell H v m "Archiving started" event_start t).1).1 in
      ground (arith, e, in_session-closed u)
