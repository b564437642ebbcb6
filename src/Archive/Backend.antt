-- ===== src/Archive/Backend.antt =====
-- archive.go: the interface `Backend` and its dispatch, with main.go's `noopBackend`.
use teslausb_neo.Base.{String, Bool, true, Option, none, some, List}
use teslausb_neo.Base.Int.{ℤ}
use teslausb_neo.Host.{Host}
use teslausb_neo.Host.Io.{M, pure}
use teslausb_neo.Host.Fallible.{Result, ok, Done, return}
use teslausb_neo.Archive.Transfer.{Progress}
use teslausb_neo.Archive.Cifs
use teslausb_neo.Archive.Cifs.{Cifs, ping}
use teslausb_neo.Archive.Nfs
use teslausb_neo.Archive.Nfs.{Nfs}
use teslausb_neo.Archive.Rsync
use teslausb_neo.Archive.Rsync.{Rsync}
use teslausb_neo.Archive.Rclone
use teslausb_neo.Archive.Rclone.{Rclone}

pub data Archiver : Type 0 where
  cifs : Cifs → Archiver
  nfs : Nfs → Archiver
  rsync : Rsync → Archiver
  rclone : Rclone → Archiver
  noop : Archiver

unfoldable pub name : Archiver → String
name (cifs b) = "cifs"
name (nfs b) = "nfs"
name (rsync b) = "rsync"
name (rclone b) = "rclone"
name noop = "none"

module _ (H : Host) where
  unfoldable pub is_reachable : Archiver → M Bool
  is_reachable (cifs b) = ping H b.server
  is_reachable (nfs b) = ping H b.server
  is_reachable (rsync b) = ping H b.server
  is_reachable (rclone b) = Rclone.is_reachable H b
  is_reachable noop = pure true

  unfoldable pub connect : Archiver → M (Archiver × Result (Unit {0}))
  connect (cifs b) t = let ((b', r), t') = Cifs.connect H b t in ((cifs b', r), t')
  connect (nfs b) t = let (r, t') = Nfs.connect H b t in ((nfs b, r), t')
  connect (rsync b) t = ((rsync b, ok tt), t)
  connect (rclone b) t = ((rclone b, ok tt), t)
  connect noop t = ((noop, ok tt), t)

  unfoldable pub disconnect : Archiver → M (Archiver × Result (Unit {0}))
  disconnect (cifs b) t = let ((b', r), t') = Cifs.disconnect H b t in ((cifs b', r), t')
  disconnect (nfs b) t = let (r, t') = Nfs.disconnect H b t in ((nfs b, r), t')
  disconnect (rsync b) t = ((rsync b, ok tt), t)
  disconnect (rclone b) t = ((rclone b, ok tt), t)
  disconnect noop t = ((noop, ok tt), t)

  unfoldable pub archive_files :
      Archiver → String → List String → Option Progress → ℤ → M (ℤ × Result (Unit {0}))
  unfolding Cifs.archive_files Nfs.archive_files Rsync.archive_files Rclone.archive_files
  archive_files (cifs b) root files progress v = Cifs.archive_files H b root files progress v
  archive_files (nfs b) root files progress v = Nfs.archive_files H b root files progress v
  archive_files (rsync b) root files progress v = Rsync.archive_files H b root files progress v
  archive_files (rclone b) root files progress v = Rclone.archive_files H b root files progress v
  archive_files noop root files progress v = pure (v, ok tt)

  unfoldable pub sync_media : Archiver → String → String → Done
  sync_media (cifs b) dest folder = Cifs.sync_media H b dest folder
  sync_media (nfs b) dest folder = Nfs.sync_media H b dest folder
  sync_media (rsync b) dest folder = Rsync.sync_media H b dest folder
  sync_media (rclone b) dest folder = Rclone.sync_media H b dest folder
  sync_media noop dest folder = return tt

  -- The type assertion `sm.archiver.(archive.LogArchiver)`.
  unfoldable pub log_archiver : Archiver → Option (String → Done)
  log_archiver (cifs b) = some (Cifs.archive_log H b)
  log_archiver (nfs b) = some (Nfs.archive_log H b)
  log_archiver (rsync b) = some (Rsync.archive_log H b)
  log_archiver (rclone b) = some (Rclone.archive_log H b)
  log_archiver noop = none
