-- ===== src/Archive/Nfs.antt =====
-- internal/archive/nfs.go: what differs from the CIFS backend.
use teslausb_neo.Base.Int.{ℤ}
use teslausb_neo.Host.Io.{M}
use teslausb_neo.Archive.Transfer.{Progress, transfer}
use teslausb_neo.Base.{String, ◌<>◌, [], ◌∷◌, Option, List}
use teslausb_neo.Host.{mkdir_all, Host}
use teslausb_neo.Host.Fallible.{Done, ◌>>◌, wrap, try, Result}
use teslausb_neo.Archive.Cifs.{command, copy_to, log_to, sync_from}

pub record Nfs : Type 0 where
  pub server : String
  pub share : String
  pub path : String
  pub mountpoint : String

-- NewNFS
unfoldable pub new_nfs : String → String → String → Nfs
new_nfs server share path = record {
  server = server;
  share = share;
  path = path;
  mountpoint = "/tmp/archive_nfs";
}

module _ (H : Host) where
  archive_root : Nfs → String
  archive_root b = H.join (b.mountpoint ∷ b.path ∷ [])

  unfoldable pub connect : Nfs → Done
  connect b = do
    wrap ("nfs: mkdir " <> b.mountpoint) (try H (mkdir_all b.mountpoint))
    command H "archive: connection failed: mount.nfs" "mount.nfs"
        ((b.server <> ":" <> b.share) ∷ b.mountpoint ∷ "-o" ∷ "nolock" ∷ [])

  unfoldable pub disconnect : Nfs → Done
  disconnect b = command H "nfs: umount" "umount" (b.mountpoint ∷ [])

  unfoldable pub copy_file : Nfs → String → String → Done
  unfolding copy_to archive_root
  copy_file b = copy_to H "nfs" (archive_root b)

  -- ArchiveFiles
  unfoldable pub archive_files :
      Nfs → String → List String → Option Progress → ℤ → M (ℤ × Result (Unit {0}))
  unfolding copy_file transfer
  archive_files b src_root files progress v = transfer (copy_file b src_root) progress files v

  unfoldable pub archive_log : Nfs → String → Done
  unfolding log_to archive_root
  archive_log b = log_to H "nfs" (archive_root b)

  unfoldable pub sync_media : Nfs → String → String → Done
  unfolding sync_from
  sync_media b = sync_from H "nfs" b.mountpoint
