-- ===== src/Archive/Rsync.antt =====
-- internal/archive/rsync.go: rsync over SSH. Connect and Disconnect do nothing.
use teslausb_neo.Base.Int.{ℤ}
use teslausb_neo.Host.Io.{M}
use teslausb_neo.Archive.Transfer.{Progress, transfer}
use teslausb_neo.Base.{String, ◌<>◌, [], ◌∷◌, ◌==◌, if◌then◌else◌, Option, List}
use teslausb_neo.Host.{create_temp, write_temp, remove, Host}
use teslausb_neo.Host.Fallible.{Done, ◌>>=◌, ◌>>◌, wrap, try, finally, Result}
use teslausb_neo.Archive.Cifs.{command}

pub record Rsync : Type 0 where
  pub server : String
  pub user : String
  pub path : String
  pub ssh_key : String

-- NewRsync
unfoldable pub new_rsync : String → String → String → String → Rsync
new_rsync server user path ssh_key = record {
  server = server;
  user = user;
  path = path;
  ssh_key = ssh_key;
}

unfoldable pub ssh_opts : Rsync → String
ssh_opts b =
    "ssh -T -c aes128-gcm@openssh.com -o Compression=no"
    <> (if b.ssh_key == "" then "" else " -i " <> b.ssh_key <> " -o StrictHostKeyChecking=no")

-- user@server:path
unfoldable pub remote : Rsync → String → String
remote b path = b.user <> "@" <> b.server <> ":" <> path

module _ (H : Host) where
  unfoldable pub copy_file : Rsync → String → String → Done
  unfolding ssh_opts remote
  copy_file b src_root f = command H ("rsync: " <> f) "rsync" (
      "-a"
      ∷ "--append-verify"
      ∷ "--remove-source-files"
      ∷ "--mkpath"
      ∷ "-e"
      ∷ ssh_opts b
      ∷ H.join (src_root ∷ f ∷ [])
      ∷ remote b (H.join (b.path ∷ f ∷ []))
      ∷ [])

  -- ArchiveFiles
  unfoldable pub archive_files :
      Rsync → String → List String → Option Progress → ℤ → M (ℤ × Result (Unit {0}))
  unfolding copy_file transfer
  archive_files b src_root files progress v = transfer (copy_file b src_root) progress files v

  upload : Rsync → String → String → Done
  unfolding ssh_opts remote
  upload b tmp content = do
    wrap "rsync: write temp log" (try H (write_temp tmp content))
    command H "rsync: log upload" "rsync"
        ("-a" ∷ "-e" ∷ ssh_opts b ∷ tmp ∷ remote b (b.path <> "/teslausb.log") ∷ [])

  unfoldable pub archive_log : Rsync → String → Done
  unfolding upload
  archive_log b content = do
    tmp ← wrap "rsync: create temp log" (try H (create_temp "teslausb-log-*"))
    finally (upload b tmp.text content) (λ t. (tt, remove tmp.text ∷ t))

  unfoldable pub sync_media : Rsync → String → String → Done
  unfolding ssh_opts remote
  sync_media b dest_mount folder = command H ("rsync: " <> folder <> " sync") "rsync" (
      "-a"
      ∷ "--delete"
      ∷ "-e"
      ∷ ssh_opts b
      ∷ (remote b (H.join (b.path ∷ folder ∷ [])) <> "/")
      ∷ (H.join (dest_mount ∷ folder ∷ []) <> "/")
      ∷ [])
