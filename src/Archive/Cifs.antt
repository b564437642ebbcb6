-- ===== src/Archive/Cifs.antt =====
-- internal/archive/cifs.go
use teslausb_neo.Base.Int.{ℤ}
use teslausb_neo.Host.Io.{M}
use teslausb_neo.Archive.Transfer.{Progress, transfer}
use teslausb_neo.Config.Types.{CifsConfig}
use teslausb_neo.Base.{
  String, ◌<>◌, Bool, true, false, none, some, List, [], ◌∷◌, ◌==◌, if◌then◌else◌, Option,
}
use teslausb_neo.Host.{run, mkdir_all, remove, create_temp, write_temp, write_file, Answer, Host}
use teslausb_neo.Host.Io.{M, ask}
use teslausb_neo.Host.Fallible.{Result, ok, err, Done, return, ◌>>◌, wrap, try}

pub record Cifs : Type 0 where
  pub server : String
  pub share : String
  pub username : String
  pub password : String
  pub path : String
  pub mountpoint : String
  pub credentials_file : String

-- NewCIFS
unfoldable pub new_cifs : CifsConfig → Cifs
new_cifs c = record {
  server = c.server;
  share = c.share;
  username = c.user;
  password = c.password;
  path = c.path;
  mountpoint = "/tmp/archive_cifs";
  credentials_file = "";
}

module _ (H : Host) where
  archive_root : Cifs → String
  archive_root b = H.join (b.mountpoint ∷ b.path ∷ [])

  -- IsReachable: one ping, also of the rsync and nfs backends
  unfoldable pub ping : String → M Bool
  ping server t =
      let (a, t') = ask H (run "ping" ("-c" ∷ "1" ∷ "-W" ∷ "3" ∷ server ∷ [])) t in
      (elim a.fault [ none ↦ true | some _ ↦ false ], t')

  -- A command whose output, trimmed, is the message of its failure.
  abbrev pub command : String → String → List String → Done
  command prefix name args t =
      let (a, t') = ask H (run name args) t in
      (elim a.fault [ none ↦ ok tt | some _ ↦ err (prefix <> ": " <> H.trim_space a.text) ], t')

  mount_share : Cifs → Done
  mount_share b = command "archive: connection failed: mount.cifs" "mount.cifs" (
      ("//" <> b.server <> "/" <> b.share)
      ∷ b.mountpoint
      ∷ "-o"
      ∷ ("credentials=" <> b.credentials_file <> ",iocharset=utf8")
      ∷ [])

  -- The steps once the file of `os.CreateTemp` has its name in the record.
  connect_with : Cifs → Done
  unfolding mount_share
  connect_with b = do
    let content = "username=" <> b.username <> "\npassword=" <> b.password <> "\n"
    wrap "cifs: write credentials" (try H (write_temp b.credentials_file content))
    mount_share b

  make_credentials : Cifs → M (Result Answer)
  make_credentials b = do
    wrap ("cifs: mkdir " <> b.mountpoint) (try H (mkdir_all b.mountpoint))
    wrap "cifs: create credentials file" (try H (create_temp "cifs-cred-*"))

  unfoldable pub connect : Cifs → M (Cifs × Result (Unit {0}))
  unfolding connect_with make_credentials
  connect b t =
      let (made, t') = make_credentials b t in
      elim made [
        | err m ↦ ((b, err m), t')
        | ok cred ↦
            let b' = record b { credentials_file = cred.text } in
            let (r, t'') = connect_with b' t' in ((b', r), t'')
      ]

  -- os.Remove of the credentials file, if there is one
  drop_credentials : Cifs → M Cifs
  drop_credentials b t =
      if b.credentials_file == ""
      then (b, t)
      else (record b { credentials_file = "" }, remove b.credentials_file ∷ t)

  unfoldable pub disconnect : Cifs → M (Cifs × Result (Unit {0}))
  unfolding drop_credentials
  disconnect b t =
      let (r, t') = command "cifs: umount" "umount" (b.mountpoint ∷ []) t in
      let (b', t'') = drop_credentials b t' in ((b', r), t'')

  -- One round of the loop of ArchiveFiles, under the destination `root`; nfs.go has the same.
  unfoldable pub copy_to : String → String → String → String → Done
  copy_to prefix root src_root f = do
    let dst = H.join (root ∷ f ∷ [])
    wrap (prefix <> ": mkdir for " <> f) (try H (mkdir_all (H.dir dst)))
    command (prefix <> ": rsync " <> f) "rsync"
        ("-a" ∷ "--append-verify" ∷ "--remove-source-files" ∷ H.join (src_root ∷ f ∷ []) ∷ dst ∷ [])

  unfoldable pub copy_file : Cifs → String → String → Done
  unfolding copy_to archive_root
  copy_file b = copy_to "cifs" (archive_root b)

  -- ArchiveFiles
  unfoldable pub archive_files :
      Cifs → String → List String → Option Progress → ℤ → M (ℤ × Result (Unit {0}))
  unfolding copy_file transfer
  archive_files b src_root files progress v = transfer (copy_file b src_root) progress files v

  -- ArchiveLog under the destination `root`; nfs.go has the same.
  unfoldable pub log_to : String → String → String → Done
  log_to prefix root content = do
    wrap (prefix <> ": mkdir for log") (try H (mkdir_all root))
    wrap (prefix <> ": write log")
        (try H (write_file (H.join (root ∷ "teslausb.log" ∷ [])) content))
    return tt

  unfoldable pub archive_log : Cifs → String → Done
  unfolding log_to archive_root
  archive_log b = log_to "cifs" (archive_root b)

  -- SyncMedia from a mounted share; nfs.go has the same.
  unfoldable pub sync_from : String → String → String → String → Done
  sync_from prefix mountpoint dest_mount folder =
      command (prefix <> ": " <> folder <> " sync") "rsync" (
        "-a"
        ∷ "--delete"
        ∷ (H.join (mountpoint ∷ folder ∷ []) <> "/")
        ∷ (H.join (dest_mount ∷ folder ∷ []) <> "/")
        ∷ [])

  unfoldable pub sync_media : Cifs → String → String → Done
  unfolding sync_from
  sync_media b = sync_from "cifs" b.mountpoint
