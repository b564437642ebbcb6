-- ===== src/Archive/Rclone.antt =====
-- internal/archive/rclone.go. Connect and Disconnect do nothing.
use teslausb_neo.Base.Int.{ℤ}
use teslausb_neo.Host.Io.{M}
use teslausb_neo.Archive.Transfer.{Progress, transfer}
use teslausb_neo.Base.{String, ◌<>◌, Bool, true, false, none, some, [], ◌∷◌, Option, List}
use teslausb_neo.Host.{run, create_temp, write_temp, remove, Host}
use teslausb_neo.Host.Io.{M, ask}
use teslausb_neo.Host.Fallible.{Done, return, ◌>>=◌, ◌>>◌, wrap, try, finally, Result}
use teslausb_neo.Archive.Cifs.{command}

pub record Rclone : Type 0 where
  pub drive : String
  pub path : String

-- NewRclone
unfoldable pub new_rclone : String → String → Rclone
new_rclone drive path = record { drive = drive; path = path }

module _ (H : Host) where
  unfoldable pub is_reachable : Rclone → M Bool
  is_reachable b t =
      let (a, t') = ask H (run "rclone" ("lsd" ∷ b.drive ∷ [])) t in
      (elim a.fault [ none ↦ true | some _ ↦ false ], t')

  unfoldable pub copy_file : Rclone → String → String → Done
  copy_file b src_root f = do
    let src = H.join (src_root ∷ f ∷ [])
    let dst = b.drive <> H.join (b.path ∷ H.dir f ∷ [])
    command H ("rclone: copy " <> f) "rclone" ("copy" ∷ src ∷ dst ∷ [])
    wrap ("rclone: remove source " <> f) (try H (run "rm" ("-f" ∷ src ∷ [])))
    return tt

  -- ArchiveFiles
  unfoldable pub archive_files :
      Rclone → String → List String → Option Progress → ℤ → M (ℤ × Result (Unit {0}))
  unfolding copy_file transfer
  archive_files b src_root files progress v = transfer (copy_file b src_root) progress files v

  upload : Rclone → String → String → Done
  upload b tmp content = do
    wrap "rclone: write temp log" (try H (write_temp tmp content))
    command H "rclone: log upload" "rclone" ("copy" ∷ tmp ∷ (b.drive <> b.path) ∷ [])

  unfoldable pub archive_log : Rclone → String → Done
  unfolding upload
  archive_log b content = do
    tmp ← wrap "rclone: create temp log" (try H (create_temp "teslausb-log-*"))
    finally (upload b tmp.text content) (λ t. (tt, remove tmp.text ∷ t))

  unfoldable pub sync_media : Rclone → String → String → Done
  sync_media b dest_mount folder =
      command H ("rclone: " <> folder <> " sync") "rclone"
        ("sync" ∷ (b.drive <> b.path <> "/" <> folder) ∷ H.join (dest_mount ∷ folder ∷ []) ∷ [])
