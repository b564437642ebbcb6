-- ===== src/Daemon/Scan.antt =====
-- `scanFilesForArchive`.
use teslausb_neo.Base.{
  String, ◌<>◌, Bool, false, none, some, List, [], ◌∷◌, ◌++◌, map, if◌then◌else◌,
}
use teslausb_neo.Host.{stat, read_dir, Answer, Host}
use teslausb_neo.Host.Io.{M, pure, ask, ◌>>=◌}
use teslausb_neo.Config.Types.{ArchiveConfig}

-- The clip directories with their switches.
unfoldable pub clip_dirs : ArchiveConfig → List (String × Bool)
clip_dirs c =
    ("TeslaCam/SavedClips", c.saved_clips)
    ∷ ("TeslaCam/SentryClips", c.sentry_clips)
    ∷ ("TeslaCam/RecentClips", c.recent_clips)
    ∷ ("TeslaTrackMode", c.track_mode_clips)
    ∷ []

-- os.IsNotExist(err)
abbrev pub is_missing : Answer → Bool
is_missing a = elim a.fault [ none ↦ false | some f ↦ f.not_exist ]

module _ (H : Host) where
  read_clips : String → String → M (List String)
  read_clips root path = do
    a ← ask H (read_dir (root <> "/" <> path))
    pure (elim a.fault [ none ↦ map (λ e. path <> "/" <> e.0) a.entries | some _ ↦ [] ])

  -- One round of the loop.
  unfoldable pub clips_in : String → String → Bool → M (List String)
  unfolding read_clips
  clips_in root path enabled =
      if enabled
      then (do
        a ← ask H (stat (root <> "/" <> path))
        if is_missing a then pure [] else read_clips root path)
      else pure []

  unfoldable pub scan_dirs : String → List (String × Bool) → M (List String)
  scan_dirs root [] = pure []
  scan_dirs root ((path, enabled) ∷ rest) = do
    files ← clips_in root path enabled
    more ← scan_dirs root rest
    pure (files ++ more)

  -- The error of the source is always nil.
  unfoldable pub scan_files_for_archive : String → ArchiveConfig → M (List String)
  unfolding clip_dirs scan_dirs clips_in
  scan_files_for_archive root c = scan_dirs root (clip_dirs c)
