-- ===== src/Snapshot/Release.antt =====
-- `Cleanup`, `Mount`, `Release` and `IsValid`. None of them returns early, so they are code that
-- cannot fail: a method returns the new record and its `error`.
use teslausb_neo.Base.{
  String, ◌<>◌, Bool, false, not, Option, none, some, List, [], ◌∷◌, ◌==◌, if◌then◌else◌,
}
use teslausb_neo.Base.Int.{ℤ}
use teslausb_neo.Host.{run, Answer, Host}
use teslausb_neo.Host.Io.{M, pure, ask, ◌>>=◌, ◌>>◌}

pub record Snapshot : Type 0 where
  pub origin_device : String
  pub snapshot_name : String
  pub zram_device : String
  pub zram_size_mb : ℤ
  pub mountpoint : String

-- const snapshotName
abbrev pub dm_name : String
dm_name = "teslausb-snap"

-- `if err != nil && firstErr == nil { firstErr = fmt.Errorf("prefix: %w", err) }`
abbrev pub first_error : Option String → String → Answer → Option String
first_error (some m) prefix a = some m
first_error none prefix a = elim a.fault [
  | none ↦ none
  | some f ↦ some (prefix <> ": " <> f.message)
]

module _ (H : Host) where
  abbrev pub run_cmd : String → List String → M Answer
  run_cmd name args = ask H (run name args)

  abbrev pub remove_dm : String → M Answer
  remove_dm name = run_cmd "dmsetup" ("remove" ∷ "--retry" ∷ name ∷ [])

  unfoldable pub cleanup : M (Unit {0})
  cleanup = do remove_dm dm_name; remove_dm (dm_name <> "-origin"); pure tt

  -- (*Snapshot).writeFile: a shell echo, its error wrapped by the path
  unfoldable pub echo_into : String → String → M (Option String)
  echo_into path value = do
    a ← run_cmd "sh" ("-c" ∷ ("echo " <> value <> " > " <> path) ∷ [])
    pure (elim a.fault [
      | none ↦ none
      | some _ ↦ some ("write " <> path <> ": " <> H.trim_space a.text)
    ])

  -- The mount of the device, after the directory was made.
  mount_device : Snapshot → String → M (Snapshot × Option String)
  mount_device s mountpoint = do
    a ← run_cmd "mount" ("-o" ∷ "ro" ∷ ("/dev/mapper/" <> s.snapshot_name) ∷ mountpoint ∷ [])
    pure (s, first_error none "snapshot: mount" a)

  unfoldable pub mount : String → Snapshot → M (Snapshot × Option String)
  unfolding mount_device
  mount mountpoint s = do
    let s' = record s { mountpoint = mountpoint }
    a ← run_cmd "mkdir" ("-p" ∷ mountpoint ∷ [])
    elim a.fault [
      | none ↦ mount_device s' mountpoint
      | some f ↦ pure (s', some ("snapshot: mkdir " <> mountpoint <> ": " <> f.message))
    ]

  -- The lazy unmount that follows a failed one; its own error is not kept.
  release_lazily : String → String → M (Option String)
  release_lazily mountpoint m = do
    a ← run_cmd "umount" ("-l" ∷ mountpoint ∷ [])
    pure (elim a.fault [ none ↦ none | some _ ↦ some ("snapshot: umount: " <> m) ])

  unfoldable pub release_mount : String → M (Option String)
  unfolding release_lazily
  release_mount mountpoint = if mountpoint == "" then pure none else do
    a ← run_cmd "umount" (mountpoint ∷ [])
    elim a.fault [ none ↦ pure none | some f ↦ release_lazily mountpoint f.message ]

  unfoldable pub release_zram : String → Option String → M (Option String)
  unfolding echo_into
  release_zram device first = if device == "" then pure first else do
    a ← run_cmd "zramctl" ("--reset" ∷ device ∷ [])
    echo_into "/sys/class/zram-control/hot_remove" (H.trim_prefix device "/dev/zram")
    pure (first_error first "snapshot: zramctl reset" a)

  -- Both device-mapper targets, the snapshot before its origin.
  unfoldable pub release_targets : String → Option String → M (Option String)
  release_targets name first = do
    a ← remove_dm name
    b ← remove_dm (name <> "-origin")
    pure (
        first_error (first_error first "snapshot: remove snapshot dm" a)
          "snapshot: remove origin dm" b)

  unfoldable pub release : Snapshot → M (Snapshot × Option String)
  unfolding release_mount release_targets release_zram
  release s = do
    unmounted ← release_mount s.mountpoint
    removed ← release_targets s.snapshot_name unmounted
    freed ← release_zram s.zram_device removed
    pure (record s { mountpoint = ""; zram_device = "" }, freed)

  unfoldable pub is_valid : Snapshot → M Bool
  is_valid s = do
    a ← run_cmd "dmsetup" ("status" ∷ s.snapshot_name ∷ [])
    pure (elim a.fault [ none ↦ not (H.has_part a.text "Invalid") | some _ ↦ false ])
