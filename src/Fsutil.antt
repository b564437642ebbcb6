-- ===== src/Fsutil.antt =====
-- internal/fsutil/fsutil.go: mounts, file system checks and free space.
pub mod Laws
use teslausb_neo.Base.{
  ℕ, ◌+◌, ◌-◌, ◌*◌, ◌%◌, String, ◌<>◌, Bool, true, false, Option, none, some, List, [], ◌∷◌, ◌++◌,
  ◌==◌, get_elem?, if◌then◌else◌,
}
use teslausb_neo.Host.{Call, run, read_file, statfs, Answer, Host, Space}
use teslausb_neo.Host.Io.{M, pure, ask, ◌>>=◌}
use teslausb_neo.Host.Fallible.{ok, err, E, Done, answered}

-- A product or a difference of uint64 numbers.
abbrev pub uint64 : ℕ → ℕ
uint64 n = n % 18446744073709551616

unfoldable pub usage_of : Space → ℕ × ℕ
usage_of s =
    let total = uint64 (s.blocks * s.bsize) in
    (
      uint64 (total + 18446744073709551616 - uint64 (s.bfree * s.bsize)),
      uint64 (s.bavail * s.bsize),
    )

module _ (H : Host) where
  -- Some line has `path` as its second field.
  unfoldable pub mounted_in : List String → String → Bool
  mounted_in [] path = false
  mounted_in (line ∷ rest) path = elim (get_elem? (H.fields_of line) 1) [
    | none ↦ mounted_in rest path
    | some target ↦ if target == path then true else mounted_in rest path
  ]

  unfoldable pub is_mounted : String → M Bool
  is_mounted path = do
    a ← ask H (read_file "/proc/mounts")
    pure (elim a.fault [ none ↦ mounted_in (H.lines a.text) path | some _ ↦ false ])

  unfoldable pub run_fsck : String → Done
  run_fsck device = do
    a ← ask H (run "fsck.exfat" ("-p" ∷ device ∷ []))
    pure (elim a.fault [
      | none ↦ ok tt
      | some f ↦ err ("fsck " <> device <> ": " <> H.trim_space a.text <> ": " <> f.message)
    ])

  unfoldable pub fstrim : String → Done
  fstrim mountpoint = do
    a ← ask H (run "fstrim" (mountpoint ∷ []))
    pure (elim a.fault [
      | none ↦ ok tt
      | some f ↦ err ("fstrim " <> mountpoint <> ": " <> H.trim_space a.text <> ": " <> f.message)
    ])

  -- After `umount` failed with output `out` and message `m`, a lazy one.
  lazy_unmount : String → String → String → Done
  lazy_unmount mountpoint out m = do
    a ← ask H (run "umount" ("-l" ∷ mountpoint ∷ []))
    pure (elim a.fault [
      | none ↦ ok tt
      | some _ ↦
          err ("umount " <> mountpoint <> ": " <> H.trim_space (out <> " " <> a.text) <> ": " <> m)
    ])

  force_unmount : String → Done
  unfolding lazy_unmount
  force_unmount mountpoint = do
    a ← ask H (run "umount" (mountpoint ∷ []))
    elim a.fault [ none ↦ pure (ok tt) | some f ↦ lazy_unmount mountpoint a.text f.message ]

  unfoldable pub unmount : String → Done
  unfolding is_mounted force_unmount
  unmount mountpoint = do
    mounted ← is_mounted mountpoint
    if mounted then force_unmount mountpoint else pure (ok tt)

  unfoldable pub mount_args : String → String → String → Bool → List String
  mount_args device mountpoint fstype read_only =
      "-t" ∷ fstype ∷ ((if read_only then "-o" ∷ "ro" ∷ [] else []) ++ (device ∷ mountpoint ∷ []))

  mount_fresh : String → String → String → Bool → Done
  unfolding mount_args
  mount_fresh device mountpoint fstype read_only = do
    a ← ask H (run "mount" (mount_args device mountpoint fstype read_only))
    pure (elim a.fault [
      | none ↦ ok tt
      | some f ↦ err (
          "mount "
          <> device
          <> " on "
          <> mountpoint
          <> ": "
          <> H.trim_space a.text
          <> ": "
          <> f.message)
    ])

  unfoldable pub mount : String → String → String → Bool → Done
  unfolding is_mounted unmount mount_fresh
  mount device mountpoint fstype read_only = do
    mounted ← is_mounted mountpoint
    cleared ← if mounted then unmount mountpoint else pure (ok tt)
    elim cleared [
      | ok _ ↦ mount_fresh device mountpoint fstype read_only
      | err m ↦ pure (
          err (
            "mount " <> device <> ": stale mount at " <> mountpoint <> " could not be cleared: "
            <> m))
    ]

  -- GetDiskUsage: used and free bytes, in uint64.
  unfoldable pub get_disk_usage : String → E (ℕ × ℕ)
  get_disk_usage mountpoint = do
    a ← ask H (statfs mountpoint)
    pure (elim a.fault [
      | none ↦ ok (usage_of a.space)
      | some f ↦ err ("statfs " <> mountpoint <> ": " <> f.message)
    ])
