-- ===== src/Snapshot/Create.antt =====
-- `Create` and `CreateWithCOWSize`: the steps, and the deferred release on every early return.
use teslausb_neo.Base.{String, ◌<>◌, none, some, [], ◌∷◌, if◌then◌else◌}
use teslausb_neo.Base.Int.{ℤ, pos, leb_ℤ, scale, wrap_int64}
use teslausb_neo.Host.{run, Host}
use teslausb_neo.Host.Fallible.{
  Result, ok, err, E, Done, return, fail, ◌>>=◌, ◌>>◌, lift, wrap, try,
}
use teslausb_neo.Snapshot.Release.{Snapshot, dm_name, cleanup, release, echo_into}

-- const defaultCOWSizeMB
abbrev pub default_cow_size_mb : ℤ
default_cow_size_mb = pos 64

module _ (H : Host) where
  cow_size : ℤ → ℤ
  cow_size mb = if leb_ℤ mb (pos 0) then default_cow_size_mb else mb

  -- The record as `CreateWithCOWSize` first builds it.
  unfoldable pub fresh : String → ℤ → Snapshot
  unfolding cow_size
  fresh origin mb = record {
    origin_device = origin;
    snapshot_name = dm_name;
    zram_device = "";
    zram_size_mb = cow_size mb;
    mountpoint = "";
  }

  -- zram hot_add; the id is the trimmed output.
  unfoldable pub hot_add : E String
  hot_add = do
    a ← wrap "snapshot: zram hot_add" (try H (run "cat" ("/sys/class/zram-control/hot_add" ∷ [])))
    return (H.trim_space a.text)

  size_zram : String → ℤ → Done
  unfolding echo_into wrap_int64
  size_zram id mb = do
    let bytes = wrap_int64 (scale 1048576 mb)
    r ← lift (echo_into H ("/sys/block/zram" <> id <> "/disksize") (H.itoa bytes))
    elim r [ none ↦ return tt | some m ↦ fail ("snapshot: set zram size: " <> m) ]

  dm_create : String → String → Done
  dm_create name table = do
    try H (run "dmsetup" ("create" ∷ name ∷ "--table" ∷ table ∷ []))
    return tt

  -- From the allocated zram device on.
  unfoldable pub build : String → Snapshot → Done
  unfolding size_zram dm_create
  build id s = do
    size_zram id s.zram_size_mb
    a ← wrap "snapshot: blockdev" (try H (run "blockdev" ("--getsz" ∷ s.origin_device ∷ [])))
    let sectors = H.trim_space a.text
    wrap "snapshot: create origin" (
        dm_create (s.snapshot_name <> "-origin")
          ("0 " <> sectors <> " snapshot-origin " <> s.origin_device))
    wrap "snapshot: create snapshot" (
        dm_create s.snapshot_name (
          "0 " <> sectors <> " snapshot /dev/mapper/" <> s.snapshot_name <> "-origin "
          <> s.zram_device <> " P 8"))

  -- `defer func() { if !ok { _ = s.Release() } }()`, over what the steps before returned.
  unfoldable pub settle : Snapshot → Result (Unit {0}) → E Snapshot
  settle s (ok _) = return s
  settle s (err m) = do lift (release H s); fail m

  unfoldable pub built_on : Snapshot → Result String → E Snapshot
  unfolding settle
  built_on s (err m) = settle s (err m)
  built_on s (ok id) = do
    let s' = record s { zram_device = "/dev/zram" <> id }
    r ← lift (build id s')
    settle s' r

  unfoldable pub create_with_cow_size : String → ℤ → E Snapshot
  unfolding fresh built_on
  create_with_cow_size origin mb = do
    lift (cleanup H)
    id ← lift hot_add
    built_on (fresh origin mb) id

  unfoldable pub create : String → E Snapshot
  create origin = create_with_cow_size origin default_cow_size_mb
