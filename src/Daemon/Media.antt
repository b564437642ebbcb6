-- ===== src/Daemon/Media.antt =====
-- `runMediaSync`: the music, light show and boombox folders, from the server to the partitions.
pub mod Grouping
use teslausb_neo.Base.{
  String, ◌<>◌, Bool, false, none, some, List, [], ◌∷◌, ◌++◌, ◌==◌, if◌then◌else◌,
}
use teslausb_neo.Host.{stat, mkdir_all, Host}
use teslausb_neo.Host.Io.{M, pure, ask, ◌>>=◌, ◌>>◌}
use teslausb_neo.Host.Fallible.{Result, ok, err, wrap}
use teslausb_neo.Config.Types.{ArchiveConfig}
use teslausb_neo.Fsutil
use teslausb_neo.Gadget
use teslausb_neo.Gadget.{Gadget}
use teslausb_neo.Archive.Backend
use teslausb_neo.Archive.Backend.{Archiver}
use teslausb_neo.Daemon.Machine.{
  StateMachine, Flow, returned, panicked, music_partition, lightshow_partition, media_mountpoint,
}
use teslausb_neo.Daemon.Boot.{or_before}

pub record MediaTarget : Type 0 where
  pub enabled : Bool
  pub partition : String
  pub folder : String
  pub subdir : String

unfoldable pub media_targets : ArchiveConfig → List MediaTarget
media_targets c =
    record { enabled = c.sync_music; partition = music_partition; folder = "Music"; subdir = "" }
    ∷ record {
      enabled = c.sync_light_show;
      partition = lightshow_partition;
      folder = "LightShow";
      subdir = "";
    }
    ∷ record {
      enabled = c.sync_boombox;
      partition = lightshow_partition;
      folder = "Boombox";
      subdir = "Boombox";
    }
    ∷ []

-- `order` and `byPartition` together: the partitions in order, each with its targets.
abbrev pub Groups : Type 0
Groups = List (String × List MediaTarget)

-- `byPartition[t.partition] = append(…)`, behind a new partition at the end of the order
unfoldable pub add_target : MediaTarget → Groups → Groups
add_target x [] = (x.partition, x ∷ []) ∷ []
add_target x ((p, xs) ∷ groups) =
    if x.partition == p then (p, xs ++ (x ∷ [])) ∷ groups else (p, xs) ∷ add_target x groups

unfoldable pub group_targets : Groups → List MediaTarget → Groups
unfolding add_target
group_targets groups [] = groups
group_targets groups (x ∷ xs) = group_targets (if x.enabled then add_target x groups else groups) xs

-- `dest` of one target
unfoldable pub target_dest : String → MediaTarget → String
target_dest mountpoint x = if x.subdir == "" then mountpoint else mountpoint <> "/" <> x.subdir

module _ (H : Host) (archiver : Archiver) where
  -- The directory of a target is made unless it is the root of the partition.
  made : String → String → M (Result (Unit {0}))
  made subdir dest = if subdir == "" then pure (ok tt) else (do
    a ← ask H (mkdir_all dest)
    pure (elim a.fault [ none ↦ ok tt | some f ↦ err f.message ]))

  unfoldable pub sync_target : String → MediaTarget → M (Unit {0})
  unfolding made
  sync_target mountpoint x = do
    r ← made x.subdir (target_dest mountpoint x)
    elim r [
      | err _ ↦ pure tt
      | ok _ ↦ do Backend.sync_media H archiver (target_dest mountpoint x) x.folder; pure tt
    ]

  unfoldable pub sync_targets : String → List MediaTarget → M (Unit {0})
  unfolding sync_target
  sync_targets mountpoint [] = pure tt
  sync_targets mountpoint (x ∷ xs) = do sync_target mountpoint x; sync_targets mountpoint xs

  unfoldable pub sync_mounted : String → String → List MediaTarget → M (Unit {0})
  unfolding sync_targets
  sync_mounted partition mountpoint xs = do
    r ← Fsutil.mount H partition mountpoint "exfat" false
    elim r [
      | err _ ↦ pure tt
      | ok _ ↦ do sync_targets mountpoint xs; Fsutil.unmount H mountpoint; pure tt
    ]

  unfoldable pub sync_present : String → String → List MediaTarget → M (Unit {0})
  unfolding sync_mounted
  sync_present partition mountpoint xs = do
    a ← ask H (mkdir_all mountpoint)
    elim a.fault [ none ↦ sync_mounted partition mountpoint xs | some _ ↦ pure tt ]

  -- One round of the loop over the partitions.
  unfoldable pub sync_partition : String → List MediaTarget → M (Unit {0})
  unfolding sync_present
  sync_partition partition xs = do
    a ← ask H (stat partition)
    elim a.fault [
      | none ↦ sync_present partition (media_mountpoint <> "/" <> H.base partition) xs
      | some _ ↦ pure tt
    ]

  unfoldable pub sync_groups : Groups → M (Unit {0})
  unfolding sync_partition
  sync_groups [] = pure tt
  sync_groups ((p, xs) ∷ groups) = do sync_partition p xs; sync_groups groups

module _ (H : Host) where
  -- The gadget is down while the partitions are mounted, and up again afterwards.
  unfoldable pub sync_with_gadget_down : StateMachine → Groups → Gadget → M (StateMachine × Flow)
  unfolding sync_groups
  sync_with_gadget_down m groups g = do
    r ← wrap "deactivate gadget for media sync" (Gadget.deactivate H g)
    elim r [
      | err e ↦ pure (m, returned (err e))
      | ok g1 ↦ do
        sync_groups H m.archiver groups
        up ← Gadget.activate H g1
        pure (record m { gad = some (or_before g1 up) }, returned (ok tt))
    ]

  unfoldable pub down_or_panic : StateMachine → Groups → M (StateMachine × Flow)
  unfolding sync_with_gadget_down
  down_or_panic m groups = elim m.gad [
    | none ↦ pure (m, panicked)
    | some g ↦ sync_with_gadget_down m groups g
  ]

  unfoldable pub connect_and_sync : StateMachine → Groups → M (StateMachine × Flow)
  unfolding down_or_panic
  connect_and_sync m groups = do
    c ← Backend.connect H m.archiver
    let m1 = record m { archiver = c.0 }
    elim c.1 [
      | err e ↦ pure (m1, returned (err ("connect for media sync: " <> e)))
      | ok _ ↦ do
        r ← down_or_panic m1 groups
        d ← Backend.disconnect H r.0.archiver
        pure (record (r.0) { archiver = d.0 }, r.1)
    ]

  unfoldable pub sync_grouped : StateMachine → Groups → M (StateMachine × Flow)
  unfolding connect_and_sync
  sync_grouped m [] = pure (m, returned (ok tt))
  sync_grouped m (g ∷ groups) = do
    reachable ← Backend.is_reachable H m.archiver
    if reachable
        then connect_and_sync m (g ∷ groups)
        else pure (
          m,
          returned (
              err (
                "archive backend "
                <> Backend.name m.archiver
                <> " is not reachable for media sync")),
        )

  unfoldable pub run_media_sync : StateMachine → M (StateMachine × Flow)
  unfolding sync_grouped media_targets group_targets
  run_media_sync m = sync_grouped m (group_targets [] (media_targets m.cfg.archive))
