-- ===== src/Growth/Media.antt =====
-- Growth of the history under runMediaSync.
use teslausb_neo.Base.{
  String, ◌≤◌, ◌≡◌, refl, false, none, some, Option, List, [], ◌∷◌, length, arith, ◌<>◌,
}
use teslausb_neo.Host.{stat, mkdir_all, History, Host}
use teslausb_neo.Host.Fallible.{Result, ok, err}
use teslausb_neo.Fsutil
use teslausb_neo.Gadget.Tree.{Gadget}
use teslausb_neo.Gadget.Bind
use teslausb_neo.Archive.Backend
use teslausb_neo.Archive.Backend.{Archiver}
use teslausb_neo.Growth.Adds.{Adds}
use teslausb_neo.Growth.Drive.{unmount-Adds, mount-Adds, activate-Adds, deactivate-Adds}
use teslausb_neo.Growth.Network.{is_reachable-Adds, connect-Adds, disconnect-Adds, sync_media-Adds}
use teslausb_neo.Daemon.Machine.{StateMachine, media_mountpoint}
use teslausb_neo.Daemon.Media.{
  MediaTarget, Groups, target_dest, sync_target, sync_targets, sync_mounted, sync_present,
  sync_partition, sync_groups, sync_with_gadget_down, down_or_panic, connect_and_sync, sync_grouped,
  run_media_sync, media_targets, group_targets,
}

module _ (H : Host) where
  module _ (archiver : Archiver) where
    sync_target-Adds :
        (mountpoint : String) (x : MediaTarget) → Adds (sync_target H archiver mountpoint x)
    unfolding sync_target
    sync_target-Adds mountpoint x = record {
      less = λ t.
          let dest = target_dest mountpoint x in
          ground (
            arith,
            (sync_media-Adds H archiver dest x.folder).less t,
            (sync_media-Adds H archiver dest x.folder).less (mkdir_all dest ∷ t),
          );
    }

    sync_targets-Adds :
        (mountpoint : String) (xs : List MediaTarget) → Adds (sync_targets H archiver mountpoint xs)
    unfolding sync_targets
    sync_targets-Adds mountpoint [] = record { less = λ t. omega arith }
    sync_targets-Adds mountpoint (x ∷ xs) = record {
      less = λ t. omega (
        arith,
        (sync_target-Adds mountpoint x).less t,
        (sync_targets-Adds mountpoint xs).less (sync_target H archiver mountpoint x t).1,
      );
    }

    sync_mounted-Adds :
        (partition mountpoint : String) (xs : List MediaTarget)
        → Adds (sync_mounted H archiver partition mountpoint xs)
    unfolding sync_mounted
    sync_mounted-Adds partition mountpoint xs = record {
      less = λ t.
          let r = Fsutil.mount H partition mountpoint "exfat" false t in
          ground (
            arith,
            (mount-Adds H partition mountpoint "exfat" false).less t,
            (sync_targets-Adds mountpoint xs).less r.1,
            (unmount-Adds H mountpoint).less (sync_targets H archiver mountpoint xs r.1).1,
          );
    }

    sync_present-Adds :
        (partition mountpoint : String) (xs : List MediaTarget)
        → Adds (sync_present H archiver partition mountpoint xs)
    unfolding sync_present
    sync_present-Adds partition mountpoint xs = record {
      less = λ t.
          ground
            (arith, (sync_mounted-Adds partition mountpoint xs).less (mkdir_all mountpoint ∷ t));
    }

    sync_partition-Adds :
        (partition : String) (xs : List MediaTarget) → Adds (sync_partition H archiver partition xs)
    unfolding sync_partition
    sync_partition-Adds partition xs = record {
      less = λ t. ground (
        arith,
        (sync_present-Adds partition (media_mountpoint <> "/" <> H.base partition) xs).less
            (stat partition ∷ t),
      );
    }

    sync_groups-Adds : (groups : Groups) → Adds (sync_groups H archiver groups)
    unfolding sync_groups
    sync_groups-Adds [] = record { less = λ t. omega arith }
    sync_groups-Adds ((p, xs) ∷ groups) = record {
      less = λ t. omega (
        arith,
        (sync_partition-Adds p xs).less t,
        (sync_groups-Adds groups).less (sync_partition H archiver p xs t).1,
      );
    }

  sync_with_gadget_down-Adds :
      (m : StateMachine) (groups : Groups) (g : Gadget) → Adds (sync_with_gadget_down H m groups g)
  unfolding sync_with_gadget_down
  sync_with_gadget_down-Adds m groups g = record { less = λ t. go (Bind.deactivate H g t).0 t refl }
    where
      go :
          (r : Result Gadget) (t : History)
          → (Bind.deactivate H g t).0 ≡ r
          → length t ≤ length (sync_with_gadget_down H m groups g t).1
      go (err x) t e = ground (arith, e, (deactivate-Adds H g).less t)
      go (ok g1) t e =
          let down = (Bind.deactivate H g t).1 in
          let synced = (sync_groups H m.archiver groups down).1 in
          ground (
            arith,
            e,
            (deactivate-Adds H g).less t,
            (sync_groups-Adds m.archiver groups).less down,
            (activate-Adds H g1).less synced,
          )

  down_or_panic-Adds : (m : StateMachine) (groups : Groups) → Adds (down_or_panic H m groups)
  unfolding down_or_panic
  down_or_panic-Adds m groups = record { less = λ t. go m.gad t refl }
    where
      go :
          (g : Option Gadget) (t : History)
          → m.gad ≡ g
          → length t ≤ length (down_or_panic H m groups t).1
      go none t e = rw (e, down_or_panic) (omega arith)
      go (some g) t e = rw (e, down_or_panic) ((sync_with_gadget_down-Adds m groups g).less t)

  connect_and_sync-Adds : (m : StateMachine) (groups : Groups) → Adds (connect_and_sync H m groups)
  unfolding connect_and_sync
  connect_and_sync-Adds m groups = record {
    less = λ t.
        let c = Backend.connect H m.archiver t in
        let m1 : StateMachine = record m { archiver = c.0.0 } in
        let r = down_or_panic H m1 groups c.1 in
        ground (
          arith,
          (connect-Adds H m.archiver).less t,
          (down_or_panic-Adds m1 groups).less c.1,
          (disconnect-Adds H r.0.0.archiver).less r.1,
        );
  }

  sync_grouped-Adds : (m : StateMachine) (groups : Groups) → Adds (sync_grouped H m groups)
  unfolding sync_grouped
  sync_grouped-Adds m [] = record { less = λ t. omega arith }
  sync_grouped-Adds m (g ∷ groups) = record {
    less = λ t. ground (
      arith,
      (is_reachable-Adds H m.archiver).less t,
      (connect_and_sync-Adds m (g ∷ groups)).less (Backend.is_reachable H m.archiver t).1,
    );
  }

  pub run_media_sync-Adds : (m : StateMachine) → Adds (run_media_sync H m)
  unfolding run_media_sync
  run_media_sync-Adds m = sync_grouped-Adds m (group_targets [] (media_targets m.cfg.archive))
