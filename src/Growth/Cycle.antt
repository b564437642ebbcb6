-- ===== src/Growth/Cycle.antt =====
-- Growth of the history under boot, and under what takes gadget and snapshot up and down.
use teslausb_neo.Base.{
  ℕ, zero, suc, String, ◌≤◌, ◌≡◌, refl, true, none, some, Option, List, [], ◌∷◌, length, arith,
}
use teslausb_neo.Base.Int.{pos}
use teslausb_neo.Host.{stat, History, Host}
use teslausb_neo.Host.Fallible.{Result, ok, err}
use teslausb_neo.Fsutil
use teslausb_neo.Sdnotify
use teslausb_neo.Snapshot.Release
use teslausb_neo.Snapshot.Create
use teslausb_neo.Gadget.Tree
use teslausb_neo.Gadget.Tree.{Gadget}
use teslausb_neo.Gadget.Bind
use teslausb_neo.Growth.Adds.{Adds, then-Adds}
use teslausb_neo.Growth.Drive.{
  unmount-Adds, activate-Adds, deactivate-Adds, configure-Adds, add_lun-Adds, set_nofua-Adds,
  create-Adds, release-Adds,
}
use teslausb_neo.Growth.Loops.{notify-Adds}
use teslausb_neo.Daemon.Machine.{StateMachine, cam_partition, snapshot_mountpoint}
use teslausb_neo.Daemon.Boot.{
  or_before, boot_partitions, add_if_present, add_partitions, enable_nofua, fill_gadget,
  boot_gadget, announce, boot, deactivate_gadget, reactivate_gadget, take_snapshot, snapshot_of,
  create_snapshot, cleanup_snapshot,
}

module _ (H : Host) where
  add_if_present-Adds :
      (device label : String) (g : Gadget) → Adds (add_if_present H device label g)
  unfolding add_if_present
  add_if_present-Adds device label g = record {
    less = λ t. ground (arith, (add_lun-Adds H device label g).less (stat device ∷ t));
  }

  add_partitions-Adds : (ps : List (String × String)) (g : Gadget) → Adds (add_partitions H ps g)
  unfolding add_partitions
  add_partitions-Adds [] g = record { less = λ t. omega arith }
  add_partitions-Adds ((device, label) ∷ rest) g =
      then-Adds (add_if_present-Adds device label g) (add_partitions-Adds rest)

  enable_nofua-Adds : (left i : ℕ) (g : Gadget) → Adds (enable_nofua H left i g)
  unfolding enable_nofua
  enable_nofua-Adds zero i g = record { less = λ t. omega arith }
  enable_nofua-Adds (suc left) i g =
      then-Adds (set_nofua-Adds H (pos i) true g)
        (λ r. enable_nofua-Adds left (suc i) (or_before g r))

  fill_gadget-Adds : (g : Gadget) → Adds (fill_gadget H g)
  unfolding fill_gadget
  fill_gadget-Adds g = record {
    less = λ t.
        let a = add_partitions H boot_partitions g t in
        let b = enable_nofua H (length a.0.luns) 0 a.0 a.1 in
        omega (
          arith,
          (add_partitions-Adds boot_partitions g).less t,
          (enable_nofua-Adds (length a.0.luns) 0 a.0).less a.1,
          (activate-Adds H b.0).less b.1,
        );
  }

  boot_gadget-Adds : (g : Gadget) → Adds (boot_gadget H g)
  unfolding boot_gadget
  boot_gadget-Adds g = record {
    less = λ t.
        let c = Tree.configure H g t in
        ground (arith, (configure-Adds H g).less t, (fill_gadget-Adds g).less c.1);
  }

  announce-Adds : (m : StateMachine) (r : Result (Unit {0})) → Adds (announce H m r)
  unfolding announce Sdnotify.ready
  announce-Adds m r = record { less = λ t. ground (arith, (notify-Adds H "READY=1").less t) }

  pub boot-Adds : (m : StateMachine) → Adds (boot H m)
  unfolding boot Release.cleanup
  boot-Adds m = record {
    less = λ t.
        let u = (Release.cleanup H (Fsutil.unmount H snapshot_mountpoint t).1).1 in
        let r = boot_gadget H (Tree.new "teslausb") u in
        omega (
          arith,
          (unmount-Adds H snapshot_mountpoint).less t,
          (boot_gadget-Adds (Tree.new "teslausb")).less u,
          (announce-Adds (record m { gad = some r.0.0 }) r.0.1).less r.1,
        );
  }

  pub deactivate_gadget-Adds : (m : StateMachine) → Adds (deactivate_gadget H m)
  unfolding deactivate_gadget
  deactivate_gadget-Adds m = record { less = λ t. go m.gad t refl }
    where
      go :
          (g : Option Gadget) (t : History)
          → m.gad ≡ g
          → length t ≤ length (deactivate_gadget H m t).1
      go none t e = rw (e, deactivate_gadget) (omega arith)
      go (some g) t e = rw (e, deactivate_gadget) ((deactivate-Adds H g).less t)

  pub reactivate_gadget-Adds : (m : StateMachine) → Adds (reactivate_gadget H m)
  unfolding reactivate_gadget
  reactivate_gadget-Adds m = record { less = λ t. go m.gad t refl }
    where
      go :
          (g : Option Gadget) (t : History)
          → m.gad ≡ g
          → length t ≤ length (reactivate_gadget H m t).1
      go none t e = rw (e, reactivate_gadget) (omega arith)
      go (some g) t e = rw (e, reactivate_gadget) ((activate-Adds H g).less t)

  take_snapshot-Adds : (m : StateMachine) (g : Gadget) → Adds (take_snapshot H m g)
  unfolding take_snapshot
  take_snapshot-Adds m g = record {
    less = λ t.
        let c = Create.create H cam_partition t in
        ground (arith, (create-Adds H cam_partition).less t, (activate-Adds H g).less c.1);
  }

  snapshot_of-Adds : (m : StateMachine) (g : Gadget) → Adds (snapshot_of H m g)
  unfolding snapshot_of
  snapshot_of-Adds m g = record { less = λ t. go (Bind.deactivate H g t).0 t refl }
    where
      go :
          (r : Result Gadget) (t : History)
          → (Bind.deactivate H g t).0 ≡ r
          → length t ≤ length (snapshot_of H m g t).1
      go (err x) t e = ground (arith, e, (deactivate-Adds H g).less t)
      go (ok g') t e = ground (
        arith,
        e,
        (deactivate-Adds H g).less t,
        (take_snapshot-Adds m g').less (Bind.deactivate H g t).1,
      )

  pub create_snapshot-Adds : (m : StateMachine) → Adds (create_snapshot H m)
  unfolding create_snapshot
  create_snapshot-Adds m = record { less = λ t. go m.gad t refl }
    where
      go :
          (g : Option Gadget) (t : History)
          → m.gad ≡ g
          → length t ≤ length (create_snapshot H m t).1
      go none t e = rw (e, create_snapshot) (omega arith)
      go (some g) t e = rw (e, create_snapshot) ((snapshot_of-Adds m g).less t)

  pub cleanup_snapshot-Adds : (m : StateMachine) → Adds (cleanup_snapshot H m)
  unfolding cleanup_snapshot
  cleanup_snapshot-Adds m = record { less = λ t. go m.snap t refl }
    where
      go :
          (s : Option Release.Snapshot) (t : History)
          → m.snap ≡ s
          → length t ≤ length (cleanup_snapshot H m t).1
      go none t e = rw (e, cleanup_snapshot) (omega arith)
      go (some s) t e = rw (e, cleanup_snapshot) ((release-Adds H s).less t)
