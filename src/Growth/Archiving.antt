-- ===== src/Growth/Archiving.antt =====
-- Growth of the history under runArchive.
use teslausb_neo.Base.{String, ◌≤◌, ◌≡◌, refl, Option, none, some, length, arith}
use teslausb_neo.Host.{History, Host}
use teslausb_neo.Growth.Adds.{Adds}
use teslausb_neo.Growth.Drive.{unmount-Adds, snapshot_mount-Adds}
use teslausb_neo.Growth.Network.{
  Speaks, start-Adds, stop-Adds, is_reachable-Adds, connect-Adds, disconnect-Adds,
}
use teslausb_neo.Tesla
use teslausb_neo.Archive.Backend
use teslausb_neo.Archive.Backend.{Archiver, cifs, nfs, rsync, rclone, noop}
use teslausb_neo.Snapshot.Release
use teslausb_neo.Daemon.Machine.{StateMachine, snapshot_mountpoint, set_cpu_governor}
use teslausb_neo.Daemon.Archiving.{
  archive_connected, connect_and_archive, reach_and_archive, archive_awake, archive_mounted,
  run_archive,
}
use teslausb_neo.Growth.Session.{archive_connected-Adds}

module _ (H : Host) where
  connect_and_archive-Adds :
      (version : String) (m : StateMachine)
      → Speaks m.notifier
      → Adds (connect_and_archive H version m)
  unfolding connect_and_archive
  connect_and_archive-Adds version m speaks = record {
    less = λ t.
        let c = Backend.connect H m.archiver t in
        let m1 : StateMachine = record m { archiver = c.0.0 } in
        let r = archive_connected H version m1 c.1 in
        ground (
          arith,
          (connect-Adds H m.archiver).less t,
          (archive_connected-Adds H version m1 speaks).less c.1,
          (disconnect-Adds H m1.archiver).less r.1,
        );
  }

  reach_and_archive-Adds :
      (version : String) (m : StateMachine)
      → Speaks m.notifier
      → Adds (reach_and_archive H version m)
  unfolding reach_and_archive
  reach_and_archive-Adds version m speaks = record {
    less = λ t. ground (
      arith,
      (is_reachable-Adds H m.archiver).less t,
      (connect_and_archive-Adds version m speaks).less (Backend.is_reachable H m.archiver t).1,
    );
  }

  archive_awake-Adds :
      (version : String) (m : StateMachine) → Speaks m.notifier → Adds (archive_awake H version m)
  unfolding archive_awake
  archive_awake-Adds version m speaks = record {
    less = λ t.
        let w = Tesla.start H m.wake t in
        let m1 : StateMachine = record m { wake = w.0.0 } in
        let u = (set_cpu_governor H m.cfg.tuning.cpu_governor_archiving w.1).1 in
        let r = reach_and_archive H version m1 u in
        let u' = (set_cpu_governor H m.cfg.tuning.cpu_governor r.1).1 in
        omega (
          arith,
          (start-Adds H m.wake).less t,
          (reach_and_archive-Adds version m1 speaks).less u,
          (stop-Adds H r.0.0.wake).less u',
        );
  }

  archive_mounted-Adds :
      (version : String) (m : StateMachine) (e : Option String)
      → Speaks m.notifier
      → Adds (archive_mounted H version m e)
  unfolding archive_mounted
  archive_mounted-Adds version m (some e) speaks = record { less = λ t. omega arith }
  archive_mounted-Adds version m none speaks = record {
    less = λ t.
        let r = archive_awake H version m t in
        omega (
          arith,
          (archive_awake-Adds version m speaks).less t,
          (unmount-Adds H snapshot_mountpoint).less r.1,
        );
  }

  pub run_archive-Adds :
      (version : String) (m : StateMachine) → Speaks m.notifier → Adds (run_archive H version m)
  unfolding run_archive
  run_archive-Adds version m speaks = record { less = λ t. go m.snap refl t }
    where
      go :
          (s : Option Release.Snapshot)
          → m.snap ≡ s
          → (t : History) → length t ≤ length (run_archive H version m t).1
      go none e t = rw (e, run_archive) (omega arith)
      go (some s) e t =
          let mounted = Release.mount H snapshot_mountpoint s t in
          let m1 : StateMachine = record m { snap = some mounted.0.0 } in
          rw (e, run_archive)
            (omega (
              arith,
              (snapshot_mount-Adds H snapshot_mountpoint s).less t,
              (archive_mounted-Adds version m1 mounted.0.1 speaks).less mounted.1,
            ))
