-- ===== src/Daemon/Wiring.antt =====
-- The components that `main` builds from the configuration, and the first state machine.
pub mod Choice
use teslausb_neo.Base.{String, false, Option, none, some, List, [], ◌∷◌, ◌++◌, ◌==◌, if◌then◌else◌}
use teslausb_neo.Base.Int.{pos}
use teslausb_neo.Host.{Host}
use teslausb_neo.Config.Types.{Config, NotifyConfig, WakeConfig}
use teslausb_neo.Archive.Backend.{Archiver, cifs, nfs, rsync, rclone, noop}
use teslausb_neo.Archive.Cifs.{new_cifs}
use teslausb_neo.Archive.Nfs.{new_nfs}
use teslausb_neo.Archive.Rsync.{new_rsync}
use teslausb_neo.Archive.Rclone.{new_rclone}
use teslausb_neo.Notify.{Notifier, new_multi, noop_notifier, new_ntfy, new_apprise}
use teslausb_neo.Tesla
use teslausb_neo.Tesla.{WakeKeeper, ble, tessie, webhook, new_ble, new_tessie}
use teslausb_neo.Fswatch.{new_watcher}
use teslausb_neo.Daemon.Machine.{StateMachine, booting}

-- buildArchiveBackend
unfoldable pub build_archive_backend : Config → Archiver
unfolding new_cifs new_rsync new_rclone new_nfs
build_archive_backend c =
    if c.archive.system == "cifs"
    then cifs (new_cifs c.cifs)
    else if c.archive.system == "rsync"
    then rsync (new_rsync c.rsync.server c.rsync.user c.rsync.path "")
    else if c.archive.system == "rclone"
    then rclone (new_rclone "teslausb" c.rclone.path)
    else if c.archive.system == "nfs"
    then nfs (new_nfs c.nfs.server c.nfs.share c.nfs.path)
    else noop

-- buildWakeKeeper
unfoldable pub build_wake_keeper : WakeConfig → WakeKeeper
unfolding new_ble new_tessie
build_wake_keeper w =
    if w.method == "ble"
    then ble (new_ble w.ble_vin "/usr/bin/tesla-control")
    else if w.method == "tessie"
    then tessie (new_tessie w.tessie.token w.tessie.vin)
    else if w.method == "webhook"
    then webhook w.webhook_url
    else Tesla.noop

module _ (H : Host) (payload : String → String → String → String) where
  unfoldable pub notifiers_of : NotifyConfig → List (Option Notifier)
  notifiers_of c =
      (if c.ntfy.url == "" then [] else some (new_ntfy H c.ntfy.url "default" "") ∷ [])
      ++ (if c.apprise.url == "" then [] else some (new_apprise H payload c.apprise.url) ∷ [])

  notifier_of : List (Option Notifier) → Notifier
  notifier_of [] = noop_notifier
  notifier_of (n ∷ ns) = new_multi (n ∷ ns)

  -- buildNotifier
  unfoldable pub build_notifier : NotifyConfig → Notifier
  unfolding notifiers_of notifier_of
  build_notifier c = notifier_of (notifiers_of c)

  -- The literal `&StateMachine{…}` of main.
  unfoldable pub initial : Config → StateMachine
  initial c = record {
    state = booting;
    cfg = c;
    gad = none;
    archiver = build_archive_backend c;
    notifier = build_notifier c.notify;
    wake = build_wake_keeper c.wake;
    watcher = new_watcher c.idle.write_threshold_bytes c.idle.timeout_seconds (pos 1);
    snap = none;
    ready = false;
  }
