-- ===== src/Tests/Cycle.antt =====
-- The theorems on the state machine, its configuration and the network at concrete inputs.
use teslausb_neo.Base.{
  String, true, false, some, List, [], ◌∷◌, ◌≡◌, ◌≢◌, refl, arith, if◌then◌else◌, ◌==◌, Memᴰ,
}
use teslausb_neo.Base.Int.{pos}
use teslausb_neo.Host.{run, History}
use teslausb_neo.Host.Io.{pure}
use teslausb_neo.Host.Fallible.{ok, err, return, fail, Done}
use teslausb_neo.Archive.Backend.{Archiver, rsync, noop, name, archive_files}
use teslausb_neo.Archive.Rsync
use teslausb_neo.Archive.Transfer.{transfer}
use teslausb_neo.State.{is_archived, mark_archived}
use teslausb_neo.Config.Types.{Config}
use teslausb_neo.Config.Defaults.{default_config}
use teslausb_neo.Config.Validate.{
  validate, system_warnings, backend_warnings, method_warnings, keeper_warnings, wifi_warnings,
}
use teslausb_neo.Wifi.Manager.{scan_networks}
use teslausb_neo.Wifi.Manager.Laws.{Distinct, scan_networks-Distinct}
use teslausb_neo.Wifi.Watchdog.{Connectivity, watchdog_tick, watchdog_rounds}
use teslausb_neo.Wifi.Watchdog.Laws.{
  look, try_to_join, stuck, count_after, reboots, after_stuck, watchdog_tick-Sees, Sight, Sees,
  rounds_without_reboot, stuck_rounds,
}
use teslausb_neo.Fswatch.{Watcher, wait_loop, read_write_bytes, is_busy, on_writes, on_quiet}
use teslausb_neo.Fswatch.Laws.{Sample, Ticks, Window, start, wait_loop-Window}
use teslausb_neo.Daemon.Machine.{StateMachine, gadget_up}
use teslausb_neo.Daemon.Wiring.{initial, build_archive_backend}
use teslausb_neo.Daemon.Wiring.Choice.{build_archive_backend-name}
use teslausb_neo.Daemon.Archiving.{progress_fn}
use teslausb_neo.Daemon.Archiving.Marking.{archived_count, failed_file_skipped, copy_of}
use teslausb_neo.Daemon.Media.{media_targets, group_targets, MediaTarget}
use teslausb_neo.Daemon.Media.Grouping.{OnceEach, targets_at, wanted, group_targets-wanted}
use teslausb_neo.Daemon.Run.{round, rounds, in_state, goes_on, crashed}
use teslausb_neo.Daemon.Invariant.{Inv, Next, rounds-Inv, round-Next}
use teslausb_neo.Tests.Hosts.{quiet_host, database_host, database_host-IsDatabase, still_host}

abbrev payload : String → String → String → String
payload title message kind = message

abbrev first : StateMachine
first = initial quiet_host payload default_config

rounds-Inv_example : let r = rounds quiet_host "dev" 8 20 first [] in Inv r.0.0 × (r.0.1 ≢ crashed)
rounds-Inv_example = rounds-Inv quiet_host "dev" 8 payload default_config 20 []

abbrev up : StateMachine
up = record first { state = gadget_up }

went_on : (round quiet_host "dev" 8 up []).0.1 ≡ goes_on
unfolding round in_state
went_on = refl

round-Next_example : Next up.state (round quiet_host "dev" 8 up []).0.0.state
round-Next_example = round-Next quiet_host "dev" 8 up [] went_on

abbrev server : Archiver
server = rsync (record { server = "nas"; user = "tesla"; path = "TeslaCam"; ssh_key = "" })

not_noop : server ≢ noop
not_noop = ground arith

copy_failed :
    (archive_files database_host server "/mnt/snap"
      ("a.mp4" ∷ [])
      (some (progress_fn database_host "dev" (pos 1)))
      (pos 0)
      []).0.1
    ≡ err "rsync: a.mp4: "
unfolding archive_files transfer Rsync.copy_file progress_fn mark_archived
copy_failed = refl

failed_file_skipped_example :
    let r =
      archive_files database_host server "/mnt/snap"
        ("a.mp4" ∷ [])
        (some (progress_fn database_host "dev" (pos 1)))
        (pos 0)
        [] in
    (f : String) × (u : History) × Memᴰ f ("a.mp4" ∷ [])
    × (copy_of database_host server "/mnt/snap" f u ≡ (err "rsync: a.mp4: ", r.1))
    × ((is_archived database_host f r.1).0 ≡ true)
failed_file_skipped_example =
    failed_file_skipped database_host "dev" (pos 1) database_host-IsDatabase (λ f u. refl) server
      "/mnt/snap" ("a.mp4" ∷ []) (pos 0) [] "rsync: a.mp4: " not_noop copy_failed

copies_fine :
    (archive_files quiet_host server "/mnt/snap"
      ("a.mp4" ∷ "b.mp4" ∷ [])
      (some (progress_fn quiet_host "dev" (pos 1)))
      (pos 0)
      []).0.1
    ≡ ok tt
unfolding archive_files transfer Rsync.copy_file progress_fn mark_archived
copies_fine = refl

archived_count_example :
    (archive_files quiet_host server "/mnt/snap"
      ("a.mp4" ∷ "b.mp4" ∷ [])
      (some (progress_fn quiet_host "dev" (pos 1)))
      (pos 0)
      []).0.0
    ≡ pos 1
archived_count_example =
    archived_count quiet_host "dev" (pos 1) server "/mnt/snap" "a.mp4" ("b.mp4" ∷ []) (pos 0) []
      not_noop copies_fine

-- A network that is in range and cannot be joined.
abbrev locked : Connectivity
locked = record {
  is_connected = pure false;
  is_home_network = λ ssid. pure false;
  is_ssid_visible = λ ssid. pure true;
  connect_to_home = λ ssid. fail "no secrets";
}

abbrev reboot : Done
reboot t = (ok tt, run "systemctl" ("reboot" ∷ []) ∷ t)

watchdog_tick-Sees_example :
    (s : Sight) × (u : History) × Sees locked "home" [] s u
    × (watchdog_tick locked "home" (pos 4) (pos 5) reboot []
        ≡ (count_after s (pos 4), if reboots s (pos 4) (pos 5) then (reboot u).1 else u))
watchdog_tick-Sees_example = watchdog_tick-Sees locked "home" (pos 4) (pos 5) reboot []

rounds_without_reboot_example :
    watchdog_rounds quiet_host 4 locked "home" (pos 60) (pos 0) (pos 5) reboot []
    ≡ watchdog_rounds quiet_host 4 locked "home" (pos 60) (pos 0) (pos 5) (return tt) []
rounds_without_reboot_example =
    rounds_without_reboot quiet_host locked "home" (pos 60) 4 0 5 reboot (return tt) []
      (omega arith) (omega arith)

sees_stuck : (u : History) → (look locked "home" u).0 ≡ stuck
unfolding look try_to_join
sees_stuck u = refl

stuck_rounds_example :
    let r = watchdog_rounds quiet_host 5 locked "home" (pos 60) (pos 0) (pos 5) reboot [] in
    (r.0 ≡ some (pos 5))
    × ((v : History) × (r.1 ≡ after_stuck quiet_host locked "home" (pos 60) 4 (pos 5) reboot v))
stuck_rounds_example =
    stuck_rounds quiet_host locked "home" (pos 60) (λ u. refl) sees_stuck 4 0 (pos 5) reboot []
      (omega arith)

abbrev watcher : Watcher
watcher = record { write_threshold = pos 1024; timeout = pos 6; poll_interval = pos 1 }

idle_found :
    wait_loop still_host 6 watcher "42" (start (pos 5)) []
    ≡ (some (ok tt), (wait_loop still_host 6 watcher "42" (start (pos 5)) []).1)
unfolding wait_loop read_write_bytes is_busy on_writes on_quiet
idle_found = refl

wait_loop-Window_example :
    (ss : List Sample) × Ticks still_host watcher "42"
      (pos 5)
      []
      ss
      (wait_loop still_host 6 watcher "42" (start (pos 5)) []).1
    × Window watcher (pos 5) ss
wait_loop-Window_example =
    wait_loop-Window still_host watcher "42" 6 (pos 5) []
      (wait_loop still_host 6 watcher "42" (start (pos 5)) []).1 idle_found

scan_networks-Distinct_example : Distinct (scan_networks quiet_host []).0
scan_networks-Distinct_example = scan_networks-Distinct quiet_host []

abbrev ready : Config
ready = record default_config {
  cifs = record (default_config.cifs) { server = "nas"; share = "cam" };
  wifi = record (default_config.wifi) { home_ssid = "home"; home_password = "secret" };
}

ready_fine : validate quiet_host ready ≡ []
unfolding validate system_warnings backend_warnings method_warnings keeper_warnings wifi_warnings
    default_config
ready_fine = refl

build_archive_backend-name_example :
    name (build_archive_backend ready)
    ≡ (if ready.archive.system == "" then "none" else ready.archive.system)
build_archive_backend-name_example = build_archive_backend-name quiet_host ready ready_fine

abbrev targets : List MediaTarget
targets =
    media_targets (record (default_config.archive) { sync_light_show = true; sync_boombox = true })

group_targets-wanted_example :
    OnceEach (group_targets [] targets)
    × (targets_at "/dev/mmcblk0p7" (group_targets [] targets) ≡ wanted "/dev/mmcblk0p7" targets)
group_targets-wanted_example = group_targets-wanted targets "/dev/mmcblk0p7"
