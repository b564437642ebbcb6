-- ===== src/Tests/Components.antt =====
-- The components' theorems at concrete inputs.
use teslausb_neo.Base.{
  String, Bool, true, false, none, some, List, [], ◌∷◌, ◌++◌, ◌≡◌, ◌↔◌, refl, arith, if◌then◌else◌,
  ◌==◌, ◌+◌, ◌*◌,
}
use teslausb_neo.Base.Int.{pos}
use teslausb_neo.Host.{run, History, Host, Space}
use teslausb_neo.Host.Io.{pure}
use teslausb_neo.Host.Fallible.{ok, err, is_ok, return, fail, Done}
use teslausb_neo.Fsutil
use teslausb_neo.Fsutil.{usage_of, is_mounted, mount_args}
use teslausb_neo.Fsutil.Laws.{usage_of-exact, Freed, mount-Freed}
use teslausb_neo.Gadget.Tree.{new, gadget_path, Gadget}
use teslausb_neo.Gadget.Bind.{find_udc, activate, link_function, current_udc, bind_udc, write_udc}
use teslausb_neo.Gadget.Binding.{Bound, activate-Bound}
use teslausb_neo.Snapshot.Release.{Snapshot, release, cleanup, dm_name, release_mount}
use teslausb_neo.Snapshot.Create.{create_with_cow_size, hot_add, build, built_on, settle, fresh}
use teslausb_neo.Snapshot.Laws.{release_calls, create_failed, teardown, begun, after_steps}
use teslausb_neo.Snapshot.Built.{Built, create-Built}
use teslausb_neo.State.{mark_archived, is_archived, list_unarchived, insert_file}
use teslausb_neo.State.Laws.{missing, is_archived-mark_archived, list_unarchived-missing}
use teslausb_neo.Archive.Transfer.{transfer_from}
use teslausb_neo.Archive.Laws.{Run, transfer_from-Run}
use teslausb_neo.Config.Defaults.{default_config}
use teslausb_neo.Config.Types.{Config}
use teslausb_neo.Config.Validate.{
  validate, system_warnings, backend_warnings, method_warnings, keeper_warnings, wifi_warnings,
}
use teslausb_neo.Config.Laws.{IsReady, validate-nil}
use teslausb_neo.Notify.{Notifier, new_multi, noop_notifier}
use teslausb_neo.Notify.Laws.{Deliveries, AllTrue, new_multi-Deliveries}
use teslausb_neo.Tests.Hosts.{
  quiet_host, without, database_host, database_host-IsDatabase, calm, host_of,
}

abbrev disk : Space
disk = record { blocks = 1000; bfree = 400; bavail = 300; bsize = 4096 }

usage_of-exact_example :
    ((usage_of disk).0 + disk.bfree * disk.bsize ≡ disk.blocks * disk.bsize)
    × ((usage_of disk).1 ≡ disk.bavail * disk.bsize)
usage_of-exact_example = usage_of-exact disk (omega arith) (omega arith) (omega arith)

mounted_fine : (Fsutil.mount quiet_host "/dev/sda1" "/mnt" "exfat" false []).0 ≡ ok tt
unfolding Fsutil.mount is_mounted Fsutil.mounted_in
mounted_fine = refl

mount-Freed_example :
    let call = run "mount" ("-t" ∷ "exfat" ∷ "/dev/sda1" ∷ "/mnt" ∷ []) in
    (u : History) × Freed quiet_host "/mnt" [] u
    × ((Fsutil.mount quiet_host "/dev/sda1" "/mnt" "exfat" false []).1 ≡ call ∷ u)
    × ((quiet_host.answer u call).fault ≡ none)
mount-Freed_example = mount-Freed quiet_host "/dev/sda1" "/mnt" "exfat" false [] mounted_fine

-- A host with one USB device controller.
abbrev usb_host : Host
usb_host = host_of (λ t c. record calm { entries = ("fe980000.usb", false) ∷ [] })

abbrev active_gadget : Gadget
active_gadget = record (new "teslausb") { active = true }

activated_fine : (activate usb_host (new "teslausb") []).0 ≡ ok active_gadget
unfolding activate link_function find_udc current_udc bind_udc write_udc
activated_fine = refl

activate-Bound_example :
    (active_gadget ≡ record (new "teslausb") { active = true })
    × ((udc : String) × ((u : History) × ((find_udc usb_host u).0 ≡ ok udc))
        × Bound usb_host
            (gadget_path usb_host (new "teslausb"))
            udc
            (activate usb_host (new "teslausb") []).1)
activate-Bound_example = activate-Bound usb_host (new "teslausb") active_gadget [] activated_fine

abbrev held : Snapshot
held = record {
  origin_device = "/dev/mmcblk0p5";
  snapshot_name = dm_name;
  zram_device = "/dev/zram1";
  zram_size_mb = pos 64;
  mountpoint = "/mnt/snap";
}

release_calls_example :
    let r = release (without "umount") held [] in
    (r.1 ≡ teardown (without "umount") held ++ (release_mount (without "umount") "/mnt/snap" []).1)
    × (r.0.0 ≡ record held { mountpoint = ""; zram_device = "" })
release_calls_example = release_calls (without "umount") held []

no_blockdev :
    (create_with_cow_size (without "blockdev") "/dev/mmcblk0p5" (pos 64) []).0
    ≡ err "snapshot: blockdev: exit status 1"
unfolding create_with_cow_size built_on settle build hot_add cleanup release
no_blockdev = refl

create_failed_example :
    let H = without "blockdev" in
    let (r, t') = hot_add H (cleanup H []).1 in
    (create_with_cow_size H "/dev/mmcblk0p5" (pos 64) []).1
    ≡ teardown H (begun H "/dev/mmcblk0p5" (pos 64) r)
      ++ after_steps H "/dev/mmcblk0p5" (pos 64) r t'
create_failed_example =
    create_failed (without "blockdev") "/dev/mmcblk0p5" (pos 64) []
      "snapshot: blockdev: exit status 1" no_blockdev

abbrev made : Snapshot
made = record {
  origin_device = "/dev/mmcblk0p5";
  snapshot_name = dm_name;
  zram_device = "/dev/zram";
  zram_size_mb = pos 64;
  mountpoint = "";
}

made_fine : (create_with_cow_size quiet_host "/dev/mmcblk0p5" (pos 64) []).0 ≡ ok made
unfolding create_with_cow_size built_on settle build hot_add cleanup release fresh
made_fine = refl

create-Built_example :
    Built quiet_host "/dev/mmcblk0p5" made
      (run "dmsetup" ("remove" ∷ "--retry" ∷ "teslausb-snap-origin" ∷ [])
        ∷ run "dmsetup" ("remove" ∷ "--retry" ∷ "teslausb-snap" ∷ [])
        ∷ [])
      (create_with_cow_size quiet_host "/dev/mmcblk0p5" (pos 64) []).1
create-Built_example = create-Built quiet_host "/dev/mmcblk0p5" (pos 64) [] made made_fine

abbrev one_stored : History
one_stored = insert_file "a.mp4" (pos 0) (pos 1) ∷ []

list_unarchived-missing_example :
    (list_unarchived database_host ("a.mp4" ∷ "b.mp4" ∷ []) one_stored).0
    ≡ missing database_host one_stored ("a.mp4" ∷ "b.mp4" ∷ [])
list_unarchived-missing_example =
    list_unarchived-missing database_host database_host-IsDatabase ("a.mp4" ∷ "b.mp4" ∷ [])
      one_stored

marked_fine : is_ok (mark_archived database_host "b.mp4" (pos 0) (pos 1) one_stored).0 ≡ true
marked_fine = unfold mark_archived in refl

is_archived-mark_archived_example :
    (is_archived database_host "a.mp4"
      (mark_archived database_host "b.mp4" (pos 0) (pos 1) one_stored).1).0
    ≡ (if "b.mp4" == "a.mp4" then true else (is_archived database_host "a.mp4" one_stored).0)
is_archived-mark_archived_example =
    is_archived-mark_archived database_host database_host-IsDatabase "b.mp4" "a.mp4" (pos 0) (pos 1)
      one_stored marked_fine

-- A copy that works for all files but one.
abbrev copies : String → Done
copies f = if f == "b.mp4" then fail "disk full" else return tt

transfer_from-Run_example :
    Run copies
      (λ i n f v. pure (pos i))
      2
      ("a.mp4" ∷ "b.mp4" ∷ [])
      0
      (pos 0)
      []
      (transfer_from copies
        (some (λ i n f v. pure (pos i)))
        0
        2
        ("a.mp4" ∷ "b.mp4" ∷ [])
        (pos 0)
        [])
transfer_from-Run_example =
    transfer_from-Run copies (λ i n f v. pure (pos i)) 2 ("a.mp4" ∷ "b.mp4" ∷ []) 0 (pos 0) []

-- A configuration that archives to a share, keeps the car awake by Bluetooth and has a network.
abbrev full_config : Config
full_config = record default_config {
  archive = record (default_config.archive) { system = "cifs" };
  cifs = record (default_config.cifs) { server = "nas"; share = "TeslaCam" };
  wake = record (default_config.wake) { method = "ble"; ble_vin = "5YJ3" };
  wifi = record (default_config.wifi) { home_ssid = "home"; home_password = "secret" };
}

validate-nil_example : (validate quiet_host full_config ≡ []) ↔ IsReady full_config
validate-nil_example = validate-nil quiet_host full_config

full_config_unwarned : validate quiet_host full_config ≡ []
unfolding validate system_warnings backend_warnings method_warnings keeper_warnings wifi_warnings
full_config_unwarned = refl

abbrev failing : Notifier
failing = record { send = λ title message event. fail "no network" }

new_multi-Deliveries_example :
    let ns = some failing ∷ none ∷ some noop_notifier ∷ [] in
    (oks : List Bool) × Deliveries "TeslaUSB" "hello" "start" ns [] oks
      ((new_multi ns).send "TeslaUSB" "hello" "start" []).1
    × ((((new_multi ns).send "TeslaUSB" "hello" "start" []).0 ≡ ok tt) ↔ AllTrue oks)
new_multi-Deliveries_example =
    new_multi-Deliveries "TeslaUSB" "hello" "start" (some failing ∷ none ∷ some noop_notifier ∷ [])
      []
