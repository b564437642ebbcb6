-- ===== src/Sys.antt =====
-- internal/sys: kernel tuning, the LED and the power switches.
pub mod Zram
use teslausb_neo.Base.{
  String, ◌<>◌, Bool, true, false, Option, none, some, List, [], ◌∷◌, ◌==◌, if◌then◌else◌,
}
use teslausb_neo.Base.Int.{ℤ, pos, scale, wrap_int64}
use teslausb_neo.Host.{run, write_file, read_file, stat, Answer, Host}
use teslausb_neo.Host.Io
use teslausb_neo.Host.Io.{M, ask}
use teslausb_neo.Host.Fallible.{ok, err, Done, return, ◌>>=◌, ◌>>◌, lift, attempt, wrap, try}

pub record Tuning : Type 0 where
  pub dirty_ratio : ℤ
  pub dirty_background_bytes : ℤ
  pub dirty_writeback_centisecs : ℤ
  pub cpu_governor : String
  pub cpu_governor_archiving : String

abbrev pub cpu_governor_path : String
cpu_governor_path = "/sys/devices/system/cpu/cpufreq/policy0/scaling_governor"

-- os.IsNotExist(err)
abbrev pub is_absent : Answer → Bool
is_absent a = elim a.fault [ none ↦ false | some f ↦ f.not_exist ]

module _ (H : Host) where
  -- os.WriteFile, its error wrapped
  write_or : String → String → String → Done
  write_or prefix path value = do wrap prefix (try H (write_file path value)); return tt

  -- A command; its trimmed output stands in its error.
  command_or : String → String → List String → Done
  command_or prefix name args t =
      let (a, t') = ask H (run name args) t in
      (
        elim a.fault [
          | none ↦ ok tt
          | some f ↦ err (prefix <> ": " <> H.trim_space a.text <> ": " <> f.message)
        ],
        t',
      )

  -- A Go map is walked in any order; this is the order of the source text.
  unfoldable pub apply_vm_tuning : Tuning → Done
  unfolding write_or
  apply_vm_tuning c = do
    write_vm "dirty_ratio" (H.itoa c.dirty_ratio)
    write_vm "dirty_background_bytes" (H.itoa c.dirty_background_bytes)
    write_vm "dirty_writeback_centisecs" (H.itoa c.dirty_writeback_centisecs)
    where
      write_vm : String → String → Done
      write_vm name value =
          write_or ("set " <> name <> " to " <> value) (H.join ("/proc/sys/vm" ∷ name ∷ [])) value

  unfoldable pub set_io_scheduler : String → String → Done
  unfolding write_or
  set_io_scheduler device scheduler =
      write_or ("set scheduler " <> scheduler <> " on " <> device)
        (H.join ("/sys/block" ∷ H.trim_prefix device "/dev/" ∷ "queue" ∷ "scheduler" ∷ []))
        scheduler

  unfoldable pub set_cpu_governor : String → Done
  unfolding write_or
  set_cpu_governor governor =
      write_or ("set cpu governor to " <> governor) cpu_governor_path governor

  abbrev pub zram_path : String → String
  zram_path name = H.join ("/sys/block/zram0" ∷ name ∷ [])

  -- The device is reset where its size can be read and is not "0".
  reset_if : Answer → M (Unit {0})
  reset_if a = elim a.fault [
    | some _ ↦ Io.pure tt
    | none ↦ if H.trim_space a.text == "0" then Io.pure tt else λ t.
        (tt, write_file (zram_path "reset") "1" ∷ t)
  ]

  unfoldable pub reset_zram0 : M (Unit {0})
  unfolding reset_if
  reset_zram0 t =
      let (_, t1) = ask H (run "swapoff" ("/dev/zram0" ∷ [])) t in
      let (a, t2) = ask H (read_file (zram_path "disksize")) t1 in reset_if a t2

  -- The module is loaded where /sys/block/zram0 does not exist.
  unfoldable pub load_zram : Done
  unfolding command_or
  load_zram = do
    a ← lift (ask H (stat "/sys/block/zram0"))
    if is_absent a then command_or "modprobe zram" "modprobe" ("zram" ∷ []) else return tt

  -- The size in bytes of `size_mb` megabytes, an int of 64 bits.
  abbrev pub zram_bytes : ℤ → String
  zram_bytes size_mb = H.itoa (wrap_int64 (scale 1048576 size_mb))

  -- From the loaded module on.
  unfoldable pub swap_on : ℤ → Done
  unfolding write_or command_or
  swap_on size_mb = do
    lift reset_zram0
    write_or "set zram disksize" (zram_path "disksize") (zram_bytes size_mb)
    command_or "mkswap /dev/zram0" "mkswap" ("/dev/zram0" ∷ [])
    command_or "swapon /dev/zram0" "swapon" ("-p" ∷ "5" ∷ "/dev/zram0" ∷ [])

  unfoldable pub setup_zram : ℤ → Done
  setup_zram size_mb = do load_zram; swap_on size_mb

  -- The errors of the scheduler and of zram are warnings.
  unfoldable pub apply_all : Tuning → Done
  apply_all c = do
    wrap "vm tuning" (apply_vm_tuning c)
    attempt (set_io_scheduler "mmcblk0" "bfq")
    if c.cpu_governor == ""
        then return tt
        else wrap "cpu governor" (set_cpu_governor c.cpu_governor)
    attempt (setup_zram (pos 256))
    return tt

  unfoldable pub set_led_trigger : String → Done
  unfolding write_or
  set_led_trigger trigger =
      write_or ("set LED trigger to " <> trigger) "/sys/class/leds/led0/trigger" trigger

  -- setLEDDelayMS
  unfoldable pub set_led_delay : ℤ → ℤ → Done
  unfolding write_or
  set_led_delay on off = do
    write_or "set LED delay_on" "/sys/class/leds/led0/delay_on" (H.itoa on)
    write_or "set LED delay_off" "/sys/class/leds/led0/delay_off" (H.itoa off)

  unfoldable pub slow_blink : Done
  slow_blink = do set_led_trigger "timer"; set_led_delay (pos 1000) (pos 1000)

  unfoldable pub fast_blink : Done
  fast_blink = do set_led_trigger "timer"; set_led_delay (pos 200) (pos 200)

  unfoldable pub double_blink : Done
  double_blink = set_led_trigger "heartbeat"

  unfoldable pub led_off : Done
  led_off = set_led_trigger "none"

  unfoldable pub disable_hdmi : Done
  unfolding command_or
  disable_hdmi = command_or "disable HDMI" "tvservice" ("-o" ∷ [])

  unfoldable pub disable_bluetooth : Bool → Done
  unfolding command_or
  disable_bluetooth use_ble_wake =
      if use_ble_wake
      then return tt
      else command_or "disable bluetooth" "rfkill" ("block" ∷ "bluetooth" ∷ [])
