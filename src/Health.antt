-- ===== src/Health.antt =====
-- internal/health/health.go: the CPU temperature and the storage.
pub mod Interval
use teslausb_neo.Base.{
  ℕ, suc, zero, String, ◌<>◌, Bool, true, false, Option, none, some, ◌/◌, ◌%◌, ◌*◌, ◌+◌, ◌-◌,
  if◌then◌else◌,
}
use teslausb_neo.Base.Int.{ℤ, pos, negsuc, sub_ℕ, leb_ℤ, seconds}
use teslausb_neo.Host.{read_file, statfs, wait, Space, Host}
use teslausb_neo.Host.Io.{M, pure, ask, ◌>>=◌}
use teslausb_neo.Host.Fallible.{Result, ok, err, E}
use teslausb_neo.Config.Types.{HealthConfig}
use teslausb_neo.Notify.{Notifier, event_warning}
use teslausb_neo.Fsutil.{uint64}
use teslausb_neo.Sdnotify

pub record Monitor : Type 0 where
  pub cfg : HealthConfig
  pub notifier : Option Notifier
  pub interval : ℤ

-- NewMonitor: no interval that is not positive
unfoldable pub new_monitor : HealthConfig → Option Notifier → Monitor
new_monitor cfg notifier = record {
  cfg = cfg;
  notifier = notifier;
  interval =
      if leb_ℤ (seconds cfg.interval_seconds) (pos 0)
      then pos 60000000000
      else seconds cfg.interval_seconds;
}

-- Go's `n / 1000` and `n % 1000`, which round to zero.
abbrev pub thousands : ℤ → ℤ
thousands (pos n) = pos (n / 1000)
thousands (negsuc n) = sub_ℕ 0 (suc n / 1000)

abbrev pub rest : ℤ → ℤ
rest (pos n) = pos (n % 1000)
rest (negsuc n) = sub_ℕ 0 (suc n % 1000)

-- Used and free bytes; the free ones are all free blocks, unlike those of fsutil.GetDiskUsage.
unfoldable pub storage_of : Space → ℕ × ℕ
storage_of s =
    let total = uint64 (s.blocks * s.bsize) in
    let free = uint64 (s.bfree * s.bsize) in (uint64 (total + 18446744073709551616 - free), free)

module _ (H : Host) where
  unfoldable pub get_cpu_temp : E ℤ
  get_cpu_temp = do
    a ← ask H (read_file "/sys/class/thermal/thermal_zone0/temp")
    pure (elim a.fault [
      | some f ↦ err ("health: read cpu temp: " <> f.message)
      | none ↦ elim (H.parse_int (H.trim_space a.text)) [
        | none ↦ err ("health: parse cpu temp: " <> H.parse_error (H.trim_space a.text))
        | some n ↦ ok n
      ]
    ])

  unfoldable pub get_storage_usage : String → E (ℕ × ℕ)
  get_storage_usage mountpoint = do
    a ← ask H (statfs mountpoint)
    pure (elim a.fault [
      | none ↦ ok (storage_of a.space)
      | some f ↦ err ("health: statfs " <> mountpoint <> ": " <> f.message)
    ])

  degrees : ℤ → String
  degrees n = H.itoa (thousands n) <> "." <> H.itoa_03 (rest n)

  unfoldable pub warn : Monitor → ℤ → M (Unit {0})
  unfolding degrees
  warn m temp t = elim m.notifier [
    | none ↦ (tt, t)
    | some n ↦
        let message =
          "CPU temperature is "
          <> degrees temp
          <> " C (warning threshold: "
          <> degrees m.cfg.temp_warning_mc
          <> " C)" in
        (tt, (n.send "Temperature Warning" message event_warning t).1)
  ]

  unfoldable pub check_temperature : Monitor → M (Unit {0})
  unfolding warn
  check_temperature m = do
    r ← get_cpu_temp
    elim r [
      | err _ ↦ pure tt
      | ok temp ↦ if leb_ℤ m.cfg.temp_warning_mc temp then warn m temp else pure tt
    ]

  -- NotifyWatchdog
  unfoldable pub notify_watchdog : M (Unit {0})
  notify_watchdog = Sdnotify.watchdog H

  -- Start, watched for `fuel` ticks: whether it has returned.
  unfoldable pub start : ℕ → Monitor → M Bool
  start zero m = pure false
  start (suc fuel) m = do
    a ← ask H (wait m.interval)
    elim a.cancelled [ true ↦ pure true | false ↦ do checked ← check_temperature m; start fuel m ]
