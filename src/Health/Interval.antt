-- ===== src/Health/Interval.antt =====
-- The ticker of the monitor, and what a monitor that only sees cool readings does.
use teslausb_neo.Base.{ℕ, zero, suc, ◌≡◌, true, false, Option, arith, ◌∷◌, refl}
use teslausb_neo.Base.Int.{ℤ, pos, ltb_ℤ, leb_ℤ}
use teslausb_neo.Host.{wait, History, Host}
use teslausb_neo.Host.Fallible.{Result, ok, err}
use teslausb_neo.Config.Types.{HealthConfig}
use teslausb_neo.Notify.{Notifier}
use teslausb_neo.Health.{Monitor, new_monitor, get_cpu_temp, check_temperature, start}

-- The interval of a monitor is positive for every configuration, whatever its seconds wrap to, so
-- time.NewTicker does not panic.
new_monitor-positive :
    (cfg : HealthConfig) (n : Option Notifier) → ltb_ℤ (pos 0) (new_monitor cfg n).interval ≡ true
unfolding new_monitor
new_monitor-positive cfg n = ground arith

module _ (H : Host) (m other : Monitor) (same_interval : other.interval ≡ m.interval)
    (same_limit : other.cfg.temp_warning_mc ≡ m.cfg.temp_warning_mc)
    (cool : (u : History) (n : ℤ)
      → (get_cpu_temp H u).0 ≡ ok n
      → leb_ℤ m.cfg.temp_warning_mc n ≡ false) where
  check_cool :
      (k : Monitor) (t : History)
      → k.cfg.temp_warning_mc ≡ m.cfg.temp_warning_mc
      → check_temperature H k t ≡ (tt, (get_cpu_temp H t).1)
  unfolding check_temperature
  check_cool k t e = go (get_cpu_temp H t).0 refl
    where
      go :
          (r : Result ℤ)
          → (get_cpu_temp H t).0 ≡ r
          → check_temperature H k t ≡ (tt, (get_cpu_temp H t).1)
      go (ok n) h = ground (arith, h, e, cool t n h)
      go (err msg) h = ground (arith, h)

  -- While every reading stays under the warning threshold, the monitor notifies nobody: with any
  -- other notifier in its place it makes the same calls.
  pub start-cool : (fuel : ℕ) (t : History) → start H fuel m t ≡ start H fuel other t
  unfolding start
  start-cool zero t = refl
  start-cool (suc fuel) t =
      let u = wait m.interval ∷ t in
      ground (
        arith,
        same_interval,
        check_cool m u refl,
        check_cool other u same_limit,
        start-cool fuel (get_cpu_temp H u).1,
      )
