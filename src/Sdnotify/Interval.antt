-- ===== src/Sdnotify/Interval.antt =====
-- How often the daemon answers the watchdog.
use teslausb_neo.Base.{◌≡◌, ◌⊎◌, some}
use teslausb_neo.Host.{Host}

module _ (H : Host) where
  -- The watchdog is meant for this process: WATCHDOG_PID is empty or is its number.
  abbrev pub Ours : Type 0
  Ours = (H.getenv "WATCHDOG_PID" ≡ "") ⊎ (H.parse_int (H.getenv "WATCHDOG_PID") ≡ some H.getpid)
