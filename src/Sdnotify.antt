-- ===== src/Sdnotify.antt =====
-- internal/sdnotify: READY and the answers to the watchdog of systemd, and the goroutine of
-- cmd/teslausb/main.go that sends them. The environment is the host's.
pub mod Interval
use teslausb_neo.Base.{
  ℕ, zero, suc, String, Bool, true, false, Option, none, some, ◌==◌, ◌/◌, ◌&&◌, ◌||◌, not,
  if◌then◌else◌,
}
use teslausb_neo.Base.Int.{ℤ, pos, negsuc, sub_ℕ, leb_ℤ, scale, wrap_int64}
use teslausb_neo.Host.{dial, notify_socket, wait, Host}
use teslausb_neo.Host.Io.{M, pure, ask, ◌>>=◌, ◌>>◌}

-- Go's `n / 2`, which rounds to zero.
abbrev pub half : ℤ → ℤ
half (pos n) = pos (n / 2)
half (negsuc n) = sub_ℕ 0 (suc n / 2)

abbrev pub same : ℤ → ℤ → Bool
same a b = leb_ℤ a b && leb_ℤ b a

module _ (H : Host) where
  unfoldable pub notify : String → M (Unit {0})
  notify state =
      let socket = H.getenv "NOTIFY_SOCKET" in
      if socket == "" then pure tt else (do
        a ← ask H (dial socket)
        elim a.fault [ some _ ↦ pure tt | none ↦ do ask H (notify_socket state); pure tt ])

  unfoldable pub ready : M (Unit {0})
  unfolding notify
  ready = notify "READY=1"

  unfoldable pub watchdog : M (Unit {0})
  unfolding notify
  watchdog = notify "WATCHDOG=1"

  -- WATCHDOG_PID is set, and is not the number of this process.
  unfoldable pub other_process : Bool
  other_process =
      let pid = H.getenv "WATCHDOG_PID" in
      not (pid == "") && elim (H.parse_int pid) [ none ↦ true | some p ↦ not (same p H.getpid) ]

  -- time.Duration(us) * time.Microsecond / 2, for a positive `us`
  unfoldable pub interval_of : ℤ → ℤ
  unfolding wrap_int64
  interval_of us = half (wrap_int64 (scale 1000 us))

  unfoldable pub watchdog_interval : ℤ
  unfolding other_process interval_of
  watchdog_interval =
      let usec = H.getenv "WATCHDOG_USEC" in
      if usec == "" || other_process then pos 0 else elim (H.parse_int usec) [
        | none ↦ pos 0
        | some us ↦ if leb_ℤ us (pos 0) then pos 0 else interval_of us
      ]

  -- The ticks of main's goroutine, of which `fuel` are watched: whether it has returned.
  unfoldable pub ping_ticks : ℕ → ℤ → M Bool
  unfolding watchdog
  ping_ticks zero interval = pure false
  ping_ticks (suc fuel) interval = do
    a ← ask H (wait interval)
    elim a.cancelled [ true ↦ pure true | false ↦ do watchdog; ping_ticks fuel interval ]

  -- The goroutine: started just for a positive interval, with a first ping at once.
  unfoldable pub answer_watchdog : ℕ → ℤ → M Bool
  unfolding ping_ticks watchdog
  answer_watchdog fuel interval = do watchdog; ping_ticks fuel interval
