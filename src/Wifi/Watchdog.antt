-- ===== src/Wifi/Watchdog.antt =====
-- wifi.go: `watchdogTick` and the loop around it, over any `Connectivity` and any reboot.
pub mod Laws
use teslausb_neo.Base.{
  ℕ, zero, suc, String, Bool, false, Option, none, some, [], ◌∷◌, ◌==◌, if◌then◌else◌,
}
use teslausb_neo.Base.Int.{ℤ, pos, leb_ℤ, ltb_ℤ, ◌+ℤ◌, wrap_int64, seconds}
use teslausb_neo.Host.{run, wait, Host}
use teslausb_neo.Host.Io.{M, pure, ask, ◌>>=◌, ◌>>◌}
use teslausb_neo.Host.Fallible.{ok, err, Done}
use teslausb_neo.Wifi.Manager

pub record Connectivity : Type 0 where
  pub is_connected : M Bool
  pub is_home_network : String → M Bool
  pub is_ssid_visible : String → M Bool
  pub connect_to_home : String → Done

-- How a goroutine stands after the ticks that are watched.
pub data Fate : Type 0 where
  returned watching panicked : Fate

-- `conn.IsConnected() && conn.IsHomeNetwork(homeSSID)`
unfoldable pub at_home : Connectivity → String → M Bool
at_home conn ssid = do
  connected ← conn.is_connected
  if connected then conn.is_home_network ssid else pure false

-- The count after a failed attempt to reconnect, with the reboot from `max` on.
unfoldable pub after_failure : ℤ → ℤ → Done → M ℤ
after_failure failures max reboot =
    if leb_ℤ max failures then (do reboot; pure failures) else pure failures

-- The part of the tick where the network is visible and the Pi is not on it.
reconnect : Connectivity → String → ℤ → ℤ → Done → M ℤ
unfolding after_failure
reconnect conn ssid failures max reboot = do
  r ← conn.connect_to_home ssid
  elim r [ ok _ ↦ pure (pos 0) | err _ ↦ after_failure failures max reboot ]

unfoldable pub not_at_home : Connectivity → String → ℤ → ℤ → Done → M ℤ
unfolding reconnect wrap_int64
not_at_home conn ssid failures max reboot = do
  visible ← conn.is_ssid_visible ssid
  if visible then reconnect conn ssid (wrap_int64 (failures +ℤ pos 1)) max reboot else pure (pos 0)

unfoldable pub watchdog_tick : Connectivity → String → ℤ → ℤ → Done → M ℤ
unfolding at_home not_at_home
watchdog_tick conn ssid failures max reboot = do
  home ← at_home conn ssid
  if home then pure (pos 0) else not_at_home conn ssid failures max reboot

module _ (H : Host) where
  -- systemdReboot
  unfoldable pub systemd_reboot : Done
  systemd_reboot = do
    a ← ask H (run "systemctl" ("reboot" ∷ []))
    pure (elim a.fault [ none ↦ ok tt | some f ↦ err f.message ])

  -- `*Manager` as a Connectivity
  unfoldable pub manager : Connectivity
  manager = record {
    is_connected = Manager.is_connected H;
    is_home_network = Manager.is_home_network H;
    is_ssid_visible = Manager.is_ssid_visible H;
    connect_to_home = Manager.connect_to_home H;
  }

  -- The loop: the count after `fuel` rounds, or `none` once the context is done.
  unfoldable pub watchdog_rounds : ℕ → Connectivity → String → ℤ → ℤ → ℤ → Done → M (Option ℤ)
  watchdog_rounds zero conn ssid interval failures max reboot = pure (some failures)
  watchdog_rounds (suc fuel) conn ssid interval failures max reboot = do
    a ← ask H (wait (seconds interval))
    if a.cancelled then pure none else (do
      failures' ← watchdog_tick conn ssid failures max reboot
      watchdog_rounds fuel conn ssid interval failures' max reboot)

  -- runWatchdogLoop, watched for `fuel` rounds. time.NewTicker panics unless the interval, a
  -- number of nanoseconds in an int64, is positive.
  unfoldable pub run_watchdog_loop : ℕ → Connectivity → String → ℤ → ℤ → Done → M Fate
  unfolding watchdog_rounds
  run_watchdog_loop fuel conn ssid interval max reboot =
      if ssid == ""
      then pure returned
      else if ltb_ℤ (pos 0) (seconds interval)
      then (do
        r ← watchdog_rounds fuel conn ssid interval (pos 0) max reboot
        pure (elim r [ none ↦ returned | some _ ↦ watching ]))
      else pure panicked
