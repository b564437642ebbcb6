-- ===== src/Daemon/Shutdown.antt =====
-- When the goroutines of main, the loop of the BLE keeper and waitForWifi return.
use teslausb_neo.Base.{
  ℕ, zero, suc, String, Bool, false, ◌==◌, ◌&&◌, if◌then◌else◌, ◌≡◌, ◌≢◌, ◌⊎◌, true, none, ◌∷◌,
  length, leb, ◌+◌, ◌≤◌, arith,
}
use teslausb_neo.Base.Int.{ℤ, pos, seconds, ltb_ℤ}
use teslausb_neo.Host.{wait, poll_context, receive_signal, History, Host}
use teslausb_neo.Config.Types.{Config}
use teslausb_neo.Health
use teslausb_neo.Health.{warn, get_cpu_temp}
use teslausb_neo.Wifi.Watchdog.{returned, panicked}
use teslausb_neo.Tesla.{Ble, ble_ticks, ble_nudge, ble_loop}
use teslausb_neo.Sdnotify.{watchdog}
use teslausb_neo.Web.{WebConfig}
use teslausb_neo.Daemon.Startup.{Goroutine, wifi_watchdog, web_server, loop_of}
use teslausb_neo.Growth.Loops.{home_now-Adds, ble_nudge-Adds}
use teslausb_neo.Daemon.Run.{wait_for_wifi, home_now}

-- From the n-th call on, and not before: a signal can be received, and the context is done.
pub record DoneFrom (H : Host) (n : ℕ) : Type 0 where
  pub waits : (u : History) (d : ℤ) → (H.answer u (wait d)).cancelled ≡ leb n (length u)
  pub polls : (u : History) → (H.answer u poll_context).cancelled ≡ leb n (length u)
  pub signals : (u : History) → (H.answer u receive_signal).signalled ≡ leb n (length u)

-- The WiFi watchdog is enabled, with an SSID, and its interval in nanoseconds is not positive.
abbrev pub unticked : Config → Bool
unticked c =
    c.wifi.watchdog.enabled
    && (if c.wifi.home_ssid == ""
        then false
        else if ltb_ℤ (pos 0) (seconds c.wifi.watchdog.interval_seconds)
        then false
        else true)

abbrev watchdog_of : Config → Goroutine
watchdog_of c =
    wifi_watchdog c.wifi.home_ssid c.wifi.watchdog.interval_seconds c.wifi.watchdog.max_failures

module _ (H : Host) where
  module _ (n : ℕ) (done : DoneFrom H n) where
    -- Once the context is done, waitForWifi returns: after the n-th call, watched for as many ticks
    -- as calls are missing then and one more.
    pub wait_for_wifi-returns :
        (fuel : ℕ) (ssid : String) (t : History)
        → n ≤ length t + fuel
        → (wait_for_wifi H (suc fuel) ssid t).0 ≢ none
    unfolding wait_for_wifi
    wait_for_wifi-returns zero ssid t h = ground (arith, done.waits t (pos 5000000000))
    wait_for_wifi-returns (suc fuel) ssid t h = ground (
      arith,
      (home_now-Adds H ssid).less (wait (pos 5000000000) ∷ t),
      wait_for_wifi-returns fuel ssid (home_now H ssid (wait (pos 5000000000) ∷ t)).1,
    )

    ble_ticks-returns :
        (fuel : ℕ) (b : Ble) (t : History)
        → n ≤ length t + fuel
        → (ble_ticks H (suc fuel) b t).0 ≡ true
    unfolding ble_ticks
    ble_ticks-returns zero b t h = ground (arith, done.waits t (pos 30000000000))
    ble_ticks-returns (suc fuel) b t h = ground (
      arith,
      (ble_nudge-Adds H b).less (wait (pos 30000000000) ∷ t),
      ble_ticks-returns fuel b (ble_nudge H b (wait (pos 30000000000) ∷ t)).1,
    )

    -- The loop of the BLE keeper: the same bound, from any history on.
    pub ble_loop-returns :
        (fuel : ℕ) (b : Ble) (t : History)
        → n ≤ length t + fuel
        → (ble_loop H (suc fuel) b t).0 ≡ true
    unfolding ble_loop
    ble_loop-returns fuel b t h =
        ble_ticks-returns fuel b (ble_nudge H b t).1 (omega (arith, h, (ble_nudge-Adds H b).less t))

    -- The goroutine returns within the ticks that are watched, or it is the web server, or it is
    -- the WiFi watchdog of a configuration without a positive interval, and panics.
    abbrev pub Returns : Config → ℕ → History → Goroutine → Type 0
    Returns c fuel t g =
        ((loop_of H fuel g t).0 ≡ returned)
        ⊎ ((w : WebConfig) × (g ≡ web_server w))
        ⊎ (unticked c ≡ true) × ((loop_of H fuel g t).0 ≡ panicked)
