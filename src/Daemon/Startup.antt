-- ===== src/Daemon/Startup.antt =====
-- `main`: the configuration, what is set up before the state machine runs, and how the process
-- ends.
use teslausb_neo.Base.{
  ℕ, zero, suc, String, Bool, true, false, Option, none, some, List, [], ◌∷◌, ◌++◌, if◌then◌else◌,
  ◌&&◌, ◌==◌, leb,
}
use teslausb_neo.Base.Int.{ℤ, pos, ltb_ℤ, seconds}
use teslausb_neo.Host.{now, receive_signal, cancel_context, Host}
use teslausb_neo.Host.Io.{M, pure, ask, ◌>>=◌, ◌>>◌}
use teslausb_neo.Host.Fallible.{Result, ok, err}
use teslausb_neo.Config.Types.{Config}
use teslausb_neo.Config.Defaults.{default_config}
use teslausb_neo.Config.Load.{Decoder, load}
use teslausb_neo.Sys
use teslausb_neo.State.Open.{open_store, close}
use teslausb_neo.Wifi.Provision.{ensure_home_connection}
use teslausb_neo.Health.{Monitor, new_monitor}
use teslausb_neo.Sdnotify.{watchdog_interval, answer_watchdog}
use teslausb_neo.Wifi.Watchdog.{
  Fate, returned, watching, run_watchdog_loop, manager, systemd_reboot,
}
use teslausb_neo.Health
use teslausb_neo.Web.{WebConfig}
use teslausb_neo.Daemon.Machine.{StateMachine, snapshot_mountpoint}
use teslausb_neo.Daemon.Wiring.{initial, build_notifier}
use teslausb_neo.Daemon.Run.{Outcome, goes_on, exited, crashed, still_waiting, rounds}

abbrev pub config_path : String
config_path = "/data/teslausb.toml"

abbrev pub config_fallback : String
config_fallback = "/etc/teslausb.toml"

abbrev pub db_path : String
db_path = "/data/teslausb.db"

-- The goroutines of main, with what they are started on.
pub data Goroutine : Type 0 where
  signals : Goroutine
  wifi_watchdog : String → ℤ → ℤ → Goroutine
  health : Monitor → Goroutine
  pings : ℤ → Goroutine
  web_server : WebConfig → Goroutine

pub record Process : Type 0 where
  pub machine : StateMachine
  pub goroutines : List Goroutine

-- How main ends, if it has ended: with an exit code, or by a panic.
pub data End : Type 0 where
  exits : ℕ → End
  panics : End
  running : End

abbrev pub tuning_of : Config → Sys.Tuning
tuning_of c = record {
  dirty_ratio = c.tuning.dirty_ratio;
  dirty_background_bytes = c.tuning.dirty_background_bytes;
  dirty_writeback_centisecs = c.tuning.dirty_writeback_centisecs;
  cpu_governor = c.tuning.cpu_governor;
  cpu_governor_archiving = "";
}

-- The goroutine that waits for a signal, looked for `fuel` times, and then cancels the context.
unfoldable pub await_signal : Host → ℕ → M Bool
await_signal H zero = pure false
await_signal H (suc fuel) = do
  a ← ask H receive_signal
  elim a.signalled [ true ↦ do ask H cancel_context; pure true | false ↦ await_signal H fuel ]

abbrev unless_over : M Bool → M Fate
unless_over m = do over ← m; pure (if over then returned else watching)

-- A goroutine, of which `fuel` ticks are watched. The web server is never shut down.
unfoldable pub loop_of : Host → ℕ → Goroutine → M Fate
loop_of H fuel signals = unless_over (await_signal H fuel)
loop_of H fuel (wifi_watchdog ssid interval max) =
    run_watchdog_loop H fuel (manager H) ssid interval max (systemd_reboot H)
loop_of H fuel (health m) = unless_over (Health.start H fuel m)
loop_of H fuel (pings interval) = unless_over (answer_watchdog H fuel interval)
loop_of H fuel (web_server c) = pure watching

-- Whether a goroutine panics as soon as it runs: in time.NewTicker of runWatchdogLoop. The other
-- tickers of main have positive intervals.
unfoldable pub panics_at_start : Goroutine → Bool
panics_at_start (wifi_watchdog ssid interval max) =
    if ssid == "" then false else if ltb_ℤ (pos 0) (seconds interval) then false else true
panics_at_start _ = false

unfoldable pub some_panics : List Goroutine → Bool
unfolding panics_at_start
some_panics [] = false
some_panics (g ∷ gs) = if panics_at_start g then true else some_panics gs

module _ (H : Host) (decode : Decoder) where
  or_default : Config × Option String → Config
  or_default (c, none) = c
  or_default (c, some _) = default_config

  or_fallback : Config × Option String → M Config
  unfolding or_default
  or_fallback (c, none) = pure c
  or_fallback (c, some _) = do r ← load H decode config_fallback; pure (or_default r)

  -- The configuration of the first path, that of the second, or the defaults.
  unfoldable pub load_config : M Config
  unfolding or_fallback
  load_config = do r ← load H decode config_path; or_fallback r

  module _ (payload : String → String → String → String) where
    unfoldable pub goroutines_of : Config → List Goroutine
    goroutines_of c =
        signals
          ∷ (if w.enabled
              then wifi_watchdog c.wifi.home_ssid w.interval_seconds w.max_failures ∷ []
              else [])
        ++ (health (new_monitor c.health (some (build_notifier H payload c.notify))) ∷ [])
        ++ (if ltb_ℤ (pos 0) (watchdog_interval H) then pings (watchdog_interval H) ∷ [] else [])
        ++ (web_server (record {
          archive_dir = snapshot_mountpoint;
          auth_user = c.web.username;
          auth_pass = c.web.password;
        })
            ∷ [])
      where
        open c.wifi use {watchdog as w}

    started : Config → Result (Unit {0}) → M (Option Process)
    unfolding goroutines_of
    started c (err _) = pure none
    started c (ok _) = do
      ensure_home_connection H c.wifi.home_ssid c.wifi.home_password c.wifi.hidden
      pure (some (record { machine = initial H payload c; goroutines = goroutines_of c }))

    -- From Open on.
    unfoldable pub open_and_start : Config → M (Option Process)
    unfolding started
    open_and_start c = do opened ← open_store H db_path; started c opened

    -- main up to the state machine; `none` where the database cannot be opened. The warnings of
    -- Validate go to the log alone.
    unfoldable pub set_up : M (Option Process)
    unfolding load_config open_and_start
    set_up = do
      ask H now
      c ← load_config
      Sys.apply_all H (tuning_of c)
      Sys.disable_hdmi H
      open_and_start c

    -- Run returns no error but ctx.Err(), which is context.Canceled: main ends with code 0. The
    -- deferred db.Close() runs then and in a panic, and not in os.Exit(1).
    ended : Outcome → M End
    ended goes_on = pure running
    ended still_waiting = pure running
    ended exited = do close H; pure (exits 0)
    ended crashed = do close H; pure panics

    -- A panic of a goroutine ends the process, unless main has ended before; no deferred call of
    -- main runs then.
    overtaken : Outcome → M End
    unfolding ended
    overtaken goes_on = pure panics
    overtaken still_waiting = pure panics
    overtaken exited = ended exited
    overtaken crashed = ended crashed

    -- A goroutine that panics at its start is first scheduled when the state machine has made
    -- `delay` rounds.
    module _ (version : String) (fuel delay : ℕ) where
      unfoldable pub supervise : ℕ → Option Process → M End
      unfolding ended overtaken some_panics
      supervise n none = pure (exits 1)
      supervise n (some p) =
          if some_panics p.goroutines && leb delay n
          then (do r ← rounds H version fuel delay p.machine; overtaken r.1)
          else (do r ← rounds H version fuel n p.machine; ended r.1)

      -- main, watched for `n` rounds of the state machine.
      unfoldable pub main : ℕ → M End
      unfolding set_up supervise
      main n = do p ← set_up; supervise n p
