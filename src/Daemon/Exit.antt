-- ===== src/Daemon/Exit.antt =====
-- When the process ends.
use teslausb_neo.Base.{
  ℕ, suc, Bool, String, ◌≡◌, ◌⊎◌, inl, inr, refl, true, false, none, some, ◌∷◌, length,
  if◌then◌else◌, ◌==◌, ◌+◌, ◌≤◌, arith,
}
use teslausb_neo.Base.Int.{ℤ, pos}
use teslausb_neo.Host.{now, History, Host}
use teslausb_neo.Host.Fallible.{◌>>◌, return, attempt, wrap}
use teslausb_neo.Config.Types.{Config}
use teslausb_neo.Config.Load.{Decoder, load}
use teslausb_neo.Sys
use teslausb_neo.State.Open.{open_store, holds_open}
use teslausb_neo.Wifi.Provision.{ensure_home_connection, write_profile}
use teslausb_neo.Growth.Adds.{Adds, bind-Adds, wrap-Adds}
use teslausb_neo.Daemon.Invariant.{rounds-Inv}
use teslausb_neo.Daemon.Startup.{
  End, exits, panics, load_config, open_and_start, set_up, supervise, main, db_path, tuning_of,
}
use teslausb_neo.Daemon.Process.{process, set_up-cases, some_panics-unticked}
use teslausb_neo.Daemon.Shutdown.{DoneFrom, unticked}
use teslausb_neo.Daemon.Termination.{rounds-exited}

module _ (H : Host) where
  load_config-Adds : (decode : Decoder) → Adds (load_config H decode)
  unfolding load_config load
  load_config-Adds decode = record { less = λ t. ground arith }

  setup_zram-Adds : (mb : ℤ) → Adds (Sys.setup_zram H mb)
  unfolding Sys.setup_zram Sys.load_zram Sys.swap_on Sys.reset_zram0
  setup_zram-Adds mb = record { less = λ t. ground arith }

  apply_vm_tuning-Adds : (c : Sys.Tuning) → Adds (Sys.apply_vm_tuning H c)
  unfolding Sys.apply_vm_tuning
  apply_vm_tuning-Adds c = record { less = λ t. ground arith }

  scheduler-Adds : Adds (attempt (Sys.set_io_scheduler H "mmcblk0" "bfq"))
  unfolding Sys.set_io_scheduler
  scheduler-Adds = record { less = λ t. ground arith }

  governor-Adds :
      (g : String)
      → Adds (if g == "" then return tt else wrap "cpu governor" (Sys.set_cpu_governor H g))
  unfolding Sys.set_cpu_governor
  governor-Adds g = record { less = λ t. ground arith }

  zram-Adds : Adds (do attempt (Sys.setup_zram H (pos 256)); return tt)
  zram-Adds = record { less = (setup_zram-Adds (pos 256)).less }

  apply_all-Adds : (c : Sys.Tuning) → Adds (Sys.apply_all H c)
  unfolding Sys.apply_all
  apply_all-Adds c = bind-Adds (wrap-Adds "vm tuning" (apply_vm_tuning-Adds c)) (λ _.
      bind-Adds scheduler-Adds (λ _. bind-Adds (governor-Adds c.cpu_governor) (λ _. zram-Adds)))

  disable_hdmi-Adds : Adds (Sys.disable_hdmi H)
  unfolding Sys.disable_hdmi
  disable_hdmi-Adds = record { less = λ t. ground arith }

  open_store-Adds : (path : String) → Adds (open_store H path)
  unfolding open_store
  open_store-Adds path = record { less = λ t. ground arith }

  ensure-Adds :
      (ssid password : String) (hidden : Bool)
      → Adds (ensure_home_connection H ssid password hidden)
  unfolding ensure_home_connection write_profile
  ensure-Adds ssid password hidden = record { less = λ t. ground arith }

  module _ (decode : Decoder) (payload : String → String → String → String) where
    open_and_start-Adds : (c : Config) → Adds (open_and_start H decode payload c)
    unfolding open_and_start
    open_and_start-Adds c = record {
      less = λ t.
          let u = (open_store H db_path t).1 in
          ground (
            arith,
            (open_store-Adds db_path).less t,
            (ensure-Adds c.wifi.home_ssid c.wifi.home_password c.wifi.hidden).less u,
          );
    }

    set_up-Adds : Adds (set_up H decode payload)
    unfolding set_up
    set_up-Adds = record {
      less = λ t.
          let c = load_config H decode (now ∷ t) in
          let u = (Sys.apply_all H (tuning_of c.0) c.1).1 in
          omega (
            arith,
            (load_config-Adds decode).less (now ∷ t),
            (apply_all-Adds (tuning_of c.0)).less c.1,
            disable_hdmi-Adds.less u,
            (open_and_start-Adds c.0).less (Sys.disable_hdmi H u).1,
          );
    }

    module _ (n : ℕ) (done : DoneFrom H n) (v : String) (fuel delay : ℕ) where
      -- How a process on this configuration has ended.
      abbrev Ended : Config → End → Type 0
      Ended c r = (r ≡ exits 0) ⊎ (unticked c ≡ true) × (r ≡ panics)

      -- The state machine of a process that was set up, and the end of main behind it.
      supervise-exits :
          (c : Config) (k : ℕ) (t : History)
          → n ≤ length t + fuel
          → n ≤ length t + k
          → Ended c
              (supervise H decode payload v
                (suc fuel)
                delay
                (suc k)
                (some (process H decode payload c))
                t).0
      unfolding supervise
      supervise-exits c k t f h = ground (
        arith,
        some_panics-unticked H decode payload c,
        rounds-Inv H v (suc fuel) payload c delay t,
        rounds-exited H n done v fuel payload c k t f h,
      )

      -- From a history without an open database, where the context is done from the n-th call on:
      -- within as many rounds as calls are missing until then and one more, when its waits are
      -- watched for as many ticks, main ends: with the exit code 1 where the database cannot be
      -- opened, and otherwise with 0, or by the panic of a goroutine, and then the configuration
      -- enables the WiFi watchdog with an SSID and an interval whose nanoseconds, an int64, are not
      -- positive.
      pub main-exits :
          (k : ℕ) (t : History)
          → holds_open H t ≡ false
          → n ≤ length t + fuel
          → n ≤ length t + k
          → let p = (set_up H decode payload t).0 in
            let r = (main H decode payload v (suc fuel) delay (suc k) t).0 in
            (p ≡ none) × (r ≡ exits 1)
            ⊎ ((c : Config) × (p ≡ some (process H decode payload c))
                × ((r ≡ exits 0) ⊎ (unticked c ≡ true) × (r ≡ panics)))
      unfolding main supervise
      main-exits k t o f h = elim (set_up-cases H decode payload t o) [
        | inl (e, _) ↦ inl (e, rw (e, main) refl)
        | inr (c, e) ↦ inr (
          c,
          e,
          rw (e, main)
              (supervise-exits c k (set_up H decode payload t).1
                (omega (arith, f, set_up-Adds.less t)) (omega (arith, h, set_up-Adds.less t))),
        )
      ]
