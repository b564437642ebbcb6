-- ===== src/Daemon/Process.antt =====
-- How the process of `main` ends, and which configuration it runs on.
use teslausb_neo.Base.{
  ℕ, String, ◌≡◌, ◌⊎◌, inl, inr, refl, true, false, none, some, ◌∷◌, arith, ◌∙◌,
}
use teslausb_neo.Host.{now, History, Host}
use teslausb_neo.Config.Types.{Config}
use teslausb_neo.Config.Load.{Decoder, load}
use teslausb_neo.Sys
use teslausb_neo.State.Open.{holds_open, open_store-holds_open}
use teslausb_neo.Daemon.Wiring.{initial}
use teslausb_neo.Daemon.Shutdown.{unticked}
use teslausb_neo.Daemon.Startup.{
  End, exits, running, panics, some_panics, panics_at_start, db_path, load_config, set_up,
  tuning_of, Process, goroutines_of, open_and_start,
}

module _ (H : Host) (decode : Decoder) where
  load-holds_open :
      (path : String) (t : History) → holds_open H (load H decode path t).1 ≡ holds_open H t
  unfolding load holds_open
  load-holds_open path t = refl

  load_config-holds_open : (t : History) → holds_open H (load_config H decode t).1 ≡ holds_open H t
  unfolding load_config holds_open load
  load_config-holds_open t = ground arith

apply_all-holds_open :
    (H : Host) (c : Sys.Tuning) (t : History)
    → holds_open H (Sys.apply_all H c t).1 ≡ holds_open H t
unfolding Sys.apply_all Sys.apply_vm_tuning Sys.set_io_scheduler Sys.set_cpu_governor Sys.setup_zram
    Sys.load_zram Sys.swap_on Sys.reset_zram0 holds_open
apply_all-holds_open H c t = ground arith

disable_hdmi-holds_open :
    (H : Host) (t : History) → holds_open H (Sys.disable_hdmi H t).1 ≡ holds_open H t
unfolding Sys.disable_hdmi holds_open
disable_hdmi-holds_open H t = ground arith

module _ (H : Host) (decode : Decoder) (payload : String → String → String → String) where
  -- The history when Open is called.
  abbrev tuned : History → History
  tuned t =
      let r = load_config H decode (now ∷ t) in
      (Sys.disable_hdmi H (Sys.apply_all H (tuning_of r.0) r.1).1).1

  tuned-holds_open : (t : History) → holds_open H (tuned t) ≡ holds_open H t
  unfolding holds_open
  tuned-holds_open t =
      let r = load_config H decode (now ∷ t) in
      ground (
        arith,
        disable_hdmi-holds_open H (Sys.apply_all H (tuning_of r.0) r.1).1,
        apply_all-holds_open H (tuning_of r.0) r.1,
        load_config-holds_open H decode (now ∷ t),
      )

  abbrev pub process : Config → Process
  process c = record {
    machine = initial H payload c;
    goroutines = goroutines_of H decode payload c;
  }

  -- Without a database main has no process to run; with one, the machine is the first one of
  -- the configuration.
  open_and_start-cases :
      (c : Config) (t : History)
      → holds_open H t ≡ false
      → let r = open_and_start H decode payload c t in
        (r.0 ≡ none) × (holds_open H r.1 ≡ false) ⊎ (r.0 ≡ some (process c))
  unfolding open_and_start
  open_and_start-cases c t h = ground (arith, open_store-holds_open H db_path t h)

  pub set_up-cases :
      (t : History)
      → holds_open H t ≡ false
      → let r = set_up H decode payload t in
        (r.0 ≡ none) × (holds_open H r.1 ≡ false) ⊎ ((c : Config) × (r.0 ≡ some (process c)))
  unfolding set_up
  set_up-cases t h =
      let c = (load_config H decode (now ∷ t)).0 in
      elim (open_and_start-cases c (tuned t) (tuned-holds_open t ∙ h)) [
        | inl missing ↦ inl missing
        | inr e ↦ inr (c, e)
      ]

  -- Whether a goroutine of main panics, from the configuration.
  pub some_panics-unticked :
      (c : Config) → some_panics (goroutines_of H decode payload c) ≡ unticked c
  unfolding some_panics goroutines_of panics_at_start
  some_panics-unticked c = ground arith

  module _ (version : String) (fuel delay : ℕ) where
    -- How a process on this configuration stands.
    abbrev Stands : Config → End → History → Type 0
    Stands c r t =
        (r ≡ running)
        ⊎ ((r ≡ exits 0) ⊎ (r ≡ exits 1)) × (holds_open H t ≡ false)
        ⊎ (unticked c ≡ true) × (r ≡ panics)
