-- ===== src/Daemon/Run.antt =====
-- `Run`: one round of its loop, and the loop watched for a number of rounds.
use teslausb_neo.Base.{ℕ, zero, suc, String, Bool, true, false, Option, none, some, if◌then◌else◌}
use teslausb_neo.Base.Int.{ℤ, pos, seconds}
use teslausb_neo.Host.{wait, sleep, poll_context, Host}
use teslausb_neo.Host.Io.{M, pure, ask, ◌>>=◌, ◌>>◌}
use teslausb_neo.Host.Fallible.{Result, ok, err}
use teslausb_neo.Fsutil
use teslausb_neo.Fswatch
use teslausb_neo.Wifi.Manager
use teslausb_neo.Daemon.Machine.{
  State, booting, gadget_up, waiting_for_wifi, pre_archive, snapshot, fsck, reconnect, archiving,
  media_sync, cleanup, StateMachine, Flow, returned, panicked, current_state, transition,
  cam_partition,
}
use teslausb_neo.Daemon.Boot.{
  boot, deactivate_gadget, reactivate_gadget, create_snapshot, cleanup_snapshot,
}
use teslausb_neo.Daemon.Archiving.{run_archive}
use teslausb_neo.Daemon.Media.{run_media_sync}

-- How a round ends: the loop goes on, Run returns ctx.Err(), the process panics, or a wait
-- inside the round lasted longer than it was watched.
pub data Outcome : Type 0 where
  goes_on exited crashed still_waiting : Outcome

module _ (H : Host) where
  unfoldable pub home_now : String → M Bool
  home_now ssid = do
    connected ← Manager.is_connected H
    if connected then Manager.is_home_network H ssid else pure false

  -- waitForWifi for `fuel` ticks of five seconds: `some true` on the home network, `some false`
  -- when the context is done, `none` while waiting.
  unfoldable pub wait_for_wifi : ℕ → String → M (Option Bool)
  unfolding home_now
  wait_for_wifi zero ssid = pure none
  wait_for_wifi (suc fuel) ssid = do
    a ← ask H (wait (pos 5000000000))
    elim a.cancelled [
      | true ↦ pure (some false)
      | false ↦ do
        home ← home_now ssid
        elim home [ true ↦ pure (some true) | false ↦ wait_for_wifi fuel ssid ]
    ]

  -- `select { case <-ctx.Done(): return … case <-time.After(d): }`
  abbrev pause : ℤ → StateMachine → M (StateMachine × Outcome)
  pause d m = do a ← ask H (wait d); pure (m, if a.cancelled then exited else goes_on)

  -- What waitForWifi returned: only the context's error, so Run returns or goes round again.
  unfoldable pub after_wifi : StateMachine → Option Bool → M (StateMachine × Outcome)
  after_wifi m none = pure (m, still_waiting)
  after_wifi m (some true) = pure (transition pre_archive m, goes_on)
  after_wifi m (some false) = do
    a ← ask H poll_context
    elim a.cancelled [
      | true ↦ pure (m, exited)
      | false ↦ do ask H (sleep (pos 5000000000)); pure (m, goes_on)
    ]

  unfoldable pub after_idle : StateMachine → Option (Result (Unit {0})) → M (StateMachine × Outcome)
  after_idle m none = pure (m, still_waiting)
  after_idle m (some _) = do
    a ← ask H (wait (seconds m.cfg.archive.delay_seconds))
    pure (if a.cancelled then (m, exited) else (transition snapshot m, goes_on))

  unfoldable pub after_boot : StateMachine → Result (Unit {0}) → M (StateMachine × Outcome)
  after_boot m (ok _) = pure (transition gadget_up m, goes_on)
  after_boot m (err _) = do ask H (sleep (pos 2000000000)); pure (m, goes_on)

  unfoldable pub after_snapshot : StateMachine → Flow → StateMachine × Outcome
  after_snapshot m panicked = (m, crashed)
  after_snapshot m (returned (ok _)) = (transition fsck m, goes_on)
  after_snapshot m (returned (err _)) = (transition cleanup m, goes_on)

  unfoldable pub after_media : StateMachine → Flow → StateMachine × Outcome
  after_media m panicked = (m, crashed)
  after_media m (returned _) = (transition cleanup m, goes_on)

  module _ (version : String) (fuel : ℕ) where
    -- The `switch` on the state.
    unfoldable pub in_state : State → StateMachine → M (StateMachine × Outcome)
    unfolding after_boot after_wifi after_idle after_snapshot after_media transition
    in_state booting m = do r ← boot H m; after_boot r.0 r.1
    in_state gadget_up m = pure (transition waiting_for_wifi m, goes_on)
    in_state waiting_for_wifi m = do r ← wait_for_wifi fuel m.cfg.wifi.home_ssid; after_wifi m r
    in_state pre_archive m = do r ← Fswatch.wait_for_idle H fuel m.watcher; after_idle m r
    in_state snapshot m = do r ← create_snapshot H m; pure (after_snapshot r.0 r.1)
    in_state fsck m = do Fsutil.run_fsck H cam_partition; pure (transition reconnect m, goes_on)
    in_state reconnect m = do r ← reactivate_gadget H m; pure (transition archiving r.0, goes_on)
    in_state archiving m = do r ← run_archive H version m; pure (transition media_sync r.0, goes_on)
    in_state media_sync m = do r ← run_media_sync H m; pure (after_media r.0 r.1)
    in_state cleanup m = do
      m' ← cleanup_snapshot H m
      pause (pos 60000000000) (transition waiting_for_wifi m')

    -- One round: the context is polled first, and the gadget taken down if it is done.
    unfoldable pub round : StateMachine → M (StateMachine × Outcome)
    unfolding in_state
    round m = do
      a ← ask H poll_context
      elim a.cancelled [
        | true ↦ do m' ← deactivate_gadget H m; pure (m', exited)
        | false ↦ in_state (current_state m) m
      ]

    -- The loop for at most `n` rounds; it stops with the first outcome that is not `goes_on`.
    unfoldable pub rounds : ℕ → StateMachine → M (StateMachine × Outcome)
    rounds zero m = pure (m, goes_on)
    rounds (suc n) m = do
      r ← round m
      elim r.1 [
        | goes_on ↦ rounds n r.0
        | exited ↦ pure (r.0, exited)
        | crashed ↦ pure (r.0, crashed)
        | still_waiting ↦ pure (r.0, still_waiting)
      ]
