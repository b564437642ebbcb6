-- ===== src/Daemon/Termination.antt =====
-- When Run returns.
use teslausb_neo.Base.{
  ℕ, zero, suc, String, ◌≡◌, ◌≢◌, inl, inr, refl, true, false, ◌∷◌, length, leb, ◌+◌, ◌≤◌, arith,
  Bool-cases,
}
use teslausb_neo.Host.{poll_context, History, Host}
use teslausb_neo.Config.Types.{Config}
use teslausb_neo.Fswatch.{}
use teslausb_neo.Growth.Drive.{run_fsck-Adds}
use teslausb_neo.Growth.Network.{Speaks}
use teslausb_neo.Growth.Archiving.{run_archive-Adds}
use teslausb_neo.Growth.Media.{run_media_sync-Adds}
use teslausb_neo.Growth.Loops.{build_notifier-Speaks, wait_for_wifi-Adds, wait_for_idle-Adds}
use teslausb_neo.Growth.Cycle.{
  boot-Adds, reactivate_gadget-Adds, create_snapshot-Adds, cleanup_snapshot-Adds,
}
use teslausb_neo.Daemon.Machine.{
  State, booting, gadget_up, waiting_for_wifi, pre_archive, snapshot, fsck, reconnect, archiving,
  media_sync, cleanup, StateMachine, cam_partition,
}
use teslausb_neo.Daemon.Wiring.{initial}
use teslausb_neo.Daemon.Boot.{boot, reactivate_gadget, create_snapshot, cleanup_snapshot}
use teslausb_neo.Daemon.Archiving.{run_archive}
use teslausb_neo.Daemon.Media.{run_media_sync}
use teslausb_neo.Daemon.Run.{
  Outcome, goes_on, exited, crashed, still_waiting, in_state, round, rounds,
}
use teslausb_neo.Daemon.Invariant.{Inv, round-Inv, initial-Inv}
use teslausb_neo.Daemon.Shutdown.{DoneFrom, wait_for_wifi-returns}
use teslausb_neo.Daemon.Waiting.{wait_for_idle-ends}

module _ (H : Host) (v : String) (fuel : ℕ) where
  in_state-notifier :
      (s : State) (m : StateMachine) (t : History)
      → (in_state H v fuel s m t).0.0.notifier ≡ m.notifier
  unfolding in_state boot reactivate_gadget create_snapshot cleanup_snapshot run_archive
      run_media_sync
  in_state-notifier booting m t = ground arith
  in_state-notifier gadget_up m t = ground arith
  in_state-notifier waiting_for_wifi m t = ground arith
  in_state-notifier pre_archive m t = ground arith
  in_state-notifier snapshot m t = ground arith
  in_state-notifier fsck m t = ground arith
  in_state-notifier reconnect m t = ground arith
  in_state-notifier archiving m t = ground arith
  in_state-notifier media_sync m t = ground arith
  in_state-notifier cleanup m t = ground arith

  in_state-length :
      (s : State) (m : StateMachine) (t : History)
      → Speaks m.notifier
      → length t ≤ length (in_state H v fuel s m t).1
  unfolding in_state
  in_state-length booting m t k = ground (arith, (boot-Adds H m).less t)
  in_state-length gadget_up m t k = ground arith
  in_state-length waiting_for_wifi m t k =
      ground (arith, (wait_for_wifi-Adds H fuel m.cfg.wifi.home_ssid).less t)
  in_state-length pre_archive m t k = ground (arith, (wait_for_idle-Adds H fuel m.watcher).less t)
  in_state-length snapshot m t k = ground (arith, (create_snapshot-Adds H m).less t)
  in_state-length fsck m t k = ground (arith, (run_fsck-Adds H cam_partition).less t)
  in_state-length reconnect m t k = ground (arith, (reactivate_gadget-Adds H m).less t)
  in_state-length archiving m t k = ground (arith, (run_archive-Adds H v m k).less t)
  in_state-length media_sync m t k = ground (arith, (run_media_sync-Adds H m).less t)
  in_state-length cleanup m t k = ground (arith, (cleanup_snapshot-Adds H m).less t)

module _ (H : Host) (n : ℕ) (done : DoneFrom H n) where
  in_state-ends :
      (v : String) (fuel : ℕ) (s : State) (m : StateMachine) (t : History)
      → n ≤ length t + fuel
      → (in_state H v (suc fuel) s m t).0.1 ≢ still_waiting
  unfolding in_state
  in_state-ends v fuel booting m t h = ground arith
  in_state-ends v fuel gadget_up m t h = ground arith
  in_state-ends v fuel waiting_for_wifi m t h =
      ground (arith, wait_for_wifi-returns H n done fuel m.cfg.wifi.home_ssid t h)
  in_state-ends v fuel pre_archive m t h =
      ground (arith, wait_for_idle-ends H n done fuel m.watcher t h)
  in_state-ends v fuel snapshot m t h = ground arith
  in_state-ends v fuel fsck m t h = ground arith
  in_state-ends v fuel reconnect m t h = ground arith
  in_state-ends v fuel archiving m t h = ground arith
  in_state-ends v fuel media_sync m t h = ground arith
  in_state-ends v fuel cleanup m t h = ground arith

  -- A round, by whether the context is done when it begins.
  round_done :
      (v : String) (fuel : ℕ) (m : StateMachine) (t : History)
      → leb n (length t) ≡ true
      → (round H v fuel m t).0.1 ≡ exited
  unfolding round
  round_done v fuel m t e = ground (arith, e, done.polls t)

  round_starts :
      (v : String) (fuel : ℕ) (m : StateMachine) (t : History)
      → leb n (length t) ≡ false
      → round H v fuel m t ≡ in_state H v fuel m.state m (poll_context ∷ t)
  unfolding round
  round_starts v fuel m t e = ground (arith, e, done.polls t)

  module _ (v : String) (fuel : ℕ) where
    rounds_on :
        (k : ℕ) (m : StateMachine) (t : History) (o : Outcome)
        → (round H v (suc fuel) m t).0.1 ≡ o
        → o ≢ crashed
        → o ≢ still_waiting
        → (rounds H v (suc fuel) k (round H v (suc fuel) m t).0.0 (round H v (suc fuel) m t).1).0.1
          ≡ exited
        → (rounds H v (suc fuel) (suc k) m t).0.1 ≡ exited
    unfolding rounds
    rounds_on k m t goes_on e c w later = ground (arith, e, later)
    rounds_on k m t exited e c w later = ground (arith, e)
    rounds_on k m t crashed e c w later = absurd (c refl)
    rounds_on k m t still_waiting e c w later = absurd (w refl)

    rounds_last :
        (k : ℕ) (m : StateMachine) (t : History)
        → leb n (length t) ≡ true
        → (rounds H v (suc fuel) (suc k) m t).0.1 ≡ exited
    unfolding rounds
    rounds_last k m t e = ground (arith, round_done v (suc fuel) m t e)

    rounds_from-exited :
        (k : ℕ) (m : StateMachine) (t : History)
        → Inv m
        → Speaks m.notifier
        → n ≤ length t + fuel
        → n ≤ length t + k
        → (rounds H v (suc fuel) (suc k) m t).0.1 ≡ exited
    rounds_from-exited zero m t i speaks f h = rounds_last zero m t (ground arith)
    rounds_from-exited (suc k) m t i speaks f h = elim (Bool-cases (leb n (length t))) [
      | inl e ↦ rounds_last (suc k) m t e
      | inr e ↦
          let u = poll_context ∷ t in
          let r = in_state H v (suc fuel) m.state m u in
          let kept = round-Inv H v (suc fuel) m t i in
          let same : round H v (suc fuel) m t ≡ r = round_starts v (suc fuel) m t e in
          let grown : suc (length t) ≤ length r.1 =
            in_state-length H v (suc fuel) m.state m u speaks in
          rounds_on (suc k) m t _ refl kept.1
            (rw same (in_state-ends v fuel m.state m u (omega (arith, f))))
            (rounds_from-exited k (round H v (suc fuel) m t).0.0 (round H v (suc fuel) m t).1 kept.0
              (rw (same, in_state-notifier H v (suc fuel) m.state m u) speaks)
              (rw same (omega (arith, f, grown))) (rw same (omega (arith, h, grown))))
    ]

    -- Run from the first state machine of `main`: once the context is done it returns, within as
    -- many rounds as calls are missing until then and one more, when its waits are watched for as
    -- many ticks.
    pub rounds-exited :
        (payload : String → String → String → String) (c : Config) (k : ℕ) (t : History)
        → n ≤ length t + fuel
        → n ≤ length t + k
        → (rounds H v (suc fuel) (suc k) (initial H payload c) t).0.1 ≡ exited
    unfolding initial
    rounds-exited payload c k t f h =
        rounds_from-exited k (initial H payload c) t (initial-Inv H v fuel payload c)
          (build_notifier-Speaks H payload c.notify) f h
