-- ===== src/Daemon/Invariant.antt =====
-- What holds of the state machine between two rounds of `Run`, and the diagram of its states.
use teslausb_neo.Base.{
  ℕ, zero, suc, String, ◌≡◌, ◌≢◌, refl, Bool, true, false, none, ◌⊎◌, arith, ◌∷◌,
}
use teslausb_neo.Host.{poll_context, History, Host}
use teslausb_neo.Host.Fallible.{ok}
use teslausb_neo.Config.Types.{Config}
use teslausb_neo.Daemon.Machine.{
  State, booting, gadget_up, waiting_for_wifi, pre_archive, snapshot, fsck, reconnect, archiving,
  media_sync, cleanup, StateMachine, returned, panicked,
}
use teslausb_neo.Daemon.Wiring.{initial}
use teslausb_neo.Daemon.Boot.{
  boot, deactivate_gadget, reactivate_gadget, create_snapshot, cleanup_snapshot,
}
use teslausb_neo.Daemon.Archiving.{run_archive}
use teslausb_neo.Daemon.Media.{run_media_sync}
use teslausb_neo.Daemon.Run.{goes_on, crashed, in_state, round, rounds}

-- The states between taking a snapshot and cleaning up, and those that may still have one.
abbrev pub holds_snapshot : State → Bool
holds_snapshot fsck = true
holds_snapshot reconnect = true
holds_snapshot archiving = true
holds_snapshot media_sync = true
holds_snapshot _ = false

abbrev pub may_hold_snapshot : State → Bool
may_hold_snapshot cleanup = true
may_hold_snapshot s = holds_snapshot s

pub record Inv (m : StateMachine) : Type 0 where
  pub gadget_made : (m.state ≡ booting) ⊎ (m.gad ≢ none)
  pub snapshot_held : (holds_snapshot m.state ≡ false) ⊎ (m.snap ≢ none)
  pub snapshot_freed : (may_hold_snapshot m.state ≡ true) ⊎ (m.snap ≡ none)

-- The edges of the diagram.
pub data Next : State → State → Type 0 where
  boot_again : Next booting booting
  booted : Next booting gadget_up
  wait : Next gadget_up waiting_for_wifi
  wait_again : Next waiting_for_wifi waiting_for_wifi
  home : Next waiting_for_wifi pre_archive
  settle : Next pre_archive snapshot
  snapped : Next snapshot fsck
  not_snapped : Next snapshot cleanup
  checked : Next fsck reconnect
  reconnected : Next reconnect archiving
  archived : Next archiving media_sync
  synced : Next media_sync cleanup
  cleaned : Next cleanup waiting_for_wifi

module _ (H : Host) where
  boot_keeps :
      (m : StateMachine) (t : History)
      → ((boot H m t).0.0.gad ≢ none)
        × ((boot H m t).0.0.snap ≡ m.snap)
        × ((boot H m t).0.0.state ≡ m.state)
  unfolding boot
  boot_keeps m t = ground arith

  create_snapshot_keeps :
      (m : StateMachine) (t : History)
      → m.gad ≢ none
      → let r = (create_snapshot H m t).0 in
        (r.0.gad ≢ none)
        × (r.0.state ≡ m.state)
        × (r.1 ≢ panicked)
        × (r.1 ≡ returned (ok tt) → r.0.snap ≢ none)
        × (r.1 ≢ returned (ok tt) → r.0.snap ≡ m.snap)
  unfolding create_snapshot
  create_snapshot_keeps m t h = ground arith

  reactivate_keeps :
      (m : StateMachine) (t : History)
      → m.gad ≢ none
      → let m' = (reactivate_gadget H m t).0.0 in
        (m'.gad ≢ none) × (m'.snap ≡ m.snap) × (m'.state ≡ m.state)
  unfolding reactivate_gadget
  reactivate_keeps m t h = ground arith

  run_archive_keeps :
      (v : String) (m : StateMachine) (t : History)
      → let m' = (run_archive H v m t).0.0 in
        (m'.gad ≡ m.gad) × (m.snap ≢ none → m'.snap ≢ none) × (m'.state ≡ m.state)
  unfolding run_archive
  run_archive_keeps v m t = ground arith

  run_media_sync_keeps :
      (m : StateMachine) (t : History)
      → m.gad ≢ none
      → let r = (run_media_sync H m t).0 in
        (r.0.gad ≢ none) × (r.0.snap ≡ m.snap) × (r.0.state ≡ m.state) × (r.1 ≢ panicked)
  unfolding run_media_sync
  run_media_sync_keeps m t h = ground arith

  cleanup_keeps :
      (m : StateMachine) (t : History)
      → let m' = (cleanup_snapshot H m t).0 in
        (m'.gad ≡ m.gad) × (m'.snap ≡ none) × (m'.state ≡ m.state)
  unfolding cleanup_snapshot
  cleanup_keeps m t = ground arith

  deactivate_keeps :
      (m : StateMachine) (t : History)
      → let m' = (deactivate_gadget H m t).0 in
        (m.gad ≢ none → m'.gad ≢ none) × (m'.snap ≡ m.snap) × (m'.state ≡ m.state)
  unfolding deactivate_gadget
  deactivate_keeps m t = ground arith

  module _ (v : String) (fuel : ℕ) where
    in_state-Inv :
        (s : State) (m : StateMachine) (t : History)
        → m.state ≡ s
        → Inv m
        → Inv (in_state H v fuel s m t).0.0 × ((in_state H v fuel s m t).0.1 ≢ crashed)
    unfolding in_state
    in_state-Inv booting m t e i = ground (arith, boot_keeps m t)
    in_state-Inv gadget_up m t e i = ground arith
    in_state-Inv waiting_for_wifi m t e i = ground arith
    in_state-Inv pre_archive m t e i = ground arith
    in_state-Inv snapshot m t e i = ground (arith, create_snapshot_keeps m t)
    in_state-Inv fsck m t e i = ground arith
    in_state-Inv reconnect m t e i = ground (arith, reactivate_keeps m t)
    in_state-Inv archiving m t e i = ground (arith, run_archive_keeps v m t)
    in_state-Inv media_sync m t e i = ground (arith, run_media_sync_keeps m t)
    in_state-Inv cleanup m t e i = ground (arith, cleanup_keeps m t)

    -- One round keeps the invariant, and no round dereferences a nil pointer.
    pub round-Inv :
        (m : StateMachine) (t : History)
        → Inv m
        → Inv (round H v fuel m t).0.0 × ((round H v fuel m t).0.1 ≢ crashed)
    unfolding round
    round-Inv m t i = ground (
      arith,
      in_state-Inv m.state m (poll_context ∷ t) refl i,
      deactivate_keeps m (poll_context ∷ t),
    )

    in_state-Next :
        (s : State) (m : StateMachine) (t : History)
        → m.state ≡ s
        → (in_state H v fuel s m t).0.1 ≡ goes_on
        → Next s (in_state H v fuel s m t).0.0.state
    unfolding in_state
    in_state-Next booting m t e g = grind (arith, boot_again, booted, boot_keeps m t)
    in_state-Next gadget_up m t e g = wait
    in_state-Next waiting_for_wifi m t e g = grind (arith, wait_again, home)
    in_state-Next pre_archive m t e g = grind (arith, settle)
    in_state-Next snapshot m t e g = grind (arith, snapped, not_snapped)
    in_state-Next fsck m t e g = checked
    in_state-Next reconnect m t e g = reconnected
    in_state-Next archiving m t e g = archived
    in_state-Next media_sync m t e g = grind (arith, synced)
    in_state-Next cleanup m t e g = cleaned

    -- A round that goes on follows an edge of the diagram.
    pub round-Next :
        (m : StateMachine) (t : History)
        → (round H v fuel m t).0.1 ≡ goes_on
        → Next m.state (round H v fuel m t).0.0.state
    unfolding round
    round-Next m t g = ground (arith, in_state-Next m.state m (poll_context ∷ t) refl)

    rounds_from-Inv :
        (n : ℕ) (m : StateMachine) (t : History)
        → Inv m
        → Inv (rounds H v fuel n m t).0.0 × ((rounds H v fuel n m t).0.1 ≢ crashed)
    unfolding rounds
    rounds_from-Inv zero m t i = ground arith
    rounds_from-Inv (suc n) m t i =
        ground (
          arith,
          round-Inv m t i,
          rounds_from-Inv n (round H v fuel m t).0.0 (round H v fuel m t).1,
        )

    -- The first state machine has the invariant.
    pub initial-Inv :
        (payload : String → String → String → String) (c : Config) → Inv (initial H payload c)
    unfolding initial
    initial-Inv payload c = ground arith

    -- From the first state machine of `main`, however long it runs: a gadget exists in every state
    -- but booting, a snapshot is held from fsck to media_sync and in no state from booting to
    -- snapshot, and no round dereferences a nil pointer.
    pub rounds-Inv :
        (payload : String → String → String → String) (c : Config) (n : ℕ) (t : History)
        → let r = rounds H v fuel n (initial H payload c) t in Inv r.0.0 × (r.0.1 ≢ crashed)
    rounds-Inv payload c n t = rounds_from-Inv n (initial H payload c) t (initial-Inv payload c)
