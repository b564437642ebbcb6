-- ===== src/Daemon/Boot.antt =====
-- `boot`, and what takes the gadget down and up again around a snapshot.
use teslausb_neo.Base.{
  ℕ, zero, suc, String, ◌<>◌, true, none, some, List, [], ◌∷◌, length, if◌then◌else◌,
}
use teslausb_neo.Base.Int.{pos}
use teslausb_neo.Host.{stat, Host}
use teslausb_neo.Host.Io.{M, pure, ask, ◌>>=◌, ◌>>◌}
use teslausb_neo.Host.Fallible.{Result, ok, err, wrap}
use teslausb_neo.Fsutil
use teslausb_neo.Gadget
use teslausb_neo.Gadget.{Gadget}
use teslausb_neo.Snapshot
use teslausb_neo.Sdnotify
use teslausb_neo.Daemon.Machine.{
  StateMachine, Flow, returned, panicked, cam_partition, music_partition, lightshow_partition,
  snapshot_mountpoint,
}

-- `if err := …; err != nil { slog.Warn(…) }` around a method of the gadget.
abbrev pub or_before : Gadget → Result Gadget → Gadget
or_before g (ok g') = g'
or_before g (err _) = g

abbrev pub drop_value : {A : Type 0} → Result A → Result (Unit {0})
drop_value (ok _) = ok tt
drop_value (err m) = err m

abbrev pub boot_partitions : List (String × String)
boot_partitions =
    (cam_partition, "TeslaUSB CAM")
    ∷ (music_partition, "TeslaUSB MUSIC")
    ∷ (lightshow_partition, "TeslaUSB LIGHTSHOW")
    ∷ []

module _ (H : Host) where
  unfoldable pub add_if_present : String → String → Gadget → M Gadget
  add_if_present device label g = do
    a ← ask H (stat device)
    elim a.fault [
      | some _ ↦ pure g
      | none ↦ do r ← Gadget.add_lun H device label g; pure (or_before g r)
    ]

  unfoldable pub add_partitions : List (String × String) → Gadget → M Gadget
  unfolding add_if_present
  add_partitions [] g = pure g
  add_partitions ((device, label) ∷ rest) g = do
    g' ← add_if_present device label g
    add_partitions rest g'

  -- `for i := range sm.gad.LUNs`, from index `i` on with `left` rounds left
  unfoldable pub enable_nofua : ℕ → ℕ → Gadget → M Gadget
  enable_nofua zero i g = pure g
  enable_nofua (suc left) i g = do
    r ← Gadget.set_nofua H (pos i) true g
    enable_nofua left (suc i) (or_before g r)

  activated : Gadget → Result Gadget → Gadget × Result (Unit {0})
  activated g r = (or_before g r, drop_value r)

  -- The LUNs, the write caching and the activation of a configured gadget.
  unfoldable pub fill_gadget : Gadget → M (Gadget × Result (Unit {0}))
  unfolding add_partitions enable_nofua activated
  fill_gadget g = do
    g1 ← add_partitions boot_partitions g
    g2 ← enable_nofua (length g1.luns) 0 g1
    r ← wrap "gadget activate" (Gadget.activate H g2)
    pure (activated g2 r)

  unfoldable pub boot_gadget : Gadget → M (Gadget × Result (Unit {0}))
  unfolding fill_gadget
  boot_gadget g = do
    configured ← wrap "gadget configure" (Gadget.configure H g)
    elim configured [ err m ↦ pure (g, err m) | ok _ ↦ fill_gadget g ]

  -- sm.readyOnce.Do(sdnotify.Ready), after a successful boot
  unfoldable pub announce : StateMachine → Result (Unit {0}) → M (StateMachine × Result (Unit {0}))
  announce m (err e) = pure (m, err e)
  announce m (ok _) =
      if m.ready
      then pure (m, ok tt)
      else (do Sdnotify.ready H; pure (record m { ready = true }, ok tt))

  unfoldable pub boot : StateMachine → M (StateMachine × Result (Unit {0}))
  unfolding boot_gadget announce
  boot m = do
    Fsutil.unmount H snapshot_mountpoint
    Snapshot.cleanup H
    r ← boot_gadget (Gadget.new "teslausb")
    announce (record m { gad = some r.0 }) r.1

  unfoldable pub deactivate_gadget : StateMachine → M StateMachine
  deactivate_gadget m = elim m.gad [
    | none ↦ pure m
    | some g ↦ do r ← Gadget.deactivate H g; pure (record m { gad = some (or_before g r) })
  ]

  unfoldable pub reactivate_gadget : StateMachine → M (StateMachine × Result (Unit {0}))
  reactivate_gadget m = elim m.gad [
    | none ↦ pure (m, ok tt)
    | some g ↦ do
      r ← Gadget.activate H g
      pure (record m { gad = some (or_before g r) }, drop_value r)
  ]

  -- The snapshot of the cam partition, with the gadget already down.
  unfoldable pub take_snapshot : StateMachine → Gadget → M (StateMachine × Flow)
  take_snapshot m g = do
    made ← Snapshot.create H cam_partition
    elim made [
      | ok s ↦ pure (record m { gad = some g; snap = some s }, returned (ok tt))
      | err e ↦ do
        r ← Gadget.activate H g
        pure (record m { gad = some (or_before g r) }, returned (err ("create snapshot: " <> e)))
    ]

  unfoldable pub snapshot_of : StateMachine → Gadget → M (StateMachine × Flow)
  unfolding take_snapshot
  snapshot_of m g = do
    r ← wrap "deactivate gadget" (Gadget.deactivate H g)
    elim r [ err e ↦ pure (m, returned (err e)) | ok g' ↦ take_snapshot m g' ]

  unfoldable pub create_snapshot : StateMachine → M (StateMachine × Flow)
  unfolding snapshot_of
  create_snapshot m = elim m.gad [ none ↦ pure (m, panicked) | some g ↦ snapshot_of m g ]

  unfoldable pub cleanup_snapshot : StateMachine → M StateMachine
  cleanup_snapshot m = elim m.snap [
    | none ↦ pure m
    | some s ↦ do Snapshot.release H s; pure (record m { snap = none })
  ]
