-- ===== src/Snapshot/Laws.antt =====
-- What Release and a failed Create leave behind.
use teslausb_neo.Base.{String, ◌<>◌, ◌≡◌, refl, List, [], ◌∷◌, ◌++◌, ◌==◌, arith, if◌then◌else◌}
use teslausb_neo.Base.Int.{ℤ}
use teslausb_neo.Host.{Call, run, History, Host}
use teslausb_neo.Host.Fallible.{Result, ok, err}
use teslausb_neo.Snapshot.Release.{Snapshot, release, release_mount, cleanup}
use teslausb_neo.Snapshot.Create.{create_with_cow_size, hot_add, fresh, build, built_on}

module _ (H : Host) where
  -- The calls that take a snapshot apart, the last one first: the zram device, if there is one,
  -- behind the origin, behind the snapshot.
  abbrev pub teardown : Snapshot → List Call
  teardown s =
      (if s.zram_device == ""
        then []
        else run "sh" (
            "-c"
            ∷ ("echo "
                <> H.trim_prefix s.zram_device "/dev/zram"
                <> " > /sys/class/zram-control/hot_remove")
            ∷ [])
          ∷ run "zramctl" ("--reset" ∷ s.zram_device ∷ [])
          ∷ [])
      ++ (run "dmsetup" ("remove" ∷ "--retry" ∷ (s.snapshot_name <> "-origin") ∷ [])
          ∷ run "dmsetup" ("remove" ∷ "--retry" ∷ s.snapshot_name ∷ [])
          ∷ [])

  -- Release makes every call that takes the snapshot apart, whatever fails on the way, the
  -- snapshot before its origin before the zram device, and forgets mount and zram device.
  pub release_calls :
      (s : Snapshot) (t : History)
      → let r = release H s t in
        (r.1 ≡ teardown s ++ (release_mount H s.mountpoint t).1)
        × (r.0.0 ≡ record s { mountpoint = ""; zram_device = "" })
  unfolding release
  release_calls s t = ground arith

  -- The zram device of a snapshot that Create has begun: the one that hot_add gave, if it did.
  abbrev pub allocated : Result String → String
  allocated (ok id) = "/dev/zram" <> id
  allocated (err _) = ""

  -- The snapshot that Create works on, given the answer of hot_add.
  abbrev pub begun : String → ℤ → Result String → Snapshot
  begun origin mb r = record (fresh H origin mb) { zram_device = allocated r }

  -- The history when the steps of Create are over, given the answer of hot_add and the history then.
  abbrev pub after_steps : String → ℤ → Result String → History → History
  after_steps origin mb (ok id) t = (build H id (begun origin mb (ok id)) t).1
  after_steps origin mb (err _) t = t

  built_failed :
      (origin : String) (mb : ℤ) (r : Result String) (t : History) (e : String)
      → (built_on H (fresh H origin mb) r t).0 ≡ err e
      → (built_on H (fresh H origin mb) r t).1
        ≡ teardown (begun origin mb r) ++ after_steps origin mb r t
  unfolding built_on release fresh
  built_failed origin mb (err m) t e h = refl
  built_failed origin mb (ok id) t e h = ground arith

  -- A Create that fails at any step returns no snapshot, and the last calls it made take apart
  -- all that a snapshot consists of, with the zram device that hot_add gave, if it gave one.
  pub create_failed :
      (origin : String) (mb : ℤ) (t : History) (e : String)
      → (create_with_cow_size H origin mb t).0 ≡ err e
      → let (r, t') = hot_add H (cleanup H t).1 in
        (create_with_cow_size H origin mb t).1
        ≡ teardown (begun origin mb r) ++ after_steps origin mb r t'
  unfolding create_with_cow_size
  create_failed origin mb t e h = built_failed origin mb _ _ e h
