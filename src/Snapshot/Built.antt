-- ===== src/Snapshot/Built.antt =====
-- What a successful Create has made.
use teslausb_neo.Base.{ℕ, zero, suc, String, ◌<>◌, ◌≡◌, ◌≢◌, refl, true, none, [], ◌∷◌, arith}
use teslausb_neo.Base.Int.{ℤ, pos, ltb_ℤ, scale, wrap_int64}
use teslausb_neo.Host.{Call, run, History, Host}
use teslausb_neo.Host.Fallible.{Result, ok, err}
use teslausb_neo.Snapshot.Release.{Snapshot, cleanup, echo_into}
use teslausb_neo.Snapshot.Create.{create_with_cow_size, hot_add, fresh, build, built_on}

module _ (H : Host) where
  -- The last `n` calls of a history had no fault.
  abbrev pub NoFaults : ℕ → History → Type 0
  NoFaults zero t = Unit {0}
  NoFaults (suc n) [] = Unit {0}
  NoFaults (suc n) (c ∷ t) = ((H.answer t c).fault ≡ none) × NoFaults n t

  abbrev pub add_device : Call
  add_device = run "cat" ("/sys/class/zram-control/hot_add" ∷ [])

  -- The size is in bytes, of an int64.
  abbrev pub size_device : String → Snapshot → Call
  size_device id s =
      let bytes = H.itoa (wrap_int64 (scale 1048576 s.zram_size_mb)) in
      run "sh" ("-c" ∷ ("echo " <> bytes <> " > " <> ("/sys/block/zram" <> id <> "/disksize")) ∷ [])

  abbrev pub count_sectors : Snapshot → Call
  count_sectors s = run "blockdev" ("--getsz" ∷ s.origin_device ∷ [])

  abbrev pub create_target : String → String → Call
  create_target name table = run "dmsetup" ("create" ∷ name ∷ "--table" ∷ table ∷ [])

  abbrev pub origin_target : String → Snapshot → Call
  origin_target sectors s =
      create_target (s.snapshot_name <> "-origin")
        ("0 " <> sectors <> " snapshot-origin " <> s.origin_device)

  abbrev pub snapshot_target : String → Snapshot → Call
  snapshot_target sectors s = create_target s.snapshot_name (
      "0 " <> sectors <> " snapshot /dev/mapper/" <> s.snapshot_name <> "-origin " <> s.zram_device
      <> " P 8")

  -- The calls of the steps behind the allocation of the device.
  abbrev pub steps : String → Snapshot → History → History
  steps id s u =
      let v : History = size_device id s ∷ u in
      let sectors = H.trim_space (H.answer v (count_sectors s)).text in
      snapshot_target sectors s ∷ origin_target sectors s ∷ count_sectors s ∷ v

  build_ok :
      (id : String) (s : Snapshot) (u : History)
      → (build H id s u).0 ≡ ok tt
      → ((build H id s u).1 ≡ steps id s u) × NoFaults 4 (steps id s u)
  unfolding build echo_into
  build_ok id s u h = ground arith

  -- The snapshot that stands behind the history `u`, when the history is `t`: the device that was
  -- added is sized, and origin and snapshot are made on it with the sectors counted, all without a
  -- fault.
  pub record Built (origin : String) (s : Snapshot) (u t : History) : Type 0 where
    pub id : String
    pub number : id ≡ H.trim_space (H.answer u add_device).text
    pub device : s.zram_device ≡ "/dev/zram" <> id
    pub calls : t ≡ steps id s (add_device ∷ u)
    pub fine : NoFaults 5 (steps id s (add_device ∷ u))
    pub of_origin : s.origin_device ≡ origin
    pub named : s.snapshot_name ≡ "teslausb-snap"
    pub unmounted : s.mountpoint ≡ ""
    pub sized : ltb_ℤ (pos 0) s.zram_size_mb ≡ true

  -- The snapshot that Create works on.
  abbrev begun : String → ℤ → String → Snapshot
  begun origin mb id = record (fresh H origin mb) { zram_device = "/dev/zram" <> id }

  built_on_device :
      (origin : String) (mb : ℤ) (id : String) (v : History) (s : Snapshot)
      → (built_on H (fresh H origin mb) (ok id) v).0 ≡ ok s
      → (s ≡ begun origin mb id)
        × ((built_on H (fresh H origin mb) (ok id) v).1 ≡ steps id (begun origin mb id) v)
        × NoFaults 4 (steps id (begun origin mb id) v)
  unfolding built_on
  built_on_device origin mb id v s h =
      let made : (build H id (begun origin mb id) v).0 ≡ ok tt = ground (arith, h) in
      let (calls, fine) = build_ok id (begun origin mb id) v made in
      (ground (arith, h, made), ground (arith, made, calls), fine)

  hot_add-history : (u : History) → (hot_add H u).1 ≡ add_device ∷ u
  unfolding hot_add
  hot_add-history u = ground arith

  hot_add-ok :
      (u : History) (id : String)
      → (hot_add H u).0 ≡ ok id
      → ((H.answer u add_device).fault ≡ none) × (id ≡ H.trim_space (H.answer u add_device).text)
  unfolding hot_add
  hot_add-ok u id h = ground arith

  fresh-positive :
      (origin : String) (mb : ℤ) → ltb_ℤ (pos 0) (fresh H origin mb).zram_size_mb ≡ true
  unfolding fresh
  fresh-positive origin mb = ground arith

  failed :
      (origin : String) (mb : ℤ) (m : String) (u : History) (s : Snapshot)
      → (built_on H (fresh H origin mb) (err m) (add_device ∷ u)).0 ≢ ok s
  unfolding built_on
  failed origin mb m u s h = ground arith

  after_add :
      (origin : String) (mb : ℤ) (u : History) (s : Snapshot) (r : Result String)
      → (hot_add H u).0 ≡ r
      → (built_on H (fresh H origin mb) r (add_device ∷ u)).0 ≡ ok s
      → Built origin s u (built_on H (fresh H origin mb) r (add_device ∷ u)).1
  after_add origin mb u s (err m) e h = absurd (failed origin mb m u s h)
  after_add origin mb u s (ok id) e h =
      let (same, calls, fine) = built_on_device origin mb id (add_device ∷ u) s h in
      let (added, number) = hot_add-ok u id e in
      rw same (record {
        id = id;
        number = number;
        device = refl;
        calls = calls;
        fine = let (a, (b, (c, (d, _)))) = fine in (a, (b, (c, (d, (added, tt)))));
        of_origin = unfold fresh in refl;
        named = unfold fresh in refl;
        unmounted = unfold fresh in refl;
        sized = fresh-positive origin mb;
      })

  built_on-Built :
      (origin : String) (mb : ℤ) (u : History) (s : Snapshot)
      → let r = hot_add H u in
        (built_on H (fresh H origin mb) r.0 r.1).0 ≡ ok s
        → Built origin s u (built_on H (fresh H origin mb) r.0 r.1).1
  built_on-Built origin mb u s =
      rw (hot_add-history u) (after_add origin mb u s (hot_add H u).0 refl)

  -- A Create that succeeds first removes what is left of an older snapshot; then it adds a zram
  -- device, sizes it, counts the sectors of the origin and makes the targets of the origin and the
  -- snapshot on that device, in this order and each without a fault. It returns a snapshot with
  -- that device and a positive size, which is not mounted.
  pub create-Built :
      (origin : String) (mb : ℤ) (t : History) (s : Snapshot)
      → (create_with_cow_size H origin mb t).0 ≡ ok s
      → Built origin s
          (run "dmsetup" ("remove" ∷ "--retry" ∷ "teslausb-snap-origin" ∷ [])
            ∷ run "dmsetup" ("remove" ∷ "--retry" ∷ "teslausb-snap" ∷ [])
            ∷ t)
          (create_with_cow_size H origin mb t).1
  unfolding create_with_cow_size cleanup
  create-Built origin mb t s h = built_on-Built origin mb _ s h
