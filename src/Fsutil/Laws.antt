-- ===== src/Fsutil/Laws.antt =====
-- Mounting over a stale mount, and the arithmetic of the free space.
use teslausb_neo.Base.{
  if◌then◌else◌, ◌+◌, ◌*◌, ◌≤◌, ◌<◌, String, ◌≡◌, ◌≢◌, ◌⊎◌, inl, inr, refl, Bool, true, false,
  Option, none, some, List, [], ◌∷◌, ◌==◌, get_elem?, Bool-cases, Option-cases, eq_of_test,
  test_self, ap, ◌∙◌, arith,
}
use native.Mathlib.Nat.{mul-le-mul_right}
use teslausb_neo.Host.{Call, Fault, run, read_file, History, Host, Space}
use teslausb_neo.Host.Fallible.{ok}
use teslausb_neo.Fsutil.{usage_of, mounted_in, is_mounted, unmount, mount, mount_args}

-- Where no more blocks are available than free, no more free than there are, and the size fits 64
-- bits, nothing wraps: the used bytes and the free ones, those kept for root among them, make up
-- the whole, and the free bytes returned are those of ordinary users.
pub usage_of-exact :
    (s : Space)
    → s.bfree ≤ s.blocks
    → s.bavail ≤ s.bfree
    → s.blocks * s.bsize < 18446744073709551616
    → ((usage_of s).0 + s.bfree * s.bsize ≡ s.blocks * s.bsize)
      × ((usage_of s).1 ≡ s.bavail * s.bsize)
unfolding usage_of
usage_of-exact s h k b =
    let p : s.bfree * s.bsize ≤ s.blocks * s.bsize = mul-le-mul_right s.bsize h in
    let q : s.bavail * s.bsize ≤ s.bfree * s.bsize = mul-le-mul_right s.bsize k in
    (omega arith, omega arith)

module _ (H : Host) where
  -- Some line has the path as its second field.
  pub data Listed (path : String) : List String → Type 0 where
    here :
        {line : String} {rest : List String}
        → get_elem? (H.fields_of line) 1 ≡ some path
        → Listed path (line ∷ rest)
    there : {line : String} {rest : List String} → Listed path rest → Listed path (line ∷ rest)

  abbrev pub mounts : Call
  mounts = read_file "/proc/mounts"

  -- /proc/mounts can be read, and has the path.
  abbrev pub Shown : String → History → Type 0
  Shown path t = ((H.answer t mounts).fault ≡ none) × Listed path (H.lines (H.answer t mounts).text)

  mounted_in-Listed :
      (path : String) (ls : List String) → mounted_in H ls path ≡ true → Listed path ls
  unfolding mounted_in
  mounted_in-Listed path [] h = absurd (ground (arith, h))
  mounted_in-Listed path (l ∷ ls) h =
      go (get_elem? (H.fields_of l) 1) refl (mounted_in-Listed path ls)
    where
      go :
          (o : Option String)
          → get_elem? (H.fields_of l) 1 ≡ o
          → (mounted_in H ls path ≡ true → Listed path ls)
          → Listed path (l ∷ ls)
      go none e later = there (later (ground (arith, h, e)))
      go (some target) e later = elim (Bool-cases (target == path)) [
        | inl d ↦ here (e ∙ ap some (eq_of_test target path d))
        | inr d ↦ there (later (ground (arith, h, e, d)))
      ]

  Listed-mounted_in :
      (path : String) (ls : List String) → Listed path ls → mounted_in H ls path ≡ true
  unfolding mounted_in
  Listed-mounted_in path [] m = elim m [ ]
  Listed-mounted_in path (l ∷ ls) (here e) = ground (arith, e, test_self path)
  Listed-mounted_in path (l ∷ ls) (there m) = ground (arith, Listed-mounted_in path ls m)

  is_mounted-Shown :
      (path : String) (t : History)
      → ((is_mounted H path t).0 ≡ true) × Shown path t
        ⊎ ((is_mounted H path t).0 ≡ false) × ¬ Shown path t
  unfolding is_mounted
  is_mounted-Shown path t = go (H.answer t mounts).fault refl
    where
      ls : List String
      ls = H.lines (H.answer t mounts).text

      go :
          (o : Option Fault)
          → (H.answer t mounts).fault ≡ o
          → ((is_mounted H path t).0 ≡ true) × Shown path t
            ⊎ ((is_mounted H path t).0 ≡ false) × ¬ Shown path t
      go (some f) e = inr (ground (arith, e), λ (n, _). ground (arith, n, e))
      go none e = elim (Bool-cases (mounted_in H ls path)) [
        | inl b ↦ inl (ground (arith, e, b), (e, mounted_in-Listed path ls b))
        | inr b ↦ inr (
          ground (arith, e, b),
          λ (_, m). let c = Listed-mounted_in path ls m in ground (arith, b, c),
        )
      ]

  is_mounted-history : (path : String) (t : History) → (is_mounted H path t).1 ≡ mounts ∷ t
  unfolding is_mounted
  is_mounted-history path t = refl

  -- How the mountpoint came to be free, with the histories before and behind: nothing was shown to
  -- be mounted there; or something was, and was not shown any more at a second look, or was
  -- unmounted, or unmounted lazily where that had failed.
  pub data Freed (path : String) (t : History) : History → Type 0 where
    unused : ¬ Shown path t → Freed path t (mounts ∷ t)
    vanished : Shown path t → ¬ Shown path (mounts ∷ t) → Freed path t (mounts ∷ mounts ∷ t)
    unmounted :
        Shown path t
        → Shown path (mounts ∷ t)
        → (H.answer (mounts ∷ mounts ∷ t) (run "umount" (path ∷ []))).fault ≡ none
        → Freed path t (run "umount" (path ∷ []) ∷ mounts ∷ mounts ∷ t)
    lazily :
        Shown path t
        → Shown path (mounts ∷ t)
        → (H.answer (mounts ∷ mounts ∷ t) (run "umount" (path ∷ []))).fault ≢ none
        → (H.answer
            (run "umount" (path ∷ []) ∷ mounts ∷ mounts ∷ t)
            (run "umount" ("-l" ∷ path ∷ []))).fault
          ≡ none
        → Freed path t
            (run "umount" ("-l" ∷ path ∷ []) ∷ run "umount" (path ∷ []) ∷ mounts ∷ mounts ∷ t)

  -- The mount command; ro is the only option.
  abbrev pub mount_call : String → String → String → Bool → Call
  mount_call device path fstype true =
      run "mount" ("-t" ∷ fstype ∷ "-o" ∷ "ro" ∷ device ∷ path ∷ [])
  mount_call device path fstype false = run "mount" ("-t" ∷ fstype ∷ device ∷ path ∷ [])

  mount_args-call :
      (device path fstype : String) (ro : Bool)
      → run "mount" (mount_args H device path fstype ro) ≡ mount_call device path fstype ro
  unfolding mount_args
  mount_args-call device path fstype true = refl
  mount_args-call device path fstype false = refl

  unmount-Freed :
      (path : String) (t : History)
      → Shown path t
      → (unmount H path (mounts ∷ t)).0 ≡ ok tt
      → Freed path t (unmount H path (mounts ∷ t)).1
  unfolding unmount
  unmount-Freed path t shown h =
      let v : History = mounts ∷ mounts ∷ t in
      let first = H.answer v (run "umount" (path ∷ [])) in
      let second = H.answer (run "umount" (path ∷ []) ∷ v) (run "umount" ("-l" ∷ path ∷ [])) in
      let looked = is_mounted-history path (mounts ∷ t) in
      elim (is_mounted-Shown path (mounts ∷ t)) [
        | inr (b, absent) ↦
            let e : (unmount H path (mounts ∷ t)).1 ≡ v = ground (arith, b, looked) in
            rw e (vanished shown absent)
        | inl (b, again) ↦ elim (Option-cases first.fault) [
          | inl f ↦
              let e : (unmount H path (mounts ∷ t)).1 ≡ run "umount" (path ∷ []) ∷ v =
                ground (arith, b, looked, f) in
              rw e (unmounted shown again f)
          | inr (x, f) ↦
              let e : (unmount H path (mounts ∷ t)).1
                  ≡ run "umount" ("-l" ∷ path ∷ []) ∷ run "umount" (path ∷ []) ∷ v =
                ground (arith, b, looked, f) in
              let g : second.fault ≡ none = ground (arith, h, b, looked, f) in
              rw e (lazily shown again (λ d. ground (arith, d, f)) g)
        ]
      ]

  mount-ends :
      (device path fstype : String) (ro : Bool) (t : History)
      → (mount H device path fstype ro t).0 ≡ ok tt
      → let (mounted, t1) = is_mounted H path t in
        let call = run "mount" (mount_args H device path fstype ro) in
        let u = if mounted then (unmount H path t1).1 else t1 in
        ((mount H device path fstype ro t).1 ≡ call ∷ u)
        × ((H.answer u call).fault ≡ none)
        × ((if mounted then (unmount H path t1).0 else ok tt) ≡ ok tt)
  unfolding mount
  mount-ends device path fstype ro t h = ground arith

  -- A mount that succeeds ends with the mount command, without a fault. Before it the mountpoint
  -- was free: /proc/mounts could not be read or did not list it; or it did, and then a second look
  -- did not, or umount succeeded, or umount failed and umount -l succeeded.
  pub mount-Freed :
      (device path fstype : String) (ro : Bool) (t : History)
      → (mount H device path fstype ro t).0 ≡ ok tt
      → let call = mount_call device path fstype ro in
        (u : History) × Freed path t u
        × ((mount H device path fstype ro t).1 ≡ call ∷ u)
        × ((H.answer u call).fault ≡ none)
  mount-Freed device path fstype ro t h =
      let (calls, fine, cleared) = mount-ends device path fstype ro t h in
      let same = mount_args-call device path fstype ro in
      let looked = is_mounted-history path t in
      elim (is_mounted-Shown path t) [
        | inr (b, absent) ↦ (
          mounts ∷ t,
          unused absent,
          ground (arith, calls, same, b, looked),
          ground (arith, fine, same, b, looked),
        )
        | inl (b, shown) ↦
            let u = (unmount H path (mounts ∷ t)).1 in
            (
              u,
              unmount-Freed path t shown (ground (arith, cleared, b, looked)),
              ground (arith, calls, same, b, looked),
              ground (arith, fine, same, b, looked),
            )
      ]
