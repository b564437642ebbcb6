-- ===== src/Sys/Zram.antt =====
-- What a successful SetupZRAM has done.
use teslausb_neo.Base.{◌≡◌, none, [], ◌∷◌, arith}
use teslausb_neo.Base.Int.{ℤ}
use teslausb_neo.Host.{Call, run, write_file, History, Host}
use teslausb_neo.Host.Fallible.{ok, bind-ok}
use teslausb_neo.Sys.{reset_zram0, zram_path, zram_bytes, setup_zram, load_zram, swap_on}

module _ (H : Host) where
  abbrev pub size_write : ℤ → Call
  size_write mb = write_file (zram_path H "disksize") (zram_bytes H mb)

  abbrev pub make_swap : Call
  make_swap = run "mkswap" ("/dev/zram0" ∷ [])

  abbrev pub use_swap : Call
  use_swap = run "swapon" ("-p" ∷ "5" ∷ "/dev/zram0" ∷ [])

  -- The calls that turn the swap on, with the history behind the reset: none had a fault.
  pub record SwappedOn (mb : ℤ) (u t : History) : Type 0 where
    pub calls : t ≡ use_swap ∷ make_swap ∷ size_write mb ∷ u
    pub sized : (H.answer u (size_write mb)).fault ≡ none
    pub made : (H.answer (size_write mb ∷ u) make_swap).fault ≡ none
    pub used : (H.answer (make_swap ∷ size_write mb ∷ u) use_swap).fault ≡ none

  swap_on-SwappedOn :
      (mb : ℤ) (t : History)
      → (swap_on H mb t).0 ≡ ok tt
      → SwappedOn mb (reset_zram0 H t).1 (swap_on H mb t).1
  unfolding swap_on
  swap_on-SwappedOn mb t h = ground (arith, h)

  -- A SetupZRAM that succeeds writes the size right behind the reset of the device, makes the swap
  -- area and turns it on, each without a fault.
  pub setup_zram-SwappedOn :
      (mb : ℤ) (t : History)
      → (setup_zram H mb t).0 ≡ ok tt
      → (u : History) × SwappedOn mb (reset_zram0 H u).1 (setup_zram H mb t).1
  unfolding setup_zram
  setup_zram-SwappedOn mb t h =
      let (_, _, h1, c) = bind-ok (load_zram H) (λ _. swap_on H mb) t tt h in
      let u = (load_zram H t).1 in (u, rw c (swap_on-SwappedOn mb u h1))
