-- ===== src/Archive/Transfer.antt =====
-- The loop of `ArchiveFiles`, the same in cifs.go, nfs.go, rsync.go and rclone.go but for the
-- commands that copy one file. `ProgressFunc` is a closure over one variable of its caller,
-- which is handed through; `progressFn` may be nil.
use teslausb_neo.Base.{ℕ, suc, String, Option, none, some, List, [], ◌∷◌, length}
use teslausb_neo.Base.Int.{ℤ}
use teslausb_neo.Host.Io.{M, pure, ◌>>=◌}
use teslausb_neo.Host.Fallible.{Result, ok, err, Done}

abbrev pub Progress : Type 0
Progress = ℕ → ℕ → String → ℤ → M ℤ

abbrev pub report : Option Progress → ℕ → ℕ → String → ℤ → M ℤ
report none i total f v = pure v
report (some p) i total f v = p i total f v

-- The rest of the loop from index `i` on.
unfoldable pub transfer_from :
    (String → Done) → Option Progress → ℕ → ℕ → List String → ℤ → M (ℤ × Result (Unit {0}))
transfer_from copy progress i total [] v = pure (v, ok tt)
transfer_from copy progress i total (f ∷ fs) v = do
  v' ← report progress i total f v
  copied ← copy f
  elim copied [ ok _ ↦ transfer_from copy progress (suc i) total fs v' | err m ↦ pure (v', err m) ]

unfoldable pub transfer :
    (String → Done) → Option Progress → List String → ℤ → M (ℤ × Result (Unit {0}))
unfolding transfer_from
transfer copy progress files v = transfer_from copy progress 0 (length files) files v
