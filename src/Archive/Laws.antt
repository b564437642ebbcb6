-- ===== src/Archive/Laws.antt =====
-- What the loop of ArchiveFiles reports and copies, over any copying commands.
use teslausb_neo.Base.{ℕ, suc, ◌+◌, String, ◌≡◌, refl, some, List, [], ◌∷◌, length, arith, Memᴰ}
use teslausb_neo.Base.Int.{ℤ, pos}
use teslausb_neo.Host.{History}
use teslausb_neo.Host.Fallible.{Result, ok, err, Done}
use teslausb_neo.Archive.Transfer.{Progress, transfer_from}

module _ (copy : String → Done) (progress : Progress) where
  -- The runs of the loop: each file is reported, then copied; the loop ends behind the last file,
  -- or behind the first copy that fails. The indices are the variable of the caller, the index and
  -- the history at the start, and the result at the end.
  pub data Run (total : ℕ)
      : List String → ℕ → ℤ → History → (ℤ × Result (Unit {0})) × History → Type 0 where
    all_copied : {i : ℕ} {v : ℤ} {t : History} → Run total [] i v t ((v, ok tt), t)
    copied :
        {f : String} {fs : List String} {i : ℕ} {v w : ℤ} {t u t' : History}
        {end : (ℤ × Result (Unit {0})) × History}
        → progress i total f v t ≡ (w, u)
        → copy f u ≡ (ok tt, t')
        → Run total fs (suc i) w t' end
        → Run total (f ∷ fs) i v t end
    failed :
        {f : String} {fs : List String} {i : ℕ} {v w : ℤ} {t u t' : History} {m : String}
        → progress i total f v t ≡ (w, u)
        → copy f u ≡ (err m, t')
        → Run total (f ∷ fs) i v t ((w, err m), t')

  -- What the loop does once the copy of the first file has given `c`.
  continue_with :
      ℕ → List String → ℕ → ℤ → Result (Unit {0}) × History → (ℤ × Result (Unit {0})) × History
  continue_with total fs i w (ok _, t) = transfer_from copy (some progress) (suc i) total fs w t
  continue_with total fs i w (err m, t) = ((w, err m), t)

  transfer_from-cons :
      (total : ℕ) (f : String) (fs : List String) (i : ℕ) (v : ℤ) (t : History)
      → let (w, u) = progress i total f v t in
        transfer_from copy (some progress) i total (f ∷ fs) v t
        ≡ continue_with total fs i w (copy f u)
  unfolding transfer_from continue_with
  transfer_from-cons total f fs i v t = ground arith

  -- The loop is a run: every file is reported just before it is copied, in the order of the list.
  pub transfer_from-Run :
      (total : ℕ) (fs : List String) (i : ℕ) (v : ℤ) (t : History)
      → Run total fs i v t (transfer_from copy (some progress) i total fs v t)
  unfolding continue_with
  transfer_from-Run total [] i v t = unfold transfer_from in all_copied
  transfer_from-Run total (f ∷ fs) i v t =
      rw transfer_from-cons
        (go (transfer_from-Run total fs (suc i)) (copy f (progress i total f v t).1) refl)
    where
      go :
          ((w : ℤ) (t' : History)
            → Run total fs (suc i) w t' (transfer_from copy (some progress) (suc i) total fs w t'))
          → (c : Result (Unit {0}) × History) → copy f (progress i total f v t).1 ≡ c
          → Run total (f ∷ fs) i v t (continue_with total fs i (progress i total f v t).0 c)
      go rec (ok _, t') e = copied refl e (rec _ t')
      go rec (err m, t') e = failed refl e

  -- The value of a progress function that stores the index it is given: behind a run that copied
  -- all of at least one file it is the index of the last, one less than their number.
  pub Run-last_index :
      ((i total : ℕ) (f : String) (v : ℤ) (t : History) → (progress i total f v t).0 ≡ pos i)
      → {total i : ℕ} {f : String} {fs : List String} {v : ℤ} {t : History}
        {end : (ℤ × Result (Unit {0})) × History}
      → Run total (f ∷ fs) i v t end
      → end.0.1 ≡ ok tt
      → end.0.0 ≡ pos (i + length fs)
  Run-last_index stores {total} {i} {f} {v = v} {t = t} (copied p c all_copied) h =
      ground (arith, stores i total f v t)
  Run-last_index stores (copied p c (copied q d r)) h =
      ground (arith, Run-last_index stores (copied q d r) h)
  Run-last_index stores (copied p c (failed q d)) h = cc
  Run-last_index stores (failed p c) h = cc

  -- Where a run fails: at a file of the list that had just been reported, at some history.
  pub Run-failed_at :
      {total i : ℕ} {fs : List String} {v : ℤ} {t : History}
      {end : (ℤ × Result (Unit {0})) × History} {m : String}
      → Run total fs i v t end
      → end.0.1 ≡ err m
      → (f : String) × (j : ℕ) × (w : ℤ) × (u : History) × Memᴰ f fs
        × (copy f (progress j total f w u).1 ≡ (err m, end.1))
  Run-failed_at all_copied h = cc
  Run-failed_at (copied {f = f} p c r) h =
      let (g, j, w, u, member, e) = Run-failed_at r h in (g, j, w, u, Memᴰ.tail member, e)
  Run-failed_at {i = i} {v = v} {t = t} (failed {f = f} p c) h =
      (f, i, v, t, Memᴰ.head refl, ground arith)
