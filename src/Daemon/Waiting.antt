-- ===== src/Daemon/Waiting.antt =====
-- When WaitForIdle returns.
use teslausb_neo.Base.{
  ℕ, zero, suc, String, ◌≡◌, ◌≢◌, refl, none, some, Option, ◌∷◌, length, ◌+◌, ◌≤◌, arith,
}
use teslausb_neo.Base.Int.{ℤ, pos}
use teslausb_neo.Host.{wait, now, History, Host}
use teslausb_neo.Host.Fallible.{Result, ok, err}
use teslausb_neo.Fswatch.{
  undetermined, Watcher, Loop, Step, next, idle_detected, on_writes, on_quiet, read_write_bytes,
  find_gadget_pid, wait_loop, wait_for_idle,
}
use teslausb_neo.Growth.Loops.{read_write_bytes-Adds, find_gadget_pid-Adds}
use teslausb_neo.Growth.Cycle.{}
use teslausb_neo.Daemon.Machine.{}
use teslausb_neo.Daemon.Run.{}
use teslausb_neo.Daemon.Shutdown.{DoneFrom}

module _ (H : Host) (n : ℕ) (done : DoneFrom H n) where
  module _ (w : Watcher) (pid : String) where
    -- A tick returns, if what follows it does.
    wait_loop_ends :
        (fuel : ℕ) (l : Loop) (t : History)
        → n ≤ length t + fuel
        → ((l' : Loop) (u : History)
            → suc (length t) ≤ length u
            → (wait_loop H fuel w pid l' u).0 ≢ none)
        → (wait_loop H (suc fuel) w pid l t).0 ≢ none
    unfolding wait_loop
    wait_loop_ends fuel l t h later = go (read_write_bytes H pid (wait w.poll_interval ∷ t)).0 refl
      where
        quiet_step :
            (s : Step) (u : History)
            → suc (length t) ≤ length u
            → (elim s as (λ x. Option (Result (Unit {0})) × History) [
              | idle_detected ↦ (some (ok tt), now ∷ u)
              | next l' ↦ wait_loop H fuel w pid l' (now ∷ u)
            ]).0
              ≢ none
        quiet_step idle_detected u k = ground arith
        quiet_step (next l') u k = later l' (now ∷ u) (omega (arith, k))

        go :
            (r : Result ℤ)
            → (read_write_bytes H pid (wait w.poll_interval ∷ t)).0 ≡ r
            → (wait_loop H (suc fuel) w pid l t).0 ≢ none
        go (err x) e = ground (arith, e)
        go (ok current) e =
            let u = (read_write_bytes H pid (wait w.poll_interval ∷ t)).1 in
            let grown : suc (length t) ≤ length u =
              (read_write_bytes-Adds H pid).less (wait w.poll_interval ∷ t) in
            ground (
              arith,
              e,
              later (on_writes l current) u grown,
              quiet_step (on_quiet w l current (H.answer u now).amount) u grown,
            )

    wait_loop-ends :
        (fuel : ℕ) (l : Loop) (t : History)
        → n ≤ length t + fuel
        → (wait_loop H (suc fuel) w pid l t).0 ≢ none
    unfolding wait_loop
    wait_loop-ends zero l t h = ground (arith, done.waits t w.poll_interval)
    wait_loop-ends (suc fuel) l t h =
        wait_loop_ends (suc fuel) l t (omega (arith, h))
          (λ l' u k. wait_loop-ends fuel l' u (omega (arith, h, k)))

  pub wait_for_idle-ends :
      (fuel : ℕ) (w : Watcher) (t : History)
      → n ≤ length t + fuel
      → (wait_for_idle H (suc fuel) w t).0 ≢ none
  unfolding wait_for_idle
  wait_for_idle-ends fuel w t h = found (find_gadget_pid H t).0 refl
    where
      read :
          (r : Result ℤ) (pid : String)
          → (find_gadget_pid H t).0 ≡ ok pid
          → (read_write_bytes H pid (find_gadget_pid H t).1).0 ≡ r
          → (wait_for_idle H (suc fuel) w t).0 ≢ none
      read (err x) pid e d = ground (arith, e, d)
      read (ok bytes) pid e d =
          let u = (read_write_bytes H pid (find_gadget_pid H t).1).1 in
          let l : Loop = record { state = undetermined; last_bytes = bytes; idle_since = pos 0 } in
          ground (
            arith,
            e,
            d,
            wait_loop-ends w pid fuel l u (
                omega (
                  arith,
                  h,
                  (find_gadget_pid-Adds H).less t,
                  (read_write_bytes-Adds H pid).less (find_gadget_pid H t).1,
                )),
          )

      found :
          (r : Result String)
          → (find_gadget_pid H t).0 ≡ r
          → (wait_for_idle H (suc fuel) w t).0 ≢ none
      found (err x) e = ground (arith, e)
      found (ok pid) e = read (read_write_bytes H pid (find_gadget_pid H t).1).0 pid e refl
