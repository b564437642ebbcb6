-- ===== src/Tests/Idle.antt =====
-- A wait for idle that ends: three ticks without writes, three calls apart.
use teslausb_neo.Base.{◌≡◌, ◌≢◌, false, some, [], ◌∷◌, refl, arith, length}
use teslausb_neo.Base.Int.{ℤ, pos}
use teslausb_neo.Host.{wait, read_file, now, History}
use teslausb_neo.Host.Fallible.{ok}
use teslausb_neo.Fswatch.{Watcher, idle, is_busy, read_write_bytes, wait_loop}
use teslausb_neo.Fswatch.Laws.{Sample, Ends, last_one, one_more, Ticks, no_tick, quiet_tick, start}
use teslausb_neo.Fswatch.Returns.{wait_loop-returns}
use teslausb_neo.Tests.Hosts.{still_host}

abbrev patient : Watcher
patient = record { write_threshold = pos 1024; timeout = pos 6; poll_interval = pos 1 }

abbrev at_time : ℤ → Sample
at_time at = record { bytes = pos 5; at = at }

abbrev after_tick : History → History
after_tick t = now ∷ read_file "/proc" ∷ wait (pos 1) ∷ t

reads : (t : History) → read_write_bytes still_host "42" t ≡ (ok (pos 5), read_file "/proc" ∷ t)
unfolding read_write_bytes
reads t = refl

calm_tick : is_busy patient (pos 5) (pos 5) ≡ false
unfolding is_busy
calm_tick = refl

three-Ticks :
    Ticks still_host patient "42"
      (pos 5)
      []
      (at_time (pos 2) ∷ at_time (pos 5) ∷ at_time (pos 8) ∷ [])
      (after_tick (after_tick (after_tick [])))
three-Ticks =
    quiet_tick refl (reads _) calm_tick refl
      (quiet_tick refl (reads _) calm_tick refl (quiet_tick refl (reads _) calm_tick refl no_tick))

passed : Ends patient (pos 5) (pos 2) (at_time (pos 5) ∷ at_time (pos 8) ∷ [])
passed = one_more calm_tick (last_one calm_tick refl)

not_idle : (start (pos 5)).state ≢ idle
not_idle = ground arith

wait_loop-returns_example :
    (u : History) × (wait_loop still_host
        (length (at_time (pos 2) ∷ at_time (pos 5) ∷ at_time (pos 8) ∷ []))
        patient
        "42"
        (start (pos 5))
        []
      ≡ (some (ok tt), u))
wait_loop-returns_example =
    wait_loop-returns still_host patient "42" (at_time (pos 2))
      (at_time (pos 5) ∷ at_time (pos 8) ∷ []) (start (pos 5)) []
      (after_tick (after_tick (after_tick []))) not_idle calm_tick three-Ticks passed
