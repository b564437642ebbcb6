-- ===== src/Fswatch/Returns.antt =====
-- When WaitForIdle does return nil.
use teslausb_neo.Base.{
  ℕ, suc, String, ◌≡◌, ◌≢◌, refl, false, some, List, [], ◌∷◌, length, arith, ◌∙◌,
}
use teslausb_neo.Base.Int.{ℤ, leb_ℤ, ◌-ℤ◌}
use teslausb_neo.Host.{wait, now, History, Host}
use teslausb_neo.Host.Fallible.{ok}
use teslausb_neo.Fswatch.{
  idle, Watcher, Loop, Step, next, idle_detected, is_busy, on_quiet, wait_loop, read_write_bytes,
}
use teslausb_neo.Fswatch.Laws.{Sample, Ends, last_one, one_more, Ticks, busy_tick, quiet_tick}

-- A tick without writes in the idle state ends the wait, or leaves the idle time where it began.
idle_step :
    (w : Watcher) (l l' : Loop) (current at : ℤ)
    → l.state ≡ idle
    → on_quiet w l current at ≡ next l'
    → (leb_ℤ w.timeout (at -ℤ l.idle_since) ≡ false)
      × (l'.state ≡ idle)
      × (l'.idle_since ≡ l.idle_since)
      × (l'.last_bytes ≡ current)
unfolding on_quiet
idle_step w l l' current at i e = ground (arith, i, e)

-- In the other states it begins the idle time.
begin_step :
    (w : Watcher) (l : Loop) (current at : ℤ)
    → l.state ≢ idle
    → on_quiet w l current at
      ≡ next (record { state = idle; last_bytes = current; idle_since = at })
unfolding on_quiet
begin_step w l current at n = ground arith

module _ (H : Host) (w : Watcher) (pid : String) where
  abbrev Returns : ℕ → Loop → History → Type 0
  Returns fuel l t = (u : History) × (wait_loop H fuel w pid l t ≡ (some (ok tt), u))

  -- A tick that saw no writes, by what the state makes of it.
  quiet_round :
      (fuel : ℕ) (l : Loop) (b : ℤ) (t u : History) (step : Step)
      → (H.answer t (wait w.poll_interval)).cancelled ≡ false
      → read_write_bytes H pid (wait w.poll_interval ∷ t) ≡ (ok b, u)
      → is_busy w l.last_bytes b ≡ false
      → on_quiet w l b (H.answer u now).amount ≡ step
      → wait_loop H (suc fuel) w pid l t ≡ (elim step [
        | idle_detected ↦ (some (ok tt), now ∷ u)
        | next l' ↦ wait_loop H fuel w pid l' (now ∷ u)
      ])
  unfolding wait_loop
  quiet_round fuel l b t u step c r q e = ground (arith, c, r, q, e)

  module _ (fuel : ℕ) (l : Loop) (s : Sample) (t u : History) (i : l.state ≡ idle)
      (c : (H.answer t (wait w.poll_interval)).cancelled ≡ false)
      (r : read_write_bytes H pid (wait w.poll_interval ∷ t) ≡ (ok s.bytes, u))
      (q : is_busy w l.last_bytes s.bytes ≡ false) (a : (H.answer u now).amount ≡ s.at) where
    -- A tick without writes in the idle state, given what the wait does if it goes on.
    idle-Returns :
        (step : Step)
        → on_quiet w l s.bytes s.at ≡ step
        → ((l' : Loop) → on_quiet w l s.bytes s.at ≡ next l' → Returns fuel l' (now ∷ u))
        → Returns (suc fuel) l t
    idle-Returns idle_detected d go =
        (now ∷ u, quiet_round fuel l s.bytes t u idle_detected c r q (rw a d))
    idle-Returns (next l') d go =
        let (v, e) = go l' d in (v, quiet_round fuel l s.bytes t u (next l') c r q (rw a d) ∙ e)

  Ends-Returns :
      (ss : List Sample) (l : Loop) (t t' : History)
      → l.state ≡ idle
      → Ticks H w pid l.last_bytes t ss t'
      → Ends w l.last_bytes l.idle_since ss
      → Returns (length ss) l t
  Ends-Returns [] l t t' i ticks ends = elim ends [ ]
  Ends-Returns (s ∷ []) l t t' i (busy_tick c r b rest) (last_one e passed) =
      absurd (ground (arith, b, e))
  Ends-Returns (s ∷ []) l t t' i (quiet_tick {u = u} c r q a rest) (last_one e passed) =
      idle-Returns 0 l s t u i c r q a _ refl
        (λ l' d. absurd (ground (arith, passed, (idle_step w l l' s.bytes s.at i d).0)))
  Ends-Returns (s ∷ ss) l t t' i (busy_tick c r b rest) (one_more e ends) =
      absurd (ground (arith, b, e))
  Ends-Returns (s ∷ ss) l t t' i (quiet_tick {u = u} c r q a rest) (one_more e ends) =
      idle-Returns (length ss) l s t u i c r q a _ refl (λ l' d.
        let (_, i', since, last) = idle_step w l l' s.bytes s.at i d in
        Ends-Returns ss l' (now ∷ u) t' i' (rw last rest) (rw (since, last) ends))

  -- From the start, or from a tick with writes on, WaitForIdle returns nil within the ticks of a
  -- stretch without writes whose last tick comes at least the timeout after its first.
  pub wait_loop-returns :
      (s : Sample) (ss : List Sample) (l : Loop) (t t' : History)
      → l.state ≢ idle
      → is_busy w l.last_bytes s.bytes ≡ false
      → Ticks H w pid l.last_bytes t (s ∷ ss) t'
      → Ends w s.bytes s.at ss
      → (u : History) × (wait_loop H (length (s ∷ ss)) w pid l t ≡ (some (ok tt), u))
  wait_loop-returns s ss l t t' n q (busy_tick c r b rest) ends = absurd (ground (arith, b, q))
  wait_loop-returns s ss l t t' n q (quiet_tick {u = u} c r q' a rest) ends =
      let l' : Loop = record { state = idle; last_bytes = s.bytes; idle_since = s.at } in
      let (v, e) = Ends-Returns ss l' (now ∷ u) t' refl rest ends in
      (
        v,
        quiet_round (length ss) l s.bytes t u (next l') c r q (rw a (begin_step w l s.bytes s.at n))
            ∙ e,
      )
