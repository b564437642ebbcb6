-- ===== src/Fswatch/Laws.antt =====
-- When WaitForIdle returns nil: only after the writes have stayed below the threshold for the
-- whole timeout, and then it does return.
use teslausb_neo.Base.{
  ℕ, zero, suc, String, ◌<>◌, ap, ◌≡◌, ◌≢◌, refl, Bool, true, false, Option, some, List, [], ◌∷◌,
  arith, ◌⊎◌, inl, inr,
}
use teslausb_neo.Base.Int.{ℤ, pos, leb_ℤ, ◌-ℤ◌}
use teslausb_neo.Host.{wait, now, History, Host}
use teslausb_neo.Host.Fallible.{Result, ok, err}
use teslausb_neo.Fswatch.{
  undetermined, idle, Watcher, Loop, Step, next, idle_detected, is_busy, on_writes, on_quiet,
  wait_loop, read_write_bytes,
}

-- What one tick sees: the counter, and the clock if it was read.
pub record Sample : Type 0 where
  pub bytes : ℤ
  pub at : ℤ

-- No sample shows writes, and the last one comes at least the timeout behind `since`.
pub data Ends (w : Watcher) : ℤ → ℤ → List Sample → Type 0 where
  last_one :
      {last since : ℤ} {s : Sample}
      → is_busy w last s.bytes ≡ false
      → leb_ℤ w.timeout (s.at -ℤ since) ≡ true
      → Ends w last since (s ∷ [])
  one_more :
      {last since : ℤ} {s : Sample} {ss : List Sample}
      → is_busy w last s.bytes ≡ false
      → Ends w s.bytes since ss
      → Ends w last since (s ∷ ss)

-- From some sample on no sample shows writes, and the last comes the timeout behind that one.
pub data Window (w : Watcher) : ℤ → List Sample → Type 0 where
  opens :
      {last : ℤ} {s : Sample} {ss : List Sample}
      → is_busy w last s.bytes ≡ false
      → Ends w s.bytes s.at ss
      → Window w last (s ∷ ss)
  later : {last : ℤ} {s : Sample} {ss : List Sample} → Window w s.bytes ss → Window w last (s ∷ ss)

-- The samples since the loop was in a state: those of a window that is open, or that contain one.
abbrev pub Settled : Watcher → Loop → List Sample → Type 0
Settled w l ss = (l.state ≡ idle) × Ends w l.last_bytes l.idle_since ss ⊎ Window w l.last_bytes ss

Settled-busy :
    (w : Watcher) (l : Loop) (s : Sample) (ss : List Sample)
    → Settled w (on_writes l s.bytes) ss
    → Settled w l (s ∷ ss)
unfolding on_writes
Settled-busy w l s ss (inl (e, _)) = cc
Settled-busy w l s ss (inr h) = inr (later h)

quiet_next :
    (w : Watcher) (l l' : Loop) (current at : ℤ)
    → on_quiet w l current at ≡ next l'
    → (l'.last_bytes ≡ current)
      × ((l.state ≡ idle) × (l'.idle_since ≡ l.idle_since)
          ⊎ (l.state ≢ idle) × (l'.idle_since ≡ at))
unfolding on_quiet
quiet_next w l l' current at e = ground arith

Settled-quiet :
    (w : Watcher) (l l' : Loop) (s : Sample) (ss : List Sample)
    → is_busy w l.last_bytes s.bytes ≡ false
    → on_quiet w l s.bytes s.at ≡ next l'
    → Settled w l' ss
    → Settled w l (s ∷ ss)
Settled-quiet w l l' s ss q e (inr h) = inr (later (rw (quiet_next w l l' s.bytes s.at e).0 at h))
Settled-quiet w l l' s ss q e (inl (_, h)) =
    let (same, cases) = quiet_next w l l' s.bytes s.at e in
    let h' : Ends w s.bytes l'.idle_since ss = rw same at h in
    elim cases [
      | inl (i, since) ↦ inl (i, one_more q (rw since at h'))
      | inr (_, since) ↦ inr (opens q (rw since at h'))
    ]

Settled-now :
    (w : Watcher) (l : Loop) (s : Sample)
    → is_busy w l.last_bytes s.bytes ≡ false
    → on_quiet w l s.bytes s.at ≡ idle_detected
    → Settled w l (s ∷ [])
Settled-now w l s q e = let (i, passed) = detected e in inl (i, last_one q passed)
  where
    detected :
        on_quiet w l s.bytes s.at ≡ idle_detected
        → (l.state ≡ idle) × (leb_ℤ w.timeout (s.at -ℤ l.idle_since) ≡ true)
    detected h = unfold on_quiet in ground arith

-- The loop as WaitForIdle starts it, with the counter at `bytes`.
abbrev pub start : ℤ → Loop
start bytes = record { state = undetermined; last_bytes = bytes; idle_since = pos 0 }

module _ (H : Host) (w : Watcher) (pid : String) where
  -- The samples are those of the ticks between two histories: each tick waits for the poll
  -- interval, reads the counter, and reads the clock unless the counter shows writes.
  pub data Ticks : ℤ → History → List Sample → History → Type 0 where
    no_tick : {last : ℤ} {t : History} → Ticks last t [] t
    busy_tick :
        {last : ℤ} {t u t' : History} {s : Sample} {ss : List Sample}
        → (H.answer t (wait w.poll_interval)).cancelled ≡ false
        → read_write_bytes H pid (wait w.poll_interval ∷ t) ≡ (ok s.bytes, u)
        → is_busy w last s.bytes ≡ true
        → Ticks s.bytes u ss t'
        → Ticks last t (s ∷ ss) t'
    quiet_tick :
        {last : ℤ} {t u t' : History} {s : Sample} {ss : List Sample}
        → (H.answer t (wait w.poll_interval)).cancelled ≡ false
        → read_write_bytes H pid (wait w.poll_interval ∷ t) ≡ (ok s.bytes, u)
        → is_busy w last s.bytes ≡ false
        → (H.answer u now).amount ≡ s.at
        → Ticks s.bytes (now ∷ u) ss t'
        → Ticks last t (s ∷ ss) t'

  -- One round of the loop, from what its calls give on.
  continue_quiet : ℕ → Step → History → Option (Result (Unit {0})) × History
  continue_quiet fuel idle_detected u = (some (ok tt), now ∷ u)
  continue_quiet fuel (next l) u = wait_loop H fuel w pid l (now ∷ u)

  continue_bytes : ℕ → Loop → Bool → ℤ → History → Option (Result (Unit {0})) × History
  continue_bytes fuel l true b u = wait_loop H fuel w pid (on_writes l b) u
  continue_bytes fuel l false b u = continue_quiet fuel (on_quiet w l b (H.answer u now).amount) u

  continue_read : ℕ → Loop → Result ℤ × History → Option (Result (Unit {0})) × History
  continue_read fuel l (err m, u) = (some (err ("fswatch: read io: " <> m)), u)
  continue_read fuel l (ok b, u) = continue_bytes fuel l (is_busy w l.last_bytes b) b u

  continue_wait : ℕ → Loop → Bool → History → Option (Result (Unit {0})) × History
  continue_wait fuel l true t = (some (err "context canceled"), t)
  continue_wait fuel l false t = continue_read fuel l (read_write_bytes H pid t)

  wait_loop-suc :
      (fuel : ℕ) (l : Loop) (t : History)
      → let t1 = wait w.poll_interval ∷ t in
        wait_loop H (suc fuel) w pid l t
        ≡ continue_wait fuel l (H.answer t (wait w.poll_interval)).cancelled t1
  unfolding wait_loop continue_wait continue_read continue_bytes continue_quiet
  wait_loop-suc fuel l t = ground arith

  abbrev Found : Loop → History → History → Type 0
  Found l t t' = (ss : List Sample) × Ticks l.last_bytes t ss t' × Settled w l ss

  abbrev Finds : ℕ → Type 0
  Finds fuel =
      (l : Loop) (t t' : History) → wait_loop H fuel w pid l t ≡ (some (ok tt), t') → Found l t t'

  module _ (fuel : ℕ) (rec : Finds fuel) (l : Loop) (t t' : History)
      (c : (H.answer t (wait w.poll_interval)).cancelled ≡ false) where
    quiet-Found :
        (b : ℤ) (u : History) (st : Step)
        → read_write_bytes H pid (wait w.poll_interval ∷ t) ≡ (ok b, u)
        → is_busy w l.last_bytes b ≡ false
        → on_quiet w l b (H.answer u now).amount ≡ st
        → continue_quiet fuel st u ≡ (some (ok tt), t')
        → Found l t t'
    unfolding continue_quiet
    quiet-Found b u idle_detected r q e h =
        let s : Sample = record { bytes = b; at = (H.answer u now).amount } in
        (
          s ∷ [],
          quiet_tick {s = s} c r q refl (rw (ap (λ p. p.1) h) no_tick),
          Settled-now w l s q e,
        )
    quiet-Found b u (next l') r q e h =
        let s : Sample = record { bytes = b; at = (H.answer u now).amount } in
        let (ss, ticks, settled) = rec l' (now ∷ u) t' h in
        (
          s ∷ ss,
          quiet_tick {s = s} c r q refl (rw (quiet_next w l l' b s.at e).0 at ticks),
          Settled-quiet w l l' s ss q e settled,
        )

    bytes-Found :
        (b : ℤ) (u : History) (busy : Bool)
        → read_write_bytes H pid (wait w.poll_interval ∷ t) ≡ (ok b, u)
        → is_busy w l.last_bytes b ≡ busy
        → continue_bytes fuel l busy b u ≡ (some (ok tt), t')
        → Found l t t'
    unfolding continue_bytes on_writes
    bytes-Found b u true r q h =
        let s : Sample = record { bytes = b; at = pos 0 } in
        let (ss, ticks, settled) = rec (on_writes l b) u t' h in
        (s ∷ ss, busy_tick {s = s} c r q ticks, Settled-busy w l s ss settled)
    bytes-Found b u false r q h = quiet-Found b u _ r q refl h

    read-Found :
        (r : Result ℤ × History)
        → read_write_bytes H pid (wait w.poll_interval ∷ t) ≡ r
        → continue_read fuel l r ≡ (some (ok tt), t')
        → Found l t t'
    unfolding continue_read
    read-Found (err m, u) e h = absurd (ground arith)
    read-Found (ok b, u) e h = bytes-Found b u _ e refl h

  wait-Found :
      (fuel : ℕ)
      → Finds fuel
      → (l : Loop) (t t' : History) (c : Bool) → (H.answer t (wait w.poll_interval)).cancelled ≡ c
      → continue_wait fuel l c (wait w.poll_interval ∷ t) ≡ (some (ok tt), t')
      → Found l t t'
  unfolding continue_wait
  wait-Found fuel rec l t t' true c h = absurd (ground arith)
  wait-Found fuel rec l t t' false c h = read-Found fuel rec l t t' c _ refl h

  wait_loop-Settled :
      (fuel : ℕ) (l : Loop) (t t' : History)
      → wait_loop H fuel w pid l t ≡ (some (ok tt), t')
      → (ss : List Sample) × Ticks l.last_bytes t ss t' × Settled w l ss
  wait_loop-Settled zero l t t' h = unfold wait_loop in cc
  wait_loop-Settled (suc fuel) l t t' h =
      wait-Found fuel (wait_loop-Settled fuel) l t t' _ refl (rw wait_loop-suc at h)

  -- WaitForIdle returns nil only behind a window: from some tick on, all through the last, the
  -- counter showed no writes, and the last of these ticks came at least the timeout after the first.
  pub wait_loop-Window :
      (fuel : ℕ) (bytes : ℤ) (t t' : History)
      → wait_loop H fuel w pid (start bytes) t ≡ (some (ok tt), t')
      → (ss : List Sample) × Ticks bytes t ss t' × Window w bytes ss
  wait_loop-Window fuel bytes t t' h =
      let (ss, ticks, settled) = wait_loop-Settled fuel (start bytes) t t' h in
      (ss, ticks, elim settled [ inl (i, _) ↦ cc | inr found ↦ found ])
