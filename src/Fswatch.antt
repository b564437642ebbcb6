-- ===== src/Fswatch.antt =====
-- internal/fswatch/fswatch.go: waiting until the car has stopped writing.
pub mod Laws
pub mod Returns
use teslausb_neo.Base.{
  ℕ, zero, suc, String, ◌<>◌, Bool, true, false, ◌&&◌, Option, none, some, List, [], ◌∷◌, ◌==◌,
  starts_with, if◌then◌else◌,
}
use teslausb_neo.Base.Int.{ℤ, pos, leb_ℤ, ltb_ℤ, ◌-ℤ◌, wrap_int64, seconds}
use teslausb_neo.Host.{read_file, read_dir, now, wait, Answer, Host}
use teslausb_neo.Host.Io
use teslausb_neo.Host.Io.{M, ask}
use teslausb_neo.Host.Fallible.{
  Result, ok, err, E, Done, return, fail, ◌>>=◌, ◌>>◌, lift, attempt, wrap, try,
}

pub data IdleState : Type 0 where
  undetermined writing idle : IdleState

-- String
unfoldable pub idle_state_name : IdleState → String
idle_state_name undetermined = "UNDETERMINED"
idle_state_name writing = "WRITING"
idle_state_name idle = "IDLE"

-- Durations are nanoseconds.
pub record Watcher : Type 0 where
  pub write_threshold : ℤ
  pub timeout : ℤ
  pub poll_interval : ℤ

unfoldable pub new_watcher : ℤ → ℤ → ℤ → Watcher
unfolding seconds
new_watcher threshold timeout_sec poll_sec = record {
  write_threshold = threshold;
  timeout = seconds timeout_sec;
  poll_interval = seconds poll_sec;
}

-- The variables of the loop of WaitForIdle.
pub record Loop : Type 0 where
  pub state : IdleState
  pub last_bytes : ℤ
  pub idle_since : ℤ

-- Whether the loop goes on, or returns nil.
pub data Step : Type 0 where
  next : Loop → Step
  idle_detected : Step

-- `current - lastBytes >= w.WriteThreshold`, in int64
unfoldable pub is_busy : Watcher → ℤ → ℤ → Bool
unfolding wrap_int64
is_busy w last current = leb_ℤ w.write_threshold (wrap_int64 (current -ℤ last))

-- The `switch` of one tick that is busy, and of one that is not. Each case without writes reads
-- the clock, and no other does.
unfoldable pub on_writes : Loop → ℤ → Loop
on_writes l current = record l { state = writing; last_bytes = current }

quiet : Watcher → IdleState → Loop → ℤ → ℤ → Step
quiet w undetermined l current at =
    next (record { state = idle; last_bytes = current; idle_since = at })
quiet w writing l current at = next (record { state = idle; last_bytes = current; idle_since = at })
quiet w idle l current at =
    if leb_ℤ w.timeout (at -ℤ l.idle_since)
    then idle_detected
    else next (record l { last_bytes = current })

unfoldable pub on_quiet : Watcher → Loop → ℤ → ℤ → Step
unfolding quiet
on_quiet w l current at = quiet w l.state l current at

module _ (H : Host) where
  -- The value of the first `write_bytes:` line.
  unfoldable pub find_write_bytes : String → List String → E ℤ
  find_write_bytes pid [] = fail ("write_bytes not found in /proc/" <> pid <> "/io")
  find_write_bytes pid (line ∷ rest) =
      if starts_with line "write_bytes:"
      then elim (H.parse_int (H.trim_space (H.trim_prefix line "write_bytes:"))) [
        | none ↦ fail (H.parse_error (H.trim_space (H.trim_prefix line "write_bytes:")))
        | some n ↦ return n
      ]
      else find_write_bytes pid rest

  unfoldable pub read_write_bytes : String → E ℤ
  unfolding find_write_bytes
  read_write_bytes pid = do
    a ← try H (read_file (H.join ("/proc" ∷ pid ∷ "io" ∷ [])))
    find_write_bytes pid (H.lines a.text)

  -- The loop, for `fuel` ticks; `none` if it has not returned by then.
  unfoldable pub wait_loop : ℕ → Watcher → String → Loop → M (Option (Result (Unit {0})))
  wait_loop zero w pid l t = (none, t)
  wait_loop (suc fuel) w pid l t =
      let (a, t1) = ask H (wait w.poll_interval) t in
      if a.cancelled
      then (some (err "context canceled"), t1)
      else let (r, t2) = read_write_bytes pid t1 in
        elim r [
          | err m ↦ (some (err ("fswatch: read io: " <> m)), t2)
          | ok current ↦ elim (is_busy w l.last_bytes current) [
            | true ↦ wait_loop fuel w pid (on_writes l current) t2
            | false ↦
                let (clock, t3) = ask H now t2 in
                elim (on_quiet w l current clock.amount) [
                  | idle_detected ↦ (some (ok tt), t3)
                  | next l' ↦ wait_loop fuel w pid l' t3
                ]
          ]
        ]

  -- The comm of the process is the one looked for.
  unfoldable pub is_gadget_thread : String → M Bool
  is_gadget_thread pid t =
      let (a, t') = ask H (read_file (H.join ("/proc" ∷ pid ∷ "comm" ∷ []))) t in
      (elim a.fault [ none ↦ H.trim_space a.text == "file-storage" | some _ ↦ false ], t')

  -- A directory with a numeric name is a process.
  unfoldable pub is_process : String → Bool → Bool
  is_process name is_dir = is_dir && (elim (H.parse_int name) [ none ↦ false | some _ ↦ true ])

  unfoldable pub find_in : List (String × Bool) → E String
  find_in [] t = (err "file-storage process not found", t)
  find_in ((pid, is_dir) ∷ rest) t = elim (is_process pid is_dir) [
    | false ↦ find_in rest t
    | true ↦
        let (found, t') = is_gadget_thread pid t in
        elim found [ true ↦ (ok pid, t') | false ↦ find_in rest t' ]
  ]

  unfoldable pub find_gadget_pid : E String
  unfolding find_in is_process is_gadget_thread
  find_gadget_pid = do a ← wrap "read /proc" (try H (read_dir "/proc")); find_in a.entries

  -- WaitForIdle, watched for `fuel` ticks.
  unfoldable pub wait_for_idle : ℕ → Watcher → M (Option (Result (Unit {0})))
  unfolding wait_loop read_write_bytes
  wait_for_idle fuel w t =
      let (found, t1) = wrap "fswatch" find_gadget_pid t in
      elim found [
        | err m ↦ (some (err m), t1)
        | ok pid ↦
            let (first, t2) = wrap "fswatch: initial read" (read_write_bytes pid) t1 in
            elim first [
              | err m ↦ (some (err m), t2)
              | ok bytes ↦
                  wait_loop fuel w pid
                    (record { state = undetermined; last_bytes = bytes; idle_since = pos 0 }) t2
            ]
      ]
