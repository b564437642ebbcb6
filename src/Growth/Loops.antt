-- ===== src/Growth/Loops.antt =====
-- Growth of the history under the ticks of the loops that wait, waitForWifi and WaitForIdle.
use teslausb_neo.Base.{
  ℕ, zero, suc, String, ◌≤◌, ◌≡◌, refl, Bool, some, Option, List, [], ◌∷◌, length, arith,
}
use teslausb_neo.Base.Int.{ℤ, pos}
use teslausb_neo.Host.{wait, now, read_file, read_dir, History, Host}
use teslausb_neo.Host.Fallible.{Result, ok, err}
use teslausb_neo.Config.Types.{NotifyConfig}
use teslausb_neo.Notify.{
  event_warning, Notifier, new_multi, send_all, valid, noop_notifier, new_ntfy, new_apprise,
}
use teslausb_neo.Health.{Monitor, warn, check_temperature, get_cpu_temp}
use teslausb_neo.Wifi.Manager
use teslausb_neo.Wifi.Watchdog.{manager, systemd_reboot, watchdog_tick}
use teslausb_neo.Tesla.{Ble, ble_nudge}
use teslausb_neo.Sdnotify.{notify}
use teslausb_neo.Fswatch.{
  undetermined, Watcher, Loop, Step, next, idle_detected, on_writes, on_quiet, read_write_bytes,
  find_gadget_pid, is_gadget_thread, find_in, find_write_bytes, wait_loop, wait_for_idle,
}
use teslausb_neo.Growth.Adds.{Adds}
use teslausb_neo.Growth.Network.{Speaks}
use teslausb_neo.Daemon.Wiring.{build_notifier, notifiers_of}
use teslausb_neo.Daemon.Run.{wait_for_wifi, home_now}

pub build_notifier-Speaks :
    (H : Host) (payload : String → String → String → String) (c : NotifyConfig)
    → Speaks (build_notifier H payload c)
unfolding build_notifier notifiers_of new_multi send_all valid noop_notifier new_ntfy new_apprise
build_notifier-Speaks H payload c title message event = record { less = λ t. ground arith }

module _ (H : Host) where
  pub home_now-Adds : (ssid : String) → Adds (home_now H ssid)
  unfolding home_now Manager.is_connected Manager.is_home_network
  home_now-Adds ssid = record { less = λ t. ground arith }

  pub notify-Adds : (state : String) → Adds (notify H state)
  unfolding notify
  notify-Adds state = record { less = λ t. ground arith }

  pub ble_nudge-Adds : (b : Ble) → Adds (ble_nudge H b)
  unfolding ble_nudge
  ble_nudge-Adds b = record { less = λ t. ground arith }

  pub watchdog_tick-Adds :
      (ssid : String) (failures max : ℤ)
      → Adds (watchdog_tick (manager H) ssid failures max (systemd_reboot H))
  unfolding watchdog_tick manager systemd_reboot Manager.is_connected Manager.is_home_network
      Manager.is_ssid_visible Manager.connect_to_home
  watchdog_tick-Adds ssid failures max = record { less = λ t. ground arith }

  warn-Adds :
      (m : Monitor) (k : Notifier) (temp : ℤ)
      → m.notifier ≡ some k
      → Speaks k
      → Adds (warn H m temp)
  unfolding warn
  warn-Adds m k temp e speaks = record {
    less = λ t. rw (e, warn) ((speaks "Temperature Warning" _ event_warning).less t);
  }

  pub check_temperature-Adds :
      (m : Monitor) (k : Notifier) → m.notifier ≡ some k → Speaks k → Adds (check_temperature H m)
  unfolding check_temperature get_cpu_temp
  check_temperature-Adds m k e speaks = record { less = λ t. go (get_cpu_temp H t).0 t refl }
    where
      go :
          (r : Result ℤ) (t : History)
          → (get_cpu_temp H t).0 ≡ r
          → length t ≤ length (check_temperature H m t).1
      go (ok temp) t d = ground (arith, d, (warn-Adds m k temp e speaks).less (get_cpu_temp H t).1)
      go (err x) t d = ground (arith, d)

  pub wait_for_wifi-Adds : (fuel : ℕ) (ssid : String) → Adds (wait_for_wifi H fuel ssid)
  unfolding wait_for_wifi
  wait_for_wifi-Adds zero ssid = record { less = λ t. omega arith }
  wait_for_wifi-Adds (suc fuel) ssid = record {
    less = λ t.
        let u : History = wait (pos 5000000000) ∷ t in
        ground (
          arith,
          (home_now-Adds ssid).less u,
          (wait_for_wifi-Adds fuel ssid).less (home_now H ssid u).1,
        );
  }

  find_write_bytes-Adds : (pid : String) (ls : List String) → Adds (find_write_bytes H pid ls)
  unfolding find_write_bytes
  find_write_bytes-Adds pid [] = record { less = λ t. omega arith }
  find_write_bytes-Adds pid (l ∷ ls) = record {
    less = λ t. ground (arith, (find_write_bytes-Adds pid ls).less t);
  }

  pub read_write_bytes-Adds : (pid : String) → Adds (read_write_bytes H pid)
  unfolding read_write_bytes
  read_write_bytes-Adds pid = record {
    less = λ t.
        let c = read_file (H.join ("/proc" ∷ pid ∷ "io" ∷ [])) in
        ground (arith, (find_write_bytes-Adds pid (H.lines (H.answer t c).text)).less (c ∷ t));
  }

  is_gadget_thread-Adds : (pid : String) → Adds (is_gadget_thread H pid)
  unfolding is_gadget_thread
  is_gadget_thread-Adds pid = record { less = λ t. omega arith }

  find_in-Adds : (es : List (String × Bool)) → Adds (find_in H es)
  unfolding find_in
  find_in-Adds [] = record { less = λ t. omega arith }
  find_in-Adds ((pid, is_dir) ∷ rest) = record {
    less = λ t.
        let u = (is_gadget_thread H pid t).1 in
        ground (
          arith,
          (is_gadget_thread-Adds pid).less t,
          (find_in-Adds rest).less t,
          (find_in-Adds rest).less u,
        );
  }

  pub find_gadget_pid-Adds : Adds (find_gadget_pid H)
  unfolding find_gadget_pid
  find_gadget_pid-Adds = record {
    less = λ t.
        let c = read_dir "/proc" in
        ground (arith, (find_in-Adds (H.answer t c).entries).less (c ∷ t));
  }

  module _ (w : Watcher) (pid : String) where
    -- A tick, given what the loop does after it.
    wait_loop_tick :
        (fuel : ℕ) (l : Loop)
        → ((l' : Loop) → Adds (wait_loop H fuel w pid l'))
        → Adds (wait_loop H (suc fuel) w pid l)
    unfolding wait_loop
    wait_loop_tick fuel l later = record {
      less = λ t. go (read_write_bytes H pid (wait w.poll_interval ∷ t)).0 t refl;
    }
      where
        quiet_step :
            (s : Step) (t u : History)
            → length t ≤ length u
            → length t
              ≤ length
                  (elim s as (λ x. Option (Result (Unit {0})) × History) [
                    | idle_detected ↦ (some (ok tt), now ∷ u)
                    | next l' ↦ wait_loop H fuel w pid l' (now ∷ u)
                  ]).1
        quiet_step idle_detected t u h = omega (arith, h)
        quiet_step (next l') t u h = omega (arith, h, (later l').less (now ∷ u))

        go :
            (r : Result ℤ) (t : History)
            → (read_write_bytes H pid (wait w.poll_interval ∷ t)).0 ≡ r
            → length t ≤ length (wait_loop H (suc fuel) w pid l t).1
        go (err x) t e =
            ground (arith, e, (read_write_bytes-Adds pid).less (wait w.poll_interval ∷ t))
        go (ok current) t e =
            let u = (read_write_bytes H pid (wait w.poll_interval ∷ t)).1 in
            let grown = (read_write_bytes-Adds pid).less (wait w.poll_interval ∷ t) in
            ground (
              arith,
              e,
              grown,
              (later (on_writes l current)).less u,
              quiet_step (on_quiet w l current (H.answer u now).amount) t u (omega (arith, grown)),
            )

    pub wait_loop-Adds : (fuel : ℕ) (l : Loop) → Adds (wait_loop H fuel w pid l)
    unfolding wait_loop
    wait_loop-Adds zero l = record { less = λ t. omega arith }
    wait_loop-Adds (suc fuel) l = wait_loop_tick fuel l (wait_loop-Adds fuel)

  pub wait_for_idle-Adds : (fuel : ℕ) (w : Watcher) → Adds (wait_for_idle H fuel w)
  unfolding wait_for_idle
  wait_for_idle-Adds fuel w = record { less = λ t. found (find_gadget_pid H t).0 t refl }
    where
      read :
          (r : Result ℤ) (pid : String) (t : History)
          → (find_gadget_pid H t).0 ≡ ok pid
          → (read_write_bytes H pid (find_gadget_pid H t).1).0 ≡ r
          → length t ≤ length (wait_for_idle H fuel w t).1
      read (err x) pid t e d = ground (
        arith,
        e,
        d,
        find_gadget_pid-Adds.less t,
        (read_write_bytes-Adds pid).less (find_gadget_pid H t).1,
      )
      read (ok bytes) pid t e d =
          let u = (read_write_bytes H pid (find_gadget_pid H t).1).1 in
          ground (
            arith,
            e,
            d,
            find_gadget_pid-Adds.less t,
            (read_write_bytes-Adds pid).less (find_gadget_pid H t).1,
            (wait_loop-Adds w pid fuel
                  (record { state = undetermined; last_bytes = bytes; idle_since = pos 0 })).less
                u,
          )

      found :
          (r : Result String) (t : History)
          → (find_gadget_pid H t).0 ≡ r
          → length t ≤ length (wait_for_idle H fuel w t).1
      found (err x) t e = ground (arith, e, find_gadget_pid-Adds.less t)
      found (ok pid) t e = read (read_write_bytes H pid (find_gadget_pid H t).1).0 pid t e refl
