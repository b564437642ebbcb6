-- ===== src/Tests/Ending.antt =====
-- The theorems on how the daemon ends, on a host whose context is done from the twentieth call on.
use teslausb_neo.Base.{String, ◌≡◌, ◌⊎◌, true, false, none, some, [], length, leb, refl, arith}
use teslausb_neo.Base.Int.{pos}
use teslausb_neo.Notify.{noop_notifier, event_start}
use teslausb_neo.Host.Fallible.{ok}
use teslausb_neo.State.{create_session}
use teslausb_neo.Daemon.Archiving.{tell, archive_session}
use teslausb_neo.Daemon.Archiving.Sessions.{Extends, closed, archive_session-closed}
use teslausb_neo.Host.{Host}
use teslausb_neo.Config.Load.{Decoder}
use teslausb_neo.Config.Defaults.{default_config}
use teslausb_neo.State.Open.{holds_open}
use teslausb_neo.Tesla.{new_ble, ble_loop}
use teslausb_neo.Daemon.Startup.{exits, panics, set_up, main}
use teslausb_neo.Daemon.Shutdown.{DoneFrom, unticked, ble_loop-returns}
use teslausb_neo.Daemon.Exit.{main-exits}
use teslausb_neo.Daemon.Process.{process}
use teslausb_neo.Config.Types.{Config}
use teslausb_neo.Daemon.Machine.{StateMachine, waiting_for_wifi}
use teslausb_neo.Daemon.Wiring.{initial}
use teslausb_neo.Daemon.Leaving.{waits}
use teslausb_neo.Tests.Hosts.{calm, host_of, quiet_host}

abbrev stopped_host : Host
stopped_host =
    host_of (λ t c. record calm { cancelled = leb 20 (length t); signalled = leb 20 (length t) })

stopped_host-DoneFrom : DoneFrom stopped_host 20
stopped_host-DoneFrom = record { waits = λ u d. refl; polls = λ u. refl; signals = λ u. refl }

abbrev defaults_kept : Decoder
defaults_kept c text = (c, none)

abbrev empty_payload : String → String → String → String
empty_payload title body kind = "{}"

no_database : holds_open stopped_host [] ≡ false
unfolding holds_open
no_database = refl

main-exits_example :
    let p = (set_up stopped_host defaults_kept empty_payload []).0 in
    let r = (main stopped_host defaults_kept empty_payload "dev" 21 0 21 []).0 in
    (p ≡ none) × (r ≡ exits 1)
    ⊎ ((c : Config) × (p ≡ some (process stopped_host defaults_kept empty_payload c))
        × ((r ≡ exits 0) ⊎ (unticked c ≡ true) × (r ≡ panics)))
main-exits_example =
    main-exits stopped_host defaults_kept empty_payload 20 stopped_host-DoneFrom "dev" 20 0 20 []
      no_database (omega arith) (omega arith)

ble_loop-returns_example : (ble_loop stopped_host 21 (new_ble "5YJ3" "") []).0 ≡ true
ble_loop-returns_example =
    ble_loop-returns stopped_host 20 stopped_host-DoneFrom 20 (new_ble "5YJ3" "") [] (omega arith)

-- A host whose context is done from the second call on, and a machine that waits for the network
-- with the gadget up.
abbrev late_host : Host
late_host = host_of (λ t c. record calm { cancelled = leb 1 (length t) })

abbrev at_large : StateMachine
at_large = record (initial late_host empty_payload default_config) {
  state = waiting_for_wifi;
  gad = some (record {
    root = "/sys/kernel/config/usb_gadget";
    name = "teslausb";
    luns = [];
    active = true;
  });
}

abbrev quiet_machine : StateMachine
quiet_machine = record (initial quiet_host empty_payload default_config) {
  notifier = noop_notifier;
}

only_adds : Extends quiet_machine.notifier
unfolding noop_notifier
only_adds title message event t = ([], refl)

session_made :
    (create_session quiet_host
      (tell quiet_host "dev" quiet_machine "Archiving started" event_start []).1).0
    ≡ ok (pos 0)
unfolding create_session noop_notifier
session_made = refl

archive_session-closed_example :
    closed (archive_session quiet_host "dev" quiet_machine []).1 (pos 0) ≡ true
archive_session-closed_example =
    archive_session-closed quiet_host "dev" quiet_machine only_adds (pos 0) [] session_made
