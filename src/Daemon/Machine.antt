-- ===== src/Daemon/Machine.antt =====
-- The states, the partition layout and the record `StateMachine`. A nil pointer is `none`.
use teslausb_neo.Base.{String, Bool, Option}
use teslausb_neo.Host.{write_file, Host}
use teslausb_neo.Host.Io.{M, pure, ask, ◌>>◌}
use teslausb_neo.Host.Fallible.{Result}
use teslausb_neo.Config.Types.{Config}
use teslausb_neo.Gadget.{Gadget}
use teslausb_neo.Snapshot.{Snapshot}
use teslausb_neo.Archive.Backend.{Archiver}
use teslausb_neo.Notify.{Notifier}
use teslausb_neo.Tesla.{WakeKeeper}
use teslausb_neo.Fswatch.{Watcher}

pub data State : Type 0 where
  booting gadget_up waiting_for_wifi pre_archive snapshot fsck reconnect archiving : State
  media_sync cleanup : State

abbrev pub cam_partition : String
cam_partition = "/dev/mmcblk0p5"

abbrev pub music_partition : String
music_partition = "/dev/mmcblk0p6"

abbrev pub lightshow_partition : String
lightshow_partition = "/dev/mmcblk0p7"

abbrev pub snapshot_mountpoint : String
snapshot_mountpoint = "/mnt/snap"

abbrev pub media_mountpoint : String
media_mountpoint = "/mnt/media"

-- The WiFi manager and the database handle have no state of their own.
pub record StateMachine : Type 0 where
  pub state : State
  pub cfg : Config
  pub gad : Option Gadget
  pub archiver : Archiver
  pub notifier : Notifier
  pub wake : WakeKeeper
  pub watcher : Watcher
  pub snap : Option Snapshot
  pub ready : Bool  -- readyOnce has run

-- What a method of the state machine does: it returns an `error`, or dereferences nil.
pub data Flow : Type 0 where
  returned : Result (Unit {0}) → Flow
  panicked : Flow

-- CurrentState, without its lock
abbrev pub current_state : StateMachine → State
current_state m = m.state

unfoldable pub transition : State → StateMachine → StateMachine
transition next m = record m { state = next }

-- sys.SetCPUGovernor, its error dropped by both callers
abbrev pub set_cpu_governor : Host → String → M (Unit {0})
set_cpu_governor H governor = do
  ask H (write_file "/sys/devices/system/cpu/cpufreq/policy0/scaling_governor" governor)
  pure tt
