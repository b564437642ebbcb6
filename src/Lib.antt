-- ===== src/Lib.antt =====
-- teslausb-neo: a Raspberry Pi that the car sees as a USB drive, and that copies the dashcam
-- clips to a server when it is home. This library models the daemon, cmd/teslausb/main.go and
-- the packages under internal/, and proves what its parts promise.
--
-- The parts and their files. The state machine of cmd/teslausb/main.go is Daemon: Daemon/Machine
-- has its states and the record StateMachine, Daemon/Wiring buildArchiveBackend, buildNotifier,
-- buildWakeKeeper and the first StateMachine of main, Daemon/Boot boot and what takes the gadget
-- and the snapshot up and down, Daemon/Scan scanFilesForArchive, Daemon/Archiving runArchive,
-- Daemon/Media runMediaSync, Daemon/Run the loop Run itself with waitForWifi, Daemon/Startup
-- main: the configuration, what is set up before the loop, the goroutines, and how the process
-- ends. It drives the components: Gadget is internal/gadget/gadget.go (Gadget/Tree Configure and
-- the configfs tree, Gadget/Units AddLUN and SetNofua, Gadget/Bind Activate, Deactivate,
-- Destroy); Snapshot is internal/snapshot/snapshot.go (Snapshot/Create, Snapshot/Release, and
-- Snapshot/Built on what a successful Create has made); Fsutil is internal/fsutil/fsutil.go;
-- Fswatch is internal/fswatch/fswatch.go; Archive is internal/archive (Archive/Transfer the loop
-- that the four backends share, Archive/Cifs, Nfs, Rsync and Rclone their commands,
-- Archive/Backend the interface); State is internal/state (State/Open db.go, State/Rows the
-- queries that read rows); Notify is internal/notify; Tesla is internal/tesla; Wifi is
-- internal/wifi/wifi.go (Wifi/Manager nmcli, Wifi/Watchdog the watchdog); Config is
-- internal/config/config.go (Config/Types, Config/Defaults, Config/Validate, Config/Load).
-- Around the machine: Health is internal/health/health.go, Sys is internal/sys, Wifi/Provision
-- is internal/wifi/provision.go, Web is internal/web/server.go (Web/Reports the handlers that
-- report, Web/Server the routes), Sdnotify is internal/sdnotify. Tests has concrete hosts and
-- runs. The outside world. Kernel files, command line tools, SQLite and HTTP are calls of a host
-- (Host): a host answers each call by the history of the calls before it, so a theorem for every
-- host holds for every course of events, faults at any call included. A function of the daemon
-- takes the history before it and gives its result and the history after it; Host/Io and
-- Host/Fallible have the notation for code that cannot fail and for code that returns an
-- `error`. A method that changes its receiver returns the new record beside its result; a nil
-- pointer is `none`; a dereference of nil is the flow `panicked`. Go's string and path functions
-- are fields of the host. What a theorem needs of them, or of the database, is a hypothesis that
-- is named (State/Laws: IsDatabase; Web/Paths: Filepath).
--
-- Numbers. int and int64 are ℤ of Base/Int with wrap_int64 where the source's arithmetic can
-- leave the range; uint64 is ℕ with the remainder by 2^64 written out (Fsutil); durations are
-- nanoseconds.
--
-- Loops that wait run on fuel: wait_loop, wait_for_wifi, watchdog_rounds, rounds and the
-- goroutines are watched for a number of ticks or rounds, and `none`, `false`, `watching` or
-- `still_waiting` says that they have not returned by then. The sources' loops do not end by
-- themselves, so no amount of fuel is enough for all hosts: the theorems hold for every amount,
-- and those on returning say which is enough (Fswatch/Returns; Daemon/Shutdown, Daemon/Waiting,
-- Daemon/Termination and Daemon/Exit for a context that is done from some call on, over the
-- lemmas of Growth on how the history grows). All other loops run over a list.
--
-- Not modelled: logging; the interleaving of the goroutines of main and of the BLE wake keeper
-- with the machine, each of which is modelled by itself, but for a goroutine that panics at its
-- start and ends the process (Daemon/Startup: supervise, whose `delay` says when); the locks of
-- CurrentState and of the web server; the closing of files, rows and bodies; the error of
-- http.NewRequest, which is one with the error of sending. The loops over Go maps in
-- Gadget.Configure run in the order of the source's text. TOML decoding is a parameter
-- (Config/Load), and so are the mux and the file server of net/http (Web/Server) and the
-- conversions of database/sql (State/Rows). The embedded web assets are static files.
pub mod Base
pub mod Host
pub mod Fsutil
pub mod Gadget
pub mod Snapshot
pub mod State
pub mod Archive
pub mod Config
pub mod Notify
pub mod Tesla
pub mod Wifi
pub mod Fswatch
pub mod Growth
pub mod Daemon
pub mod Health
pub mod Sys
pub mod Sdnotify
pub mod Web
pub mod Tests
