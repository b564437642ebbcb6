-- ===== src/Daemon.antt =====
-- cmd/teslausb/main.go: the state machine that drives every other component.
pub mod Machine
pub mod Wiring
pub mod Boot
pub mod Scan
pub mod Archiving
pub mod Media
pub mod Run
pub mod Invariant
pub mod Startup
pub mod Process
pub mod Shutdown
pub mod Leaving
pub mod Waiting
pub mod Termination
pub mod Exit
