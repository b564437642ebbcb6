-- ===== src/Growth.antt =====
-- Growth of the history under the operations of the daemon.
pub mod Adds
pub mod Drive
pub mod Network
pub mod Session
pub mod Archiving
pub mod Media
pub mod Loops
pub mod Cycle
