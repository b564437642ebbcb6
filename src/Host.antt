-- ===== src/Host.antt =====
-- The outside world. Whatever the daemon does through the kernel, a command line tool, the
-- database engine or the network is a `Call`; the answers come from a `Host`, which is a
-- parameter of everything. A host answers by the whole history of calls, newest first, so every
-- course of events outside is an instance of it: two runs with the same calls and the same
-- answers are the same run, and the history grows with each call, so no two calls of a run
-- share an answer by force. Go's string and path functions are fields of the host too.
mod Defs
pub mod Io
pub mod Fallible
pub use Defs.*
