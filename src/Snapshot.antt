-- ===== src/Snapshot.antt =====
-- internal/snapshot/snapshot.go: a device-mapper snapshot of the cam partition with its
-- copy-on-write store in zram.
pub mod Release
pub mod Create
pub mod Laws
pub mod Built
pub use Release.{Snapshot, dm_name, run_cmd, release, cleanup, mount, is_valid, release_zram}
pub use Create.{create, create_with_cow_size}
