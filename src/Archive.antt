-- ===== src/Archive.antt =====
-- internal/archive: the storage backends. Go's interface `Backend` is a data type with a
-- constructor for each implementation; a method returns the object after the call beside its
-- result, since the CIFS backend keeps the name of its credentials file.
pub mod Transfer
pub mod Cifs
pub mod Nfs
pub mod Rsync
pub mod Rclone
pub mod Backend
pub mod Laws
