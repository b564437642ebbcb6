-- ===== src/Gadget.antt =====
-- internal/gadget/gadget.go: the USB mass storage gadget, kept in configfs. A method of *Gadget
-- that returns an error leaves the record as it was, so the new record stands with success only.
pub mod Tree
pub mod Units
pub mod Bind
pub mod Binding
pub use Tree.{Lun, Gadget, new, gadget_path, clear_udc, teardown_existing, configure}
pub use Units.{add_lun, set_nofua}
pub use Bind.{find_udc, activate, deactivate, destroy}
