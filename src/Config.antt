-- ===== src/Config.antt =====
-- internal/config/config.go: the configuration record, its defaults and its validation.
pub mod Types
pub mod Defaults
pub mod Load
pub mod Validate
pub mod Laws
