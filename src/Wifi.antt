-- ===== src/Wifi.antt =====
-- internal/wifi: the connection to the home network.
pub mod Manager
pub mod Watchdog
pub mod Provision
