-- ===== src/Tests.antt =====
-- Concrete hosts, and the theorems applied to runs on them.
mod Hosts
mod Components
mod Cycle
mod System
mod Store
mod Service
mod Ending
mod Idle
