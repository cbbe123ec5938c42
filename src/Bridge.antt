-- ===== src/Bridge.antt =====
-- src/bridge
pub mod Policy
pub mod Batteries
pub mod Vetted
pub mod Uhid
pub mod Daemon
mod Tests
