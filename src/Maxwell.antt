-- ===== src/Maxwell.antt =====
-- src/maxwell: the native reader of the Audeze Maxwell's dongle.
pub mod Frame
pub mod Session
pub mod Wedge
pub mod Access
pub mod Reader
pub mod Discover
