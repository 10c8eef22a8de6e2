-- ===== src/Tests.antt =====
-- Runs of the definitions at concrete inputs, and instances of the theorems.
pub mod Fixtures
pub mod Common
pub mod Rt
pub mod Rs
pub mod Transmitter
pub mod Receiver
pub mod Util
pub mod Launcher
pub mod System
