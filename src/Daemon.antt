-- ===== src/Daemon.antt =====
-- The capture daemon (daemon/src): its device table, the segment, the writer of the ring, the USB
-- engine with its callbacks, and the main loop.
pub mod Devices
pub mod Samples
pub mod Writer
pub mod Capture
pub mod Header
pub mod Engine
pub mod Main
