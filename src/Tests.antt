-- ===== src/Tests.antt =====
-- The theorems at concrete inputs.
mod Frameworks
mod State
mod Io
mod Queries
mod Properties
mod Wire
mod Daemon
mod System
mod Interface
mod Engine
mod Main
mod Harness
