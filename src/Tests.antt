-- ===== src/Tests.antt =====
-- The theorems at concrete inputs, by the part of the program that they are about.
pub mod Queue
pub mod History
pub mod Selection
pub mod Triggers
pub mod Webhooks
pub mod Daemon
pub mod Control
pub mod Http
pub mod Sources
pub mod Run
pub mod Modules
pub mod Push
pub mod Commands
pub mod Engine
pub mod Config
