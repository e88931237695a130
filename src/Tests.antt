-- ===== src/Tests.antt =====
-- The theorems at concrete values.
pub mod Rings
pub mod Channels
pub mod Events
pub mod Scheduler
pub mod Runtimes
pub mod Futures
pub mod Handles
pub mod Interleavings
pub mod Systems
pub mod Wakers
pub mod Timers
pub mod Crowds
pub mod Turns
