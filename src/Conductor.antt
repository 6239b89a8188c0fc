-- ===== src/Conductor.antt =====
-- src/conductor.h: the host-side scheduling of concurrent generations.
pub mod Trim
pub mod Queue
pub mod Core
mod Tests
