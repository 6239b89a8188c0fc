-- ===== src/Constrain.antt =====
-- Constrained tool decoding: src/toolconstrain.h, and the part of the engine that it drives.
pub mod Engine
pub mod State
pub mod Rounds
pub mod Pool
pub mod Staged
pub mod Calls
pub mod Engages
pub mod Runs
mod Tests
