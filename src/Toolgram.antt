-- ===== src/Toolgram.antt =====
-- src/toolgram.h: the pushdown machine that constrains the decoding of a tool call.
pub mod State
pub mod Step
pub mod Machine
pub mod Valid
pub mod Json
pub mod Reads
pub mod Names
pub mod Complete
pub mod Sound
pub mod Signature
pub mod MaskCache
mod Tests
