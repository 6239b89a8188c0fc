-- ===== src/Stream.antt =====
-- The streaming filters between the decoded tokens and the client.
pub mod Holdback
pub mod StopBuffer
pub mod Splitter
pub mod Utf8Gate
mod Tests
