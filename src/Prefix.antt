-- ===== src/Prefix.antt =====
-- src/prefix_cache.h: the disk tier of the prefix cache.
pub mod Keys
pub mod Files
pub mod Cache
pub mod Store
pub mod Lookup
pub mod Removal
pub mod Budget
pub mod Names
pub mod Rescan
pub mod Restart
mod Tests
