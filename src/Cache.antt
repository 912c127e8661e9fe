-- ===== src/Cache.antt =====
-- cache/: the two-tier cache and its parts.
pub mod Headers
pub mod Entry
pub mod Sketch
pub mod Doorkeeper
pub mod TinyLfu
pub mod Key
pub mod Streaming
pub mod Stampede
pub mod Shard
pub mod Disk
pub mod Predictor
pub mod Tiered
pub mod Toy
mod Tests
