-- ===== src/Kv/Snapshots.antt =====
-- crates/bridge-kv-gqa/src/cache.rs: snapshots of the committed rows, with a checksum. The SHA-256
-- digest is a parameter.
pub mod Export
pub mod Restore
pub mod Cursors
pub mod Streams
pub mod Exports
pub mod Singles
pub mod Progress
pub mod Tokens
pub mod Layers
pub mod Payloads
pub mod Endings
pub mod Buffers
pub mod Safety
pub mod RoundTrip
