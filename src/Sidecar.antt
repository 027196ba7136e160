-- ===== src/Sidecar.antt =====
-- crates/bridge-format: the sidecar that holds the experts' weights, its header and its manifest.
pub mod Types
pub mod Header
pub mod Manifest
pub mod Layout
pub mod Reader
pub mod Hash
