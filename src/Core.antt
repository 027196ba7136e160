-- ===== src/Core.antt =====
-- crates/bridge-core: element types, tensor descriptors and the scratch arena.
pub mod Error
pub mod GgmlType
pub mod Tensor
pub mod Arena
