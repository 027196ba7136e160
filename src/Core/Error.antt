-- ===== src/Core/Error.antt =====
-- crates/bridge-core/src/error.rs.
use light_bridge_engine.Base.{ℕ, String}

pub data CoreError : Type 0 where
  unknown_ggml_type : ℕ → CoreError
  -- The type's name, the dimension and the block size.
  not_block_aligned : String → ℕ → ℕ → CoreError
  invalid_tensor_rank : ℕ → CoreError
  zero_tensor_dimension : ℕ → CoreError
  arithmetic_overflow : String → CoreError
  -- The size and the alignment.
  invalid_allocation_layout : ℕ → ℕ → CoreError
  allocation_failed : ℕ → ℕ → CoreError
  -- The first byte, the end and the length of the file.
  tensor_out_of_bounds : ℕ → ℕ → ℕ → CoreError
