-- ===== src/Tests/OfCore.antt =====
-- The tensors and the arena of crates/bridge-core at concrete inputs.
use light_bridge_engine.Base.{
  ℕ, ◌+◌, ◌-◌, ◌*◌, ◌%◌, ◌≤◌, ◌<◌, ◌≡◌, ◌↔◌, refl, List, [], ◌∷◌, Option, none, some, Result, ok,
  err, All, length, arith, get_elem?, replicate, if◌then◌else◌, leb, ltb, ◌&&◌, word_modulus, ◌⊎◌,
}
use light_bridge_engine.Core.Error.{arithmetic_overflow}
use light_bridge_engine.Core.GgmlType.{
  q8_0, from_discriminant, discriminant, row_size, block_size, type_size,
}
use light_bridge_engine.Core.GgmlType.Discriminants.{from_discriminant_iff}
use light_bridge_engine.Core.GgmlType.Rows.{IsRow, row_size_iff}
use light_bridge_engine.Core.Tensor.{TensorDesc, new, shape, element_count, checked_absolute_range}
use light_bridge_engine.Core.Tensor.Extent.{
  product, new-shape, new-element_count, checked_absolute_range-exact,
}
use light_bridge_engine.Core.Arena.{cache_line, Arena, Region, alloc_bytes}
use light_bridge_engine.Core.Arena.Regions.{IsValid, alloc_bytes-zeroed}
use light_bridge_engine.Core.Arena.History.{grants, Stacked, grants-Stacked}

from_discriminant_iff_example : (from_discriminant 8 ≡ ok q8_0) ↔ (discriminant q8_0 ≡ 8)
from_discriminant_iff_example = from_discriminant_iff 8 q8_0

row_size_iff_example : (row_size q8_0 64 ≡ ok 68) ↔ IsRow q8_0 64 68
row_size_iff_example = row_size_iff q8_0 64 68

-- Two rows of 64 elements, of 68 bytes each.
abbrev weights : TensorDesc
weights = record {
  name = "w";
  fixed_shape = 64 ∷ 2 ∷ 1 ∷ 1 ∷ [];
  n_dims = 2;
  ty = q8_0;
  relative_offset = 32;
  strides = 34 ∷ 68 ∷ 0 ∷ 0 ∷ [];
}

weights_are_new : new "w" (64 ∷ 2 ∷ []) q8_0 32 ≡ ok weights
unfolding new light_bridge_engine.Core.Tensor.rank_of light_bridge_engine.Core.Tensor.valid_rank
    light_bridge_engine.Core.Tensor.fill_shape light_bridge_engine.Core.Tensor.compute_strides
    light_bridge_engine.Core.Tensor.check_dimensions light_bridge_engine.Core.Tensor.strides_of
    row_size block_size light_bridge_engine.Base.checked_mul type_size
weights_are_new = refl

weights_lie : checked_absolute_range weights 100 300 ≡ ok (132, 268)
unfolding checked_absolute_range light_bridge_engine.Base.checked_add
    light_bridge_engine.Core.Tensor.encoded_bytes light_bridge_engine.Base.checked_mul
weights_lie = refl

weights_count : element_count weights ≡ ok 128
unfolding element_count light_bridge_engine.Base.checked_mul
weights_count = refl

new-shape_example :
    (shape weights ≡ 64 ∷ 2 ∷ []) × (0 < 2) × (2 ≤ 4) × All (λ d. 0 < d) (64 ∷ 2 ∷ [])
new-shape_example = new-shape "w" (64 ∷ 2 ∷ []) q8_0 32 weights weights_are_new

new-element_count_example :
    ((product (64 ∷ 2 ∷ []) < word_modulus) × (element_count weights ≡ ok (product (64 ∷ 2 ∷ []))))
    ⊎ ((word_modulus ≤ product (64 ∷ 2 ∷ []))
        × (element_count weights ≡ err (arithmetic_overflow "tensor element count")))
new-element_count_example = new-element_count "w" (64 ∷ 2 ∷ []) q8_0 32 weights weights_are_new

checked_absolute_range-exact_example :
    (132 ≡ 100 + 32)
    × (132 ≤ 268)
    × (268 ≤ 300)
    × ((268 - 132) * block_size q8_0 ≡ product (64 ∷ 2 ∷ []) * type_size q8_0)
checked_absolute_range-exact_example =
    checked_absolute_range-exact "w" (64 ∷ 2 ∷ []) q8_0 32 100 300 weights 132 268 weights_are_new
      weights_lie

abbrev used_arena : Arena
used_arena = record {
  buffer = record { bytes = replicate 64 7; align = 64; len = 64 };
  base_alignment = 64;
  logical_capacity = 64;
  cursor = 3;
  high_water = 9;
}

used_arena-IsValid : IsValid used_arena
used_arena-IsValid = record {
  cursor_low = omega arith;
  within = omega arith;
  backed = omega arith;
  based = refl;
}

abbrev granted : Region
granted = record { start = 8; end = 13 }

granted_is_next : alloc_bytes used_arena 5 8 ≡ ((alloc_bytes used_arena 5 8).0, some granted)
unfolding alloc_bytes light_bridge_engine.Base.is_power_of_two light_bridge_engine.Base.round_up
    light_bridge_engine.Base.checked_add light_bridge_engine.Base.mask_down
granted_is_next = refl

alloc_bytes-zeroed_example :
    ((5 * cache_line + 8) % 8 ≡ 0)
    × (8 % 8 ≡ 0)
    × (3 ≤ 8)
    × (13 ≡ 8 + 5)
    × (13 ≤ 64)
    × (get_elem? (alloc_bytes used_arena 5 8).0.buffer.bytes 12
        ≡ (if leb 8 12 && ltb 12 13 then some 0 else get_elem? used_arena.buffer.bytes 12))
alloc_bytes-zeroed_example =
    alloc_bytes-zeroed used_arena 5 8 (alloc_bytes used_arena 5 8).0 granted 12 5 used_arena-IsValid
      granted_is_next

grants-Stacked_example : Stacked 3 (grants used_arena ((5, 8) ∷ (80, 1) ∷ (4, 16) ∷ [])) 64
grants-Stacked_example = grants-Stacked used_arena ((5, 8) ∷ (80, 1) ∷ (4, 16) ∷ [])
