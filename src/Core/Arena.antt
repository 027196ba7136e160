-- ===== src/Core/Arena.antt =====
-- crates/bridge-core/src/arena.rs: the aligned backing buffer and the bump allocator over it.
-- Bytes are numbers. Whether the system's allocator has room is an argument of the constructors.
pub mod Regions
pub mod History
use light_bridge_engine.Base.{
  ℕ, zero, suc, ◌+◌, ◌-◌, ◌*◌, ◌^◌, max, List, [], ◌∷◌, Bool, true, false, ◌&&◌, ◌||◌, not, Option,
  none, some, ltb, leb, ◌==◌, if◌then◌else◌, Result, ok, err, ok_or, guard, ◌>>◌, ◌>>=◌, replicate,
  checked_add, checked_mul, round_up, is_power_of_two,
}
use light_bridge_engine.Core.Error.{
  CoreError, arithmetic_overflow, invalid_allocation_layout, allocation_failed,
}

abbrev pub cache_line : ℕ
cache_line = 64

-- `bytes` is the whole allocation; its length is the size of the layout.
pub record AlignedBuffer : Type 0 where
  pub bytes : List ℕ
  pub align : ℕ
  pub len : ℕ

-- `Layout::from_size_align` refuses a size that would pass `isize::MAX` when rounded up.
from_size_align : ℕ → ℕ → Bool
from_size_align size align = is_power_of_two align && leb (size + (align - 1)) (2 ^ 63 - 1)

-- The size of the layout.
unfoldable pub checked_layout : ℕ → ℕ → Result CoreError ℕ
unfolding from_size_align
checked_layout len align =
    let fail = invalid_allocation_layout len align in
    if (align == 0) || not (is_power_of_two align) then err fail else do
      padded ← ok_or (round_up (max len 1) align) fail
      guard (from_size_align padded align) fail
      ok padded

-- `has_room size align` tells whether `alloc_zeroed` returns an allocation.
unfoldable pub new_buffer : (ℕ → ℕ → Bool) → ℕ → ℕ → Result CoreError AlignedBuffer
new_buffer has_room len align = do
  size ← checked_layout len align
  guard (has_room size align) (allocation_failed size align)
  ok (record { bytes = replicate size 0; align = align; len = len })

pub record Arena : Type 0 where
  pub buffer : AlignedBuffer
  pub base_alignment : ℕ
  pub logical_capacity : ℕ
  pub cursor : ℕ
  pub high_water : ℕ

unfoldable pub with_capacity_bytes : (ℕ → ℕ → Bool) → ℕ → Result CoreError Arena
with_capacity_bytes has_room bytes = do
  buffer ← new_buffer has_room bytes cache_line
  ok (record {
    buffer = buffer;
    base_alignment = buffer.align;
    logical_capacity = bytes;
    cursor = 0;
    high_water = 0;
  })

unfoldable pub with_capacity_f32 : (ℕ → ℕ → Bool) → ℕ → Result CoreError Arena
with_capacity_f32 has_room n = do
  bytes ← ok_or (checked_mul n 4) (arithmetic_overflow "arena f32 capacity")
  with_capacity_bytes has_room bytes

-- `region.fill(0)` for the bytes from `start` to `end`.
unfoldable pub fill_zero : ℕ → ℕ → List ℕ → List ℕ
fill_zero start end [] = []
fill_zero zero zero (b ∷ bs) = b ∷ bs
fill_zero zero (suc end) (b ∷ bs) = 0 ∷ fill_zero zero end bs
fill_zero (suc start) end (b ∷ bs) = b ∷ fill_zero start (end - 1) bs

-- A region is given by its start and its end in the buffer.
pub record Region : Type 0 where
  pub start : ℕ
  pub end : ℕ

-- The region between two cursors, and the arena after it.
unfoldable pub take_region : Arena → ℕ → ℕ → Arena × Option Region
take_region a start end = (
  record a {
    buffer = record a.buffer { bytes = fill_zero start end a.buffer.bytes };
    cursor = end;
    high_water = max a.high_water end;
  },
  some (record { start = start; end = end }),
)

unfoldable pub alloc_bytes : Arena → ℕ → ℕ → Arena × Option Region
unfolding take_region
alloc_bytes a len align =
    if (align == 0) || not (is_power_of_two align) || not (leb align a.base_alignment)
    then (a, none)
    else elim (round_up a.cursor align) [
      | none ↦ (a, none)
      | some start ↦ elim (checked_add start len) [
        | none ↦ (a, none)
        | some end ↦ if leb end a.logical_capacity then take_region a start end else (a, none)
      ]
    ]

-- The region holds `n` four-byte elements.
unfoldable pub alloc_f32 : Arena → ℕ → Arena × Option Region
alloc_f32 a n = elim (checked_mul n 4) [
  | none ↦ (a, none)
  | some bytes ↦ alloc_bytes a bytes cache_line
]

unfoldable pub reset : Arena → Arena
reset a = record a { cursor = 0 }
